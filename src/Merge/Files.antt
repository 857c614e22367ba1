-- ===== src/Merge/Files.antt =====
-- merge-memop.cpp: the two files, once all entries are written.
use mathlib.Core.List.{Memᴰ}
use mathlib.Core.List.Memᴰ as MemD
use mem_order.Base.{
  ℕ, suc, ◌-◌, ◌*◌, ◌<◌, ◌≤◌, ◌==◌, ◌≡◌, List, [], ◌∷◌, ◌++◌, map, arith, refl, ap, ◌∙◌, append-nil,
  append_assoc, inl, inr, ◌⊎◌, Bool-cases, subst, sym, pos, minus_one, some, true, false,
  ℕ_discrete, eq_ℤ,
}
use mem_order.Merge.{
  QueEnt, MergeFiles, put, skip_objects, next_id, close_object, open_object, add_entry, write_entry,
  finish_index, empty_files,
}
use mem_order.Merge.Order.{SortedEnts, write_all}
use mem_order.Merge.Count.{strip, count_of, count_below, AllBelow}
use mem_order.Merge.Skip.{Skipped, skip_objects-Skipped}
use mem_order.Merge.{object_log}
use mem_order.Merge.Count.{ents_of, count_of-mem, slice-ents_of}
use mem_order.Merge.Index.{Indexed, Closed, Open, add_entry-Open, close_object-Closed, put-Closed}
use mem_order.Merge.Opening.{Skipped-Indexed, open_object-Open}

-- The files hold the entries `es` so far.
abbrev Written : List QueEnt → MergeFiles → Type 0
Written es m = ((es ≡ []) × (m.prev_id ≡ minus_one) × Closed es 0 m) ⊎ ((o : ℕ) × Open es o m)

-- The next entry's object is not before those of `es`.
abbrev NotBefore : List QueEnt → QueEnt → Type 0
NotBefore es e = (x : QueEnt) → Memᴰ x es → x.wop.objid ≤ e.wop.objid

Open-last :
    (es : List QueEnt) (o : ℕ) (m : MergeFiles)
    → Open es o m
    → (x : QueEnt) × Memᴰ x es × (x.wop.objid ≡ o)
Open-last es o m h = count_of-mem o es (omega (arith, h.own_some, h.own_cnt))

unopened : (m : MergeFiles) → m.prev_id ≡ minus_one → close_object m ≡ some m
unfolding close_object
unopened m p = let t : eq_ℤ m.prev_id minus_one ≡ true = ground arith in rw t

write_entry-Written :
    (es : List QueEnt) (m : MergeFiles) (e : QueEnt)
    → Written es m
    → NotBefore es e
    → (m' : MergeFiles) × (write_entry e m ≡ some m') × Open (es ++ (e ∷ [])) e.wop.objid m'
unfolding write_entry
write_entry-Written es m e (inl (z, p, h)) nb = (
  add_entry e (open_object e.wop.objid m),
  (let t : eq_ℤ m.prev_id (pos e.wop.objid) ≡ false = ground arith in rw (t, unopened m p)),
  open_object-Open es 0 m e h (ap next_id p) (omega arith),
)
write_entry-Written es m e (inr (o, h)) nb = elim (ℕ_discrete e.wop.objid o) [
  | yes q ↦ (
    add_entry e m,
    (let t : eq_ℤ m.prev_id (pos e.wop.objid) ≡ true = let r = h.prev_id in ground arith in rw t),
    subst (λ v. Open (es ++ (e ∷ [])) v (add_entry e m)) (sym q) (add_entry-Open es o m e h q),
  )
  | no ne ↦
      let (m', c, k, p) = close_object-Closed es o m h in
      let above : o < e.wop.objid =
        let (x, i, j) = Open-last es o m h in omega (arith, nb x i, j, ne) in
      (
        add_entry e (open_object e.wop.objid m'),
        (let t : eq_ℤ m.prev_id (pos e.wop.objid) ≡ false = let r = h.prev_id in ground arith in
            rw (t, c)),
        open_object-Open es (suc o) m' e k (ap next_id p ∙ (omega arith)) above,
      )
]

-- Sorted entries that do not begin before those already written.
FollowedBy : List QueEnt → List QueEnt → Type 0
FollowedBy done rest = (y : QueEnt) → Memᴰ y rest → NotBefore done y

Sorted-NotBefore :
    (e : QueEnt) (es : List QueEnt)
    → SortedEnts (e ∷ es)
    → (y : QueEnt) → Memᴰ y es
    → e.wop.objid ≤ y.wop.objid
Sorted-NotBefore e es s y m = elim (s.0 y m) [ inl lt ↦ omega arith | inr h ↦ omega (arith, h.0) ]

FollowedBy-append :
    (done : List QueEnt) (e : QueEnt) (rest : List QueEnt)
    → SortedEnts (e ∷ rest)
    → FollowedBy done (e ∷ rest)
    → FollowedBy (done ++ (e ∷ [])) rest
unfolding FollowedBy
FollowedBy-append done e rest s f y m x h = elim (MemD.append_cases done h) [
  | inl k ↦ f y (Memᴰ.tail m) x k
  | inr k ↦ rw (MemD.eq_of_singleton k) (Sorted-NotBefore e rest s y m)
]

-- Every assertion of the loop holds.
write_all-Written :
    (done rest : List QueEnt) (m : MergeFiles)
    → Written done m
    → SortedEnts rest
    → FollowedBy done rest
    → (m' : MergeFiles) × (write_all rest m ≡ some m') × Written (done ++ rest) m'
unfolding write_all FollowedBy
write_all-Written done [] m w s f = (m, refl, subst (λ es. Written es m) (sym (append-nil done)) w)
write_all-Written done (e ∷ rest) m w s f =
    let (m', p, o) = write_entry-Written done m e w (f e (Memᴰ.head refl)) in
    let (m'', q, w') =
      write_all-Written (done ++ (e ∷ [])) rest m' (inr (e.wop.objid, o)) s.1
        (FollowedBy-append done e rest s f) in
    (m'', rw (p, write_all) q, subst (λ es. Written es m'') (append_assoc done (e ∷ []) rest) w')

empty_files-Closed : Closed [] 0 empty_files
empty_files-Closed = record {
  log = refl;
  cnt = refl;
  below = λ x m. absurd (MemD.not-nil m);
  at = refl;
  indexed = λ u lt. absurd (omega arith);
}

nothing_before : (es : List QueEnt) → FollowedBy [] es
unfolding FollowedBy
nothing_before es y m x h = absurd (MemD.not-nil h)

-- What the replayer finds by the index.
object_log-Indexed :
    (es : List QueEnt) (u : ℕ) (m : MergeFiles)
    → SortedEnts es
    → m.memop_log ≡ map strip es
    → Indexed es u m
    → object_log (some m) u ≡ map strip (ents_of u es)
unfolding object_log
object_log-Indexed es u m s log (i, n) = elim (Bool-cases (count_of u es == 0)) [
  | inl z ↦
      let none : count_of u es ≡ 0 = ground arith in
      let i' : m.index (2 * u) ≡ minus_one = rw z at i in
      let k = slice-ents_of u es s in rw i' (rw none at k)
  | inr z ↦
      let i' : m.index (2 * u) ≡ pos (count_below u es) = rw z at i in
      rw (i', n, log) (slice-ents_of u es s)
]

pub finish_index-Indexed :
    (es : List QueEnt) (o nobj : ℕ) (m : MergeFiles)
    → Open es o m
    → o < nobj
    → ((finish_index nobj m).memop_log ≡ map strip es)
      × ((u : ℕ) → u < nobj → Indexed es u (finish_index nobj m))
unfolding finish_index
finish_index-Indexed es o nobj m h lt =
    let last = put (pos (m.cnt - m.prev_cnt)) m in
    let k = put-Closed es o m h in
    let n : nobj - suc o ≡ nobj - next_id m.prev_id = rw h.prev_id (omega arith) in
    let s : Skipped (suc o) (nobj - suc o) last (skip_objects (nobj - next_id m.prev_id) last) =
      subst (λ i. Skipped (suc o) (nobj - suc o) last (skip_objects i last)) n
        (skip_objects-Skipped (suc o) (nobj - suc o) last (omega (arith, h.at))) in
    (s.same.0 ∙ h.log, λ u p. Skipped-Indexed es (suc o) (nobj - suc o) last _ k s u (omega arith))

-- A sorted list that is not empty, written and finished, is found by each object's index.
pub write_all-finish_index :
    (nobj : ℕ) (e : QueEnt) (es : List QueEnt)
    → SortedEnts (e ∷ es)
    → AllBelow nobj (e ∷ es)
    → (m : MergeFiles) × (write_all (e ∷ es) empty_files ≡ some m)
      × ((u : ℕ)
          → u < nobj
          → object_log (some (finish_index nobj m)) u ≡ map strip (ents_of u (e ∷ es)))
write_all-finish_index nobj e es s below =
    let (m, p, w) =
      write_all-Written [] (e ∷ es) empty_files (inl (refl, refl, empty_files-Closed)) s
        (nothing_before (e ∷ es)) in
    (
      m,
      p,
      λ u lt. elim w [
        | inl (z, i, k) ↦ absurd cc
        | inr (o, h) ↦
            let (x, i, j) = Open-last (e ∷ es) o m h in
            let (log, index) =
              finish_index-Indexed (e ∷ es) o nobj m h (omega (arith, below x i, j)) in
            object_log-Indexed (e ∷ es) u (finish_index nobj m) s log (index u lt)
      ],
    )
