-- ===== src/Merge/Index.antt =====
-- merge-memop.cpp: the index while an object's entries are written, and when they are.
use mathlib.Core.List.{map-append}
use mathlib.Core.List.Memᴰ as MemD
use mem_order.Base.{
  ℕ, suc, ◌+◌, ◌-◌, ◌*◌, ◌<◌, ◌≤◌, ◌==◌, ◌≡◌, ltb, if◌then◌else◌, List, [], ◌∷◌, ◌++◌, map, arith,
  ap, ◌∙◌, length, length-append, inl, inr, subst, ℤ, pos, minus_one, some, true, false, ℕ_discrete,
  update_self, eq_ℤ,
}
use mem_order.Merge.{QueEnt, MergeFiles, put, close_object, add_entry}
use mem_order.Merge.Count.{
  strip, count_of, count_below, count_of-append, count_below-append, AllBelow,
}

-- The index tells where the entries of `u` are in the file of `es`.
abbrev pub Indexed : List QueEnt → ℕ → MergeFiles → Type 0
Indexed es u m =
    (m.index (2 * u) ≡ (if count_of u es == 0 then minus_one else pos (count_below u es)))
    × (m.index (2 * u + 1) ≡ pos (count_of u es))

-- The file holds `es`, and the index is written for the objects below `a`.
pub record Closed (es : List QueEnt) (a : ℕ) (m : MergeFiles) : Type 0 where
  pub log : m.memop_log ≡ map strip es
  pub cnt : m.cnt ≡ length es
  pub below : AllBelow a es
  pub at : m.at ≡ 2 * a
  pub indexed : (u : ℕ) → u < a → Indexed es u m

-- The entries of `o` are being written.
pub record Open (es : List QueEnt) (o : ℕ) (m : MergeFiles) : Type 0 where
  pub log : m.memop_log ≡ map strip es
  pub cnt : m.cnt ≡ length es
  pub below : AllBelow (suc o) es
  pub at : m.at ≡ 2 * o + 1
  pub indexed : (u : ℕ) → u < o → Indexed es u m
  pub prev_id : m.prev_id ≡ pos o
  pub own_index : m.index (2 * o) ≡ pos m.prev_cnt
  pub prev_cnt : m.prev_cnt ≡ count_below o es
  pub own_some : m.prev_cnt < m.cnt
  pub own_cnt : m.cnt ≡ m.prev_cnt + count_of o es

pub Indexed-append :
    (es : List QueEnt) (u : ℕ) (m : MergeFiles) (e : QueEnt)
    → u < e.wop.objid
    → Indexed es u m
    → Indexed (es ++ (e ∷ [])) u (add_entry e m)
Indexed-append es u m e lt h =
    let c : count_of u (es ++ (e ∷ [])) ≡ count_of u es = ground (arith, count_of-append u es e) in
    let b : count_below u (es ++ (e ∷ [])) ≡ count_below u es =
      ground (arith, count_below-append u es e) in
    rw (c, b) h

pub AllBelow-append :
    (a : ℕ) (es : List QueEnt) (e : QueEnt)
    → AllBelow a es
    → e.wop.objid < a
    → AllBelow a (es ++ (e ∷ []))
AllBelow-append a es e h lt x m = elim (MemD.append_cases es m) [
  | inl k ↦ h x k
  | inr k ↦ rw (MemD.eq_of_singleton k) lt
]

pub add_entry-log :
    (es : List QueEnt) (m : MergeFiles) (e : QueEnt)
    → m.memop_log ≡ map strip es
    → (add_entry e m).memop_log ≡ map strip (es ++ (e ∷ []))
add_entry-log es m e h = simp (map-append, h)

-- One more entry of the same object.
pub add_entry-Open :
    (es : List QueEnt) (o : ℕ) (m : MergeFiles) (e : QueEnt)
    → Open es o m
    → e.wop.objid ≡ o
    → Open (es ++ (e ∷ [])) o (add_entry e m)
add_entry-Open es o m e h q =
    let c : count_of o (es ++ (e ∷ [])) ≡ count_of o es + 1 =
      ground (arith, count_of-append o es e) in
    let b : count_below o (es ++ (e ∷ [])) ≡ count_below o es =
      ground (arith, count_below-append o es e) in
    record {
      log = add_entry-log es m e h.log;
      cnt = omega (arith, h.cnt, length-append es (e ∷ []));
      below = AllBelow-append (suc o) es e h.below (omega arith);
      at = h.at;
      indexed = λ u lt. Indexed-append es u m e (omega (arith, q)) (h.indexed u lt);
      prev_id = h.prev_id;
      own_index = h.own_index;
      prev_cnt = omega (arith, h.prev_cnt, b);
      own_some = omega (arith, h.own_some);
      own_cnt = omega (arith, h.own_cnt, c);
    }

-- The index of `u` is as it was where its two places are.
pub Indexed-same :
    (es : List QueEnt) (u : ℕ) (m m' : MergeFiles)
    → ((i : ℕ) → i < 2 * u + 2 → m'.index i ≡ m.index i)
    → Indexed es u m
    → Indexed es u m'
Indexed-same es u m m' e h = (e (2 * u) (omega arith) ∙ h.0, e (2 * u + 1) (omega arith) ∙ h.1)

pub put-before : (v : ℤ) (m : MergeFiles) (i : ℕ) → i < m.at → (put v m).index i ≡ m.index i
put-before v m i lt = ground arith

pub AllBelow-weaken : (a b : ℕ) (es : List QueEnt) → a ≤ b → AllBelow a es → AllBelow b es
AllBelow-weaken a b es le h x m = let k = h x m in omega arith

-- The number of an object's entries is the second part of its index.
own-Indexed :
    (es : List QueEnt) (o : ℕ) (m : MergeFiles)
    → Open es o m
    → Indexed es o (put (pos (m.cnt - m.prev_cnt)) m)
own-Indexed es o m h =
    let c : m.cnt - m.prev_cnt ≡ count_of o es = omega (arith, h.own_cnt) in
    let t : (count_of o es == 0) ≡ false =
      let p = h.own_cnt in let q = h.own_some in ground arith in
    (
      put-before (pos (m.cnt - m.prev_cnt)) m (2 * o) (omega (arith, h.at))
          ∙ rw t (h.own_index ∙ ap pos h.prev_cnt),
      let here : m.at ≡ 2 * o + 1 = h.at in
          rw (← here, update_self m.index m.at (pos (m.cnt - m.prev_cnt))) (ap pos c),
    )

pub put-Indexed :
    (es : List QueEnt) (o : ℕ) (m : MergeFiles)
    → Open es o m
    → (u : ℕ) → u < suc o
    → Indexed es u (put (pos (m.cnt - m.prev_cnt)) m)
put-Indexed es o m h u lt = elim (ℕ_discrete o u) [
  | yes e ↦ subst (λ v. Indexed es v (put (pos (m.cnt - m.prev_cnt)) m)) e (own-Indexed es o m h)
  | no e ↦
      Indexed-same es u m (put (pos (m.cnt - m.prev_cnt)) m)
        (λ i p. put-before (pos (m.cnt - m.prev_cnt)) m i (omega (arith, h.at, e)))
        (h.indexed u (omega (arith, e)))
]

pub put-Closed :
    (es : List QueEnt) (o : ℕ) (m : MergeFiles)
    → Open es o m
    → Closed es (suc o) (put (pos (m.cnt - m.prev_cnt)) m)
put-Closed es o m h = record {
  log = h.log;
  cnt = h.cnt;
  below = h.below;
  at = omega (arith, h.at);
  indexed = put-Indexed es o m h;
}

pub close_object-Closed :
    (es : List QueEnt) (o : ℕ) (m : MergeFiles)
    → Open es o m
    → (m' : MergeFiles) × (close_object m ≡ some m') × Closed es (suc o) m' × (m'.prev_id ≡ pos o)
unfolding close_object
close_object-Closed es o m h =
    let t : eq_ℤ m.prev_id minus_one ≡ false = let p = h.prev_id in ground arith in
    let l : ltb m.prev_cnt m.cnt ≡ true = let p = h.own_some in ground arith in
    (put (pos (m.cnt - m.prev_cnt)) m, rw (t, l), put-Closed es o m h, h.prev_id)
