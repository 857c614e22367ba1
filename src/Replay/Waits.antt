-- ===== src/Replay/Waits.antt =====
-- mem-replay.c: the version log that a thread has before it, as the entries of the accesses that
-- it has not made yet.

use mem_order.Base.{
  false, subst, ◌⊎◌, eq_ℤ, Bool-cases, inl, inr, ◌==◌, ℕ, zero, suc, ◌+◌, ◌≤◌, ◌<◌, ◌≡◌, refl, List,
  [], ◌∷◌, ◌++◌, pos, minus_one, some, get_elem?, take, drop, drop-get_elem?, arith, ◌∙◌, sym, ap,
  length,
}
use mem_order.Mem.{WaitVersion}
use mem_order.Trace.{Access}
use mem_order.Record.{Recorder, mem_init_thr, note_access, note_all, record_thread}
use mem_order.Record.Emit.{version_entry, version_entries, memop-note_access}
use mem_order.Record.Pending.{pending_versions, version_end, versions-record_thread}
use mem_order.Replay.Defs.{next_wait_version_log}

-- The recorder of a thread with the accesses `xs` after its first `k` accesses.
pub recorded : List Access → ℕ → Recorder
recorded xs k = note_all (take k xs) mem_init_thr

note_all-take :
    (xs : List Access) (k : ℕ) (r : Recorder) {a : Access}
    → get_elem? xs k ≡ some a
    → note_all (take (suc k) xs) r ≡ note_access a (note_all (take k xs) r)
unfolding note_all
note_all-take [] k r h = ground arith
note_all-take (x ∷ xs) zero r h = ground arith
note_all-take (x ∷ xs) (suc k) r h = note_all-take xs k (note_access x r) h

pub recorded-suc :
    (xs : List Access) (k : ℕ) {a : Access}
    → get_elem? xs k ≡ some a
    → recorded xs (suc k) ≡ note_access a (recorded xs k)
unfolding recorded
recorded-suc xs k h = note_all-take xs k mem_init_thr h

memop-note_all-take :
    (xs : List Access) (k : ℕ) (r : Recorder)
    → k ≤ length xs
    → (note_all (take k xs) r).memop ≡ r.memop + k
unfolding note_all
memop-note_all-take xs zero r h = omega arith
memop-note_all-take [] (suc k) r h = absurd (omega arith)
memop-note_all-take (x ∷ xs) (suc k) r h =
    omega (arith, memop-note_all-take xs k (note_access x r), memop-note_access x r)

pub memop-recorded : (xs : List Access) (k : ℕ) → k ≤ length xs → (recorded xs k).memop ≡ k
unfolding recorded
memop-recorded xs k h = omega (arith, memop-note_all-take xs k mem_init_thr h)

-- The entries of the version log from access `k` on.
pub entries_from : List Access → ℕ → List WaitVersion
entries_from xs k = pending_versions (drop k xs) (recorded xs k)

pub entries_from-suc :
    (xs : List Access) (k : ℕ) {a : Access}
    → get_elem? xs k ≡ some a
    → entries_from xs k ≡ version_entries a (recorded xs k) ++ entries_from xs (suc k)
unfolding entries_from pending_versions
entries_from-suc xs k {a} h = rw (drop-get_elem? k xs h, recorded-suc xs k h)

-- The current entry and the rest of the log hold the entries `es`.
abbrev pub Shows : WaitVersion → List WaitVersion → List WaitVersion → Type 0
Shows cur rest [] = (cur.memop ≡ minus_one) × (rest ≡ version_end ∷ [])
Shows cur rest (e ∷ es) = (cur ≡ e) × (rest ≡ es ++ (version_end ∷ []))

-- An entry of the rest of a run is for an access of the rest.
pending_versions-head :
    (xs : List Access) (r : Recorder) {e : WaitVersion} {es : List WaitVersion}
    → pending_versions xs r ≡ e ∷ es
    → (j : ℕ) × (v : ℕ) × (r.memop ≤ j) × (e ≡ version_entry j v)
unfolding pending_versions version_entries
pending_versions-head [] r h = absurd (cc)
pending_versions-head (a ∷ xs) r h = elim (Bool-cases ((r.last a.objid).version == a.version)) [
  | inl same ↦
      let (j, v, le, q) = pending_versions-head xs (note_access a r) (rw same at h) in
      (j, v, omega (arith, memop-note_access a r), q)
  | inr changed ↦ (r.memop, a.version, omega arith, sym (ground arith))
]

pub entries_from-head :
    (xs : List Access) (k : ℕ) {e : WaitVersion} {es : List WaitVersion}
    → k ≤ length xs
    → entries_from xs k ≡ e ∷ es
    → (j : ℕ) × (v : ℕ) × (k ≤ j) × (e ≡ version_entry j v)
unfolding entries_from
entries_from-head xs k le h =
    let (j, v, lt, q) = pending_versions-head (drop k xs) (recorded xs k) h in
    (j, v, omega (arith, memop-recorded xs k), q)

pub next_wait_version_log-Shows :
    (cur : WaitVersion) (rest : List WaitVersion) (es : List WaitVersion)
    → rest ≡ es ++ (version_end ∷ [])
    → ((e : WaitVersion) (es' : List WaitVersion) → es ≡ e ∷ es' → (j : ℕ) × (e.memop ≡ pos j))
    → (wv : WaitVersion) × (rest' : List WaitVersion) × (next_wait_version_log cur rest
        ≡ some (wv, rest'))
      × Shows wv rest' es
next_wait_version_log-Shows cur rest [] h heads =
    (record cur { memop = minus_one }, version_end ∷ [], rw h, (refl, refl))
next_wait_version_log-Shows cur rest (e ∷ es) h heads =
    let (j, q) = heads e es refl in (e, es ++ (version_end ∷ []), rw h (rw q), (refl, refl))

pub get_elem?-lt : (xs : List Access) (k : ℕ) {a : Access} → get_elem? xs k ≡ some a → k < length xs
get_elem?-lt [] k h = ground arith
get_elem?-lt (x ∷ xs) zero h = omega arith
get_elem?-lt (x ∷ xs) (suc k) h = omega (arith, get_elem?-lt xs k h)

-- No entry shown when access `m` is past is for access `m`.
Shows-later :
    (xs : List Access) (m : ℕ) (cur : WaitVersion) (rest : List WaitVersion)
    → suc m ≤ length xs
    → Shows cur rest (entries_from xs (suc m))
    → eq_ℤ (pos m) cur.memop ≡ false
Shows-later xs m cur rest le s = go (entries_from xs (suc m)) refl s
  where
    go :
        (es : List WaitVersion)
        → entries_from xs (suc m) ≡ es
        → Shows cur rest es
        → eq_ℤ (pos m) cur.memop ≡ false
    go [] q sh = ground arith
    go (e ∷ es) q sh = let (j, v, lt, w) = entries_from-head xs (suc m) le q in ground arith

-- At access `m` the thread has an entry to wait for, or its last version is the one that it read.
pub Shows-cases :
    (xs : List Access) (m : ℕ) (cur : WaitVersion) (rest : List WaitVersion) {a : Access}
    → get_elem? xs m ≡ some a
    → Shows cur rest (entries_from xs m)
    → ((eq_ℤ (pos m) cur.memop ≡ false)
        × (((recorded xs m).last a.objid).version ≡ a.version)
        × Shows cur rest (entries_from xs (suc m)))
      ⊎ ((cur ≡ version_entry m a.version) × (rest ≡ entries_from xs (suc m) ++ (version_end ∷ [])))
unfolding version_entries
Shows-cases xs m cur rest {a} h s =
    elim (Bool-cases (((recorded xs m).last a.objid).version == a.version)) [
      | inl same ↦
          let none_here : entries_from xs m ≡ entries_from xs (suc m) =
            entries_from-suc xs m h ∙ rw same in
          let s' : Shows cur rest (entries_from xs (suc m)) = subst (Shows cur rest) none_here s in
          inl (Shows-later xs m cur rest (get_elem?-lt xs m h) s', ground arith, s')
      | inr changed ↦
          let one : entries_from xs m
              ≡ version_entry (recorded xs m).memop a.version ∷ entries_from xs (suc m) =
            entries_from-suc xs m h ∙ rw changed in
          let k : (recorded xs m).memop ≡ m =
            memop-recorded xs m (omega (arith, get_elem?-lt xs m h)) in
          let s' = subst (Shows cur rest) one s in
          inr (s'.0 ∙ ap (λ n. version_entry n a.version) k, s'.1)
    ]

-- The assertion's `next_wait_version_log` finds the entries of the accesses after `m`.
pub next_wait_version_log-entries_from :
    (xs : List Access) (m : ℕ) (cur : WaitVersion) (rest : List WaitVersion)
    → m ≤ length xs
    → rest ≡ entries_from xs m ++ (version_end ∷ [])
    → (wv : WaitVersion) × (rest' : List WaitVersion) × (next_wait_version_log cur rest
        ≡ some (wv, rest'))
      × Shows wv rest' (entries_from xs m)
next_wait_version_log-entries_from xs m cur rest le h =
    next_wait_version_log-Shows cur rest (entries_from xs m) h
      λ e es q. let (j, v, lt, w) = entries_from-head xs m le q in (j, ap (λ x. x.memop) w)

-- Before the first access: the whole log is to come, and no version has been seen.
pub versions-entries_from :
    (nobj : ℕ) (xs : List Access)
    → (record_thread nobj xs).versions ≡ entries_from xs 0 ++ (version_end ∷ [])
unfolding entries_from recorded note_all
versions-entries_from nobj xs = versions-record_thread nobj xs

pub version-recorded_zero : (xs : List Access) (o : ℕ) → ((recorded xs 0).last o).version ≡ 0
unfolding recorded note_all
version-recorded_zero xs o = refl
