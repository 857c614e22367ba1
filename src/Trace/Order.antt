-- ===== src/Trace/Order.antt =====
-- What the order of a trace gives each pair of accesses: versions are even, two writes never read
-- the same version of an object, and a thread's read precedes its write at the same version.
use mem_order.Base.{
  ℕ, zero, suc, ◌%◌, ◌≤◌, ◌<◌, ◌==◌, ◌≡◌, refl, List, [], ◌∷◌, some, get_elem?, if◌then◌else◌,
  arith, Bool-cases, inl, inr, ◌⊎◌,
}
use mem_order.Trace.{Op, rd, wr, Event, Access, access, advance, view}

-- A recorded run: each thread's accesses with the versions that they read.
pub record Recording : Type 0 where
  pub accesses : ℕ → List Access
  pub even :
      (t m : ℕ) (op : Op) (o v : ℕ) → get_elem? (accesses t) m ≡ some (access op o v) → v % 2 ≡ 0
  pub write_once :
      (t u m k o v : ℕ)
      → get_elem? (accesses t) m ≡ some (access wr o v)
      → get_elem? (accesses u) k ≡ some (access wr o v)
      → (t ≡ u) × (m ≡ k)
  pub read_first :
      (t m k o v : ℕ)
      → get_elem? (accesses t) m ≡ some (access wr o v)
      → get_elem? (accesses t) k ≡ some (access rd o v)
      → k < m

module _ (t : ℕ) (ver : ℕ → ℕ) (e : Event) (es : List Event) where
  -- The place of the rest's access `k` in the whole view.
  abbrev pub place : ℕ → ℕ
  place k = if e.tid == t then suc k else k

  -- An access of the view is the first event's, or one of the rest.
  pub view-cases :
      (m : ℕ) {a : Access}
      → get_elem? (view t ver (e ∷ es)) m ≡ some a
      → ((e.tid ≡ t) × (m ≡ 0) × (a ≡ access e.op e.objid (ver e.objid)))
        ⊎ ((k : ℕ) × (m ≡ place k) × (get_elem? (view t (advance ver e) es) k ≡ some a))
  unfolding view
  view-cases zero h = elim (Bool-cases (e.tid == t)) [
    | inl own ↦ inl (ground arith, refl, ground arith)
    | inr other ↦ inr (0, ground arith, ground arith)
  ]
  view-cases (suc m) h = elim (Bool-cases (e.tid == t)) [
    | inl own ↦ inr (m, ground arith, ground arith)
    | inr other ↦ inr (suc m, ground arith, ground arith)
  ]

-- An access of the rest reads at least the present version.
pub view-ge :
    (t : ℕ) (ver : ℕ → ℕ) (es : List Event) (m : ℕ) {op : Op} {o v : ℕ}
    → get_elem? (view t ver es) m ≡ some (access op o v)
    → ver o ≤ v
unfolding view
view-ge t ver [] m h = ground arith
view-ge t ver (e ∷ es) m {op} {o} {v} h = elim (view-cases t ver e es m h) [
  | inl (own, p, q) ↦ ground arith
  | inr (k, p, q) ↦ let ih : advance ver e o ≤ v = view-ge t (advance ver e) es k q in ground arith
]

pub view-even :
    (t : ℕ) (ver : ℕ → ℕ) (es : List Event) (m : ℕ) {op : Op} {o v : ℕ}
    → ((i : ℕ) → ver i % 2 ≡ 0)
    → get_elem? (view t ver es) m ≡ some (access op o v)
    → v % 2 ≡ 0
unfolding view
view-even t ver [] m even h = ground arith
view-even t ver (e ∷ es) m {op} {o} {v} even h = elim (view-cases t ver e es m h) [
  | inl (own, p, q) ↦ ground (arith, even e.objid)
  | inr (k, p, q) ↦ view-even t (advance ver e) es k (λ i. ground (arith, even i, even e.objid)) q
]

-- No two writes of a trace, by one thread or by two, read the same version of an object.
pub view-write_once :
    (t u : ℕ) (ver : ℕ → ℕ) (es : List Event) (m k o v : ℕ)
    → get_elem? (view t ver es) m ≡ some (access wr o v)
    → get_elem? (view u ver es) k ≡ some (access wr o v)
    → (t ≡ u) × (m ≡ k)
unfolding view
view-write_once t u ver [] m k o v h g = ground arith
view-write_once t u ver (e ∷ es) m k o v h g = elim (view-cases t ver e es m h) [
  | inl (own, p, q) ↦ elim (view-cases u ver e es k g) [
    | inl (own', p', q') ↦ ground arith
    | inr (k', p', q') ↦
        let later : advance ver e o ≤ v = view-ge u (advance ver e) es k' q' in ground arith
  ]
  | inr (m', p, q) ↦ elim (view-cases u ver e es k g) [
    | inl (own', p', q') ↦
        let later : advance ver e o ≤ v = view-ge t (advance ver e) es m' q in ground arith
    | inr (k', p', q') ↦
        let ih = view-write_once t u (advance ver e) es m' k' o v q q' in ground arith
  ]
]

-- A read and a write of one object by one thread that see the same version stand in that order:
-- the read is the earlier access.
pub view-read_first :
    (t : ℕ) (ver : ℕ → ℕ) (es : List Event) (m k o v : ℕ)
    → get_elem? (view t ver es) m ≡ some (access wr o v)
    → get_elem? (view t ver es) k ≡ some (access rd o v)
    → k < m
unfolding view
view-read_first t ver [] m k o v h g = ground arith
view-read_first t ver (e ∷ es) m k o v h g = elim (view-cases t ver e es m h) [
  | inl (own, p, q) ↦ elim (view-cases t ver e es k g) [
    | inl (own', p', q') ↦ ground arith
    | inr (k', p', q') ↦
        let later : advance ver e o ≤ v = view-ge t (advance ver e) es k' q' in ground arith
  ]
  | inr (m', p, q) ↦ elim (view-cases t ver e es k g) [
    | inl (own', p', q') ↦ ground arith
    | inr (k', p', q') ↦
        let ih = view-read_first t (advance ver e) es m' k' o v q q' in ground arith
  ]
]

-- Every trace, from objects at version 0, is a recorded run.
unfoldable pub recording : List Event → Recording
recording es = record {
  accesses = λ t. view t (λ _. 0) es;
  even = λ t m op o v. view-even t (λ _. 0) es m (λ i. refl);
  write_once = λ t u m k o v. view-write_once t u (λ _. 0) es m k o v;
  read_first = λ t m k o v. view-read_first t (λ _. 0) es m k o v;
}
