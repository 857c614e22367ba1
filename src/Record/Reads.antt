-- ===== src/Record/Reads.antt =====
-- Every read is covered by the memop log or by a later write of the same thread to the same
-- version.
use mathlib.Core.List.{Memᴰ}
use mathlib.Core.List.Memᴰ as MemD
use mem_order.Base.{
  ℕ, ◌+◌, ◌≤◌, ◌<◌, ◌≡◌, ◌≢◌, refl, List, [], ◌∷◌, ◌++◌, pos, arith, zero, suc, ◌∙◌, ◌⊎◌, inl, inr,
  some, get_elem?, ℕ_discrete, subst,
}
use mem_order.Mem.{WaitMemop}
use mem_order.Trace.{Op-cases, rd, wr, Access, access}
use mem_order.Record.{LastObjinfo, Recorder, note_access, mem_init_thr, record_thread}
use mem_order.Record.Emit.{
  memop_entry, memop_entries, read_entry, last_after, memop-note_access, last-note_access,
}
use mem_order.Record.Pending.{finish_entries, pending_memops, memop_end, memops-record_thread}

abbrev pub last_read : ℕ → ℕ → LastObjinfo
last_read version memop = record { version = version; memop = pos memop }

-- The log entry for a read of object `o` at version `v`, as the thread's access `k`.
abbrev pub read_log : ℕ → ℕ → ℕ → WaitMemop
read_log o v k = memop_entry o (last_read v k)

-- A read of `o` at `v` by access `k` or a later one is in the log.
abbrev pub LoggedFrom : ℕ → ℕ → ℕ → List WaitMemop → Type 0
LoggedFrom o v k log = (k' : ℕ) × (k ≤ k') × Memᴰ (read_log o v k') log

abbrev pub WritesAt : ℕ → ℕ → List Access → Type 0
WritesAt o v xs = (j : ℕ) × (get_elem? xs j ≡ some (access wr o v))

abbrev pub WritesAfter : ℕ → ℕ → ℕ → List Access → Type 0
WritesAfter k o v xs = (j : ℕ) × (k < j) × (get_elem? xs j ≡ some (access wr o v))

finish_entries-mem :
    (n i o : ℕ) (last : ℕ → LastObjinfo) {v k : ℕ}
    → i ≤ o
    → o < i + n
    → last o ≡ last_read v k
    → Memᴰ (read_log o v k) (finish_entries i n last)
unfolding finish_entries read_entry
finish_entries-mem zero i o last lo hi e = absurd (omega arith)
finish_entries-mem (suc n) i o last {v} {k} lo hi e = elim (ℕ_discrete i o) [
  | yes p ↦ rw (p, e) (Memᴰ.head refl)
  | no p ↦
      MemD.append_right (read_entry i (last i))
        (finish_entries-mem n (suc i) o last (omega arith) (omega arith) e)
]

module _ (nobj o v : ℕ) where
  LoggedFrom-later :
      (k : ℕ) (p : List WaitMemop) {q : List WaitMemop}
      → LoggedFrom o v k q
      → LoggedFrom o v k (p ++ q)
  LoggedFrom-later k p (k', le, m) = (k', le, MemD.append_right p m)

  Covered : ℕ → List Access → Recorder → Type 0
  Covered k xs r = LoggedFrom o v k (pending_memops nobj xs r) ⊎ WritesAt o v xs

  Covered-later :
      (k : ℕ) (a : Access) (xs : List Access) (r : Recorder)
      → Covered k xs (note_access a r)
      → Covered k (a ∷ xs) r
  unfolding Covered pending_memops
  Covered-later k a xs r (inl l) = inl (LoggedFrom-later k (memop_entries a r) l)
  Covered-later k a xs r (inr (j, e)) = inr (suc j, e)

  memop_entries-mem :
      (a : Access) (r : Recorder) {k : ℕ}
      → r.last o ≡ last_read v k
      → a.objid ≡ o
      → a.version ≢ v
      → Memᴰ (read_log o v k) (memop_entries a r)
  unfolding memop_entries read_entry
  memop_entries-mem a r e p q = rw (entries, e) (Memᴰ.head refl)
    where
      entries : memop_entries a r ≡ memop_entry o (r.last o) ∷ []
      entries = ground arith

  -- Once a read of `o` at `v` stands in `g_last`, it is logged or overtaken by a write.
  cover :
      o < nobj
      → (xs : List Access) (r : Recorder) (k k' : ℕ) → r.last o ≡ last_read v k'
      → k ≤ k'
      → k ≤ r.memop
      → Covered k xs r
  unfolding Covered pending_memops last_after
  cover lt [] r k k' e le lm =
      inl (k', le, finish_entries-mem nobj 0 o r.last (omega arith) (omega arith) e)
  cover lt (a ∷ xs) r k k' e le lm = elim (ℕ_discrete a.objid o) [
    | no p ↦ Covered-later k a xs r (
        cover lt xs (note_access a r) k k' (last-note_access a r o ∙ ground arith) le
          (omega (arith, memop-note_access a r)))
    | yes p ↦ elim (ℕ_discrete a.version v) [
      | no q ↦ inl (
        k',
        le,
        MemD.append_left (pending_memops nobj xs (note_access a r)) (memop_entries-mem a r e p q),
      )
      | yes q ↦ elim (Op-cases a.op) [
        | inl is_rd ↦ Covered-later k a xs r (
            cover lt xs (note_access a r) k r.memop (last-note_access a r o ∙ ground arith) lm
              (omega (arith, memop-note_access a r)))
        | inr is_wr ↦ inr (0, ground arith)
      ]
    ]
  ]

  Covered_at :
      o < nobj
      → (xs : List Access) (r : Recorder) (i : ℕ) → get_elem? xs i ≡ some (access rd o v)
      → LoggedFrom o v (r.memop + i) (pending_memops nobj xs r) ⊎ WritesAfter i o v xs
  unfolding pending_memops last_after Covered
  Covered_at lt [] r i e = ground arith
  Covered_at lt (a ∷ xs) r zero e =
      elim (cover lt xs (note_access a r) (r.memop + 0) r.memop
        (last-note_access a r o ∙ ground arith) (omega arith)
        (omega (arith, memop-note_access a r))) [
          | inl l ↦ inl (LoggedFrom-later (r.memop + 0) (memop_entries a r) l)
          | inr (j, w) ↦ inr (suc j, omega arith, w)
        ]
  Covered_at lt (a ∷ xs) r (suc i) e = elim (Covered_at lt xs (note_access a r) i e) [
    | inl l ↦ inl (
        subst (λ n. LoggedFrom o v n (pending_memops nobj (a ∷ xs) r))
          (omega (arith, memop-note_access a r))
          (LoggedFrom-later ((note_access a r).memop + i) (memop_entries a r) l))
    | inr (j, h, w) ↦ inr (suc j, omega arith, w)
  ]

  -- A read of `o` at `v`, `o` one of the `nobj` objects, is in the thread's memop log, itself or
  -- through a later read of `o` at `v`, unless the thread itself writes `o` at `v` later.
  pub read-logged :
      o < nobj
      → (xs : List Access) (k : ℕ) → get_elem? xs k ≡ some (access rd o v)
      → LoggedFrom o v k (record_thread nobj xs).memops ⊎ WritesAfter k o v xs
  read-logged lt xs k e =
      rw (memops-record_thread nobj xs) (elim (Covered_at lt xs mem_init_thr k e) [
        | inl (k', le, m) ↦ inl (k', omega arith, MemD.append_left (memop_end ∷ []) m)
        | inr w ↦ inr w
      ])
