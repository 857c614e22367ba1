-- ===== src/Record/Origin.antt =====
-- The memop log holds nothing but reads that took place, and its end mark.
use mathlib.Core.List.{Memᴰ}
use mathlib.Core.List.Memᴰ as MemD
use mem_order.Base.{
  Bool-cases, ℤ-cases, ◌==◌, ℕ, ◌+◌, ◌≡◌, refl, List, [], ◌∷◌, arith, zero, suc, ap, ◌∙◌, ◌⊎◌, inl,
  inr, some, get_elem?, subst,
}
use mem_order.Mem.{WaitMemop}
use mem_order.Trace.{rd, Access, access}
use mem_order.Record.{Recorder, note_access, mem_init_thr, record_thread}
use mem_order.Record.Emit.{
  memop_entry, memop_entries, read_entry, last_after, memop-note_access, last-note_access,
}
use mem_order.Record.Pending.{finish_entries, pending_memops, memop_end, memops-record_thread}
use mem_order.Record.Reads.{last_read, read_log}

-- The entry is for one of the reads in `all`.
abbrev pub LogsRead : List Access → WaitMemop → Type 0
LogsRead all e =
    (o : ℕ) × (v : ℕ) × (k : ℕ) × (e ≡ read_log o v k) × (get_elem? all k ≡ some (access rd o v))

abbrev KnownReads : List Access → Recorder → Type 0
KnownReads all r = (o v k : ℕ) → r.last o ≡ last_read v k → get_elem? all k ≡ some (access rd o v)

read_entry-LogsRead :
    (all : List Access) (r : Recorder) (o : ℕ) {e : WaitMemop}
    → KnownReads all r
    → Memᴰ e (read_entry o (r.last o))
    → LogsRead all e
unfolding read_entry
read_entry-LogsRead all r o known m = elim (ℤ-cases (r.last o).memop) [
  | inl (k, p) ↦
      let entries : read_entry o (r.last o) ≡ memop_entry o (r.last o) ∷ [] = ground arith in
      let is_read : r.last o ≡ last_read (r.last o).version k = ground arith in
      (
        o,
        (r.last o).version,
        k,
        MemD.eq_of_singleton (rw entries at m) ∙ ap (memop_entry o) is_read,
        known o (r.last o).version k is_read,
      )
  | inr p ↦
      let entries : read_entry o (r.last o) ≡ [] = ground arith in
      absurd (MemD.not-nil (rw entries at m))
]

finish_entries-LogsRead :
    (all : List Access) (r : Recorder) (n i : ℕ) {e : WaitMemop}
    → KnownReads all r
    → Memᴰ e (finish_entries i n r.last)
    → LogsRead all e
unfolding finish_entries
finish_entries-LogsRead all r zero i known m = absurd (MemD.not-nil m)
finish_entries-LogsRead all r (suc n) i known m =
    elim (MemD.append_cases (read_entry i (r.last i)) m) [
      | inl h ↦ read_entry-LogsRead all r i known h
      | inr h ↦ finish_entries-LogsRead all r n (suc i) known h
    ]

KnownReads-note_access :
    (all : List Access) (a : Access) (r : Recorder)
    → get_elem? all r.memop ≡ some a
    → KnownReads all r
    → KnownReads all (note_access a r)
unfolding last_after
KnownReads-note_access all a r here known o v k e =
    ground (arith, last-note_access a r o, known o v k)

memop_entries-LogsRead :
    (all : List Access) (a : Access) (r : Recorder) {e : WaitMemop}
    → KnownReads all r
    → Memᴰ e (memop_entries a r)
    → LogsRead all e
unfolding memop_entries
memop_entries-LogsRead all a r known m = elim (Bool-cases ((r.last a.objid).version == a.version)) [
  | inl same ↦ absurd (MemD.not-nil (rw same at m))
  | inr changed ↦ read_entry-LogsRead all r a.objid known (rw changed at m)
]

-- The accesses `xs` are those of `all` from the recorder's count on.
abbrev Remaining : List Access → List Access → ℕ → Type 0
Remaining all xs n = (j : ℕ) (a : Access) → get_elem? xs j ≡ some a → get_elem? all (n + j) ≡ some a

Remaining-tail :
    (all : List Access) (a : Access) (xs : List Access) (r : Recorder)
    → Remaining all (a ∷ xs) r.memop
    → Remaining all xs (note_access a r).memop
Remaining-tail all a xs r rem j b e =
    subst (λ n. get_elem? all n ≡ some b) (omega (arith, memop-note_access a r)) (rem (suc j) b e)

pending_memops-LogsRead :
    (nobj : ℕ) (all xs : List Access) (r : Recorder) {e : WaitMemop}
    → Remaining all xs r.memop
    → KnownReads all r
    → Memᴰ e (pending_memops nobj xs r)
    → LogsRead all e
unfolding pending_memops
pending_memops-LogsRead nobj all [] r rem known m = finish_entries-LogsRead all r nobj 0 known m
pending_memops-LogsRead nobj all (a ∷ xs) r rem known m =
    elim (MemD.append_cases (memop_entries a r) m) [
      | inl h ↦ memop_entries-LogsRead all a r known h
      | inr h ↦
          pending_memops-LogsRead nobj all xs (note_access a r) (Remaining-tail all a xs r rem)
            (KnownReads-note_access all a r here known) h
    ]
  where
    here : get_elem? all r.memop ≡ some a
    here = subst (λ n. get_elem? all n ≡ some a) (omega arith) (rem 0 a refl)

Remaining-all : (xs : List Access) → Remaining xs xs 0
Remaining-all xs j a p = subst (λ n. get_elem? xs n ≡ some a) (omega arith) p

-- A thread's memop log holds an entry for a read of the thread, with the object and the version
-- that it read, or the end mark.
pub logged-LogsRead :
    (nobj : ℕ) (xs : List Access) (e : WaitMemop)
    → Memᴰ e (record_thread nobj xs).memops
    → LogsRead xs e ⊎ (e ≡ memop_end)
logged-LogsRead nobj xs e m =
    elim (MemD.append_cases (pending_memops nobj xs mem_init_thr) (rw memops-record_thread at m)) [
      | inl h ↦
          inl (pending_memops-LogsRead nobj xs xs mem_init_thr (Remaining-all xs) (λ o v k p. cc) h)
      | inr h ↦ inr (MemD.eq_of_singleton h)
    ]
