-- ===== src/Reorder/Rising.antt =====
-- mem-record.c, for reorder-memop.cpp: a recorder's logged reads come with rising versions for each
-- object.
use mathlib.Core.List.{Memᴰ}
use mathlib.Core.List.Memᴰ as MemD
use mem_order.Base.{
  ℕ, zero, suc, ◌+◌, ◌<◌, ◌≤◌, ◌≡◌, List, [], ◌∷◌, some, get_elem?, arith, refl, inl, inr, subst,
}
use mem_order.Trace.{Op, Access, access}
use mem_order.Trace.Growing.{FromVersion, Ordered, Ordered-head, Ordered-tail}
use mem_order.Record.{LastObjinfo, Recorder, note_access}
use mem_order.Record.Emit.{last_after, last-note_access}
use mem_order.Reorder.{SortedMemop}
use mem_order.Reorder.Reads.{
  access_reads, access_reads-cases, last_reads-cases, finish_reads, finish_reads-mem, pending_reads,
}
use mem_order.Reorder.Load.{InRange}

-- A later entry for the same object has at least the version.
abbrev pub Rises : List SortedMemop → Type 0
Rises [] = Unit
Rises (w ∷ ws) =
    ((x : SortedMemop) → Memᴰ x ws → x.objid ≡ w.objid → w.version ≤ x.version) × Rises ws

-- The last versions are at most those that are still to come.
abbrev Low : List Access → Recorder → Type 0
Low xs r = (o : ℕ) → FromVersion o (r.last o).version xs

module _ (a : Access) (xs : List Access) (r : Recorder) (ord : Ordered (a ∷ xs))
    (low : Low (a ∷ xs) r) where
  version-note_access : (o : ℕ) → (r.last o).version ≤ ((note_access a r).last o).version
  unfolding last_after
  version-note_access o =
      let here = low a.objid 0 a.version a.op refl in rw (last-note_access a r o) (ground arith)

  note_access-Low : Low xs (note_access a r)
  unfolding last_after
  note_access-Low o k v op e =
      let old = low o (suc k) v op e in
      let new = λ (p : a.objid ≡ o). Ordered-head a xs ord k v op (rw p e) in
      rw (last-note_access a r o) (ground arith)

module _ (nobj : ℕ) where
  -- A logged read has at least the last version.
  pending_reads-ge :
      (xs : List Access) (r : Recorder) {x : SortedMemop}
      → Ordered xs
      → Low xs r
      → Memᴰ x (pending_reads nobj xs r)
      → (r.last x.objid).version ≤ x.version
  unfolding pending_reads
  pending_reads-ge [] r ord low m = let h = finish_reads-mem 0 nobj r.last m in omega (arith, h.2)
  pending_reads-ge (a ∷ xs) r {x} ord low m = elim (MemD.append_cases (access_reads a r) m) [
    | inl h ↦ elim (access_reads-cases a r) [
      | inl e ↦ absurd (MemD.not-nil (rw e at h))
      | inr (k, e) ↦ let q = MemD.eq_of_singleton (rw e at h) in rw q (omega arith)
    ]
    | inr h ↦
        let later =
          pending_reads-ge xs (note_access a r) (Ordered-tail a xs ord)
            (note_access-Low a xs r ord low) h in
        omega (arith, later, version-note_access a xs r ord low x.objid)
  ]

  finish_reads-Rises : (i n : ℕ) (last : ℕ → LastObjinfo) → Rises (finish_reads i n last)
  unfolding finish_reads
  finish_reads-Rises i zero last = tt
  finish_reads-Rises i (suc n) last = elim (last_reads-cases i (last i)) [
    | inl e ↦ rw e (finish_reads-Rises (suc i) n last)
    | inr (k, e) ↦ rw e (
      λ x m q. absurd (let h = finish_reads-mem (suc i) n last m in omega (arith, h.0, q)),
      finish_reads-Rises (suc i) n last,
    )
  ]

  -- The reads that a recorder logs rise.
  pub pending_reads-Rises :
      (xs : List Access) (r : Recorder) → Ordered xs → Low xs r → Rises (pending_reads nobj xs r)
  unfolding pending_reads
  pending_reads-Rises [] r ord low = finish_reads-Rises 0 nobj r.last
  pending_reads-Rises (a ∷ xs) r ord low =
      let rest =
        pending_reads-Rises xs (note_access a r) (Ordered-tail a xs ord)
          (note_access-Low a xs r ord low) in
      elim (access_reads-cases a r) [
        | inl e ↦ rw e rest
        | inr (k, e) ↦ rw e (
          λ x m q.
              subst (λ o. (r.last o).version ≤ x.version) q
                (omega (
                  arith,
                  pending_reads-ge xs (note_access a r) (Ordered-tail a xs ord)
                      (note_access-Low a xs r ord low) m,
                  version-note_access a xs r ord low x.objid,
                )),
          rest,
        )
      ]

-- The reads are of the recording's objects.
finish_reads-InRange :
    (nobj i n : ℕ) (last : ℕ → LastObjinfo) → i + n ≤ nobj → InRange nobj (finish_reads i n last)
finish_reads-InRange nobj i n last le w m =
    let h = finish_reads-mem i n last m in omega (arith, h.1)

pub pending_reads-InRange :
    (nobj : ℕ) (xs : List Access) (r : Recorder)
    → ((k : ℕ) (op : Op) (o v : ℕ) → get_elem? xs k ≡ some (access op o v) → o < nobj)
    → InRange nobj (pending_reads nobj xs r)
unfolding pending_reads
pending_reads-InRange nobj [] r lt w m = finish_reads-InRange nobj 0 nobj r.last (omega arith) w m
pending_reads-InRange nobj (a ∷ xs) r lt w m = elim (MemD.append_cases (access_reads a r) m) [
  | inl h ↦ elim (access_reads-cases a r) [
    | inl e ↦ absurd (MemD.not-nil (rw e at h))
    | inr (k, e) ↦
        let q = MemD.eq_of_singleton (rw e at h) in rw q (lt 0 a.op a.objid a.version refl)
  ]
  | inr h ↦ pending_reads-InRange nobj xs (note_access a r) (λ k op o v e. lt (suc k) op o v e) w h
]
