-- ===== src/Reorder/Reads.antt =====
-- mem-record.c, for reorder-memop.cpp: the entries of a recorder's memop log as reads.
use mathlib.Core.List.{Memᴰ, map-append}
use mathlib.Core.List.Memᴰ as MemD
use mem_order.Base.{
  ℕ, zero, suc, ◌+◌, ◌<◌, ◌≤◌, ◌==◌, ◌≡◌, if◌then◌else◌, List, [], ◌∷◌, ◌++◌, map, ℤ, pos, negsuc,
  arith, refl, sym, ap, ◌∙◌, Bool-cases, inl, inr, ◌⊎◌, ℤ-cases,
}
use mem_order.Trace.{Access}
use mem_order.Record.{LastObjinfo, Recorder, note_access, mem_init_thr, record_thread}
use mem_order.Record.Emit.{memop_entries, read_entry}
use mem_order.Record.Pending.{finish_entries, pending_memops, memop_end, memops-record_thread}
use mem_order.Reorder.{SortedMemop}
use mem_order.Reorder.Load.{entry_of}

-- The last read of an object, if there was one.
abbrev pub logged_read : ℕ → ℕ → ℤ → List SortedMemop
logged_read o v (pos k) = record { objid = o; version = v; memop = k } ∷ []
logged_read o v (negsuc k) = []

abbrev pub last_reads : ℕ → LastObjinfo → List SortedMemop
last_reads o l = logged_read o l.version l.memop

unfoldable pub access_reads : Access → Recorder → List SortedMemop
access_reads a r =
    let l = r.last a.objid in if l.version == a.version then [] else last_reads a.objid l

unfoldable pub finish_reads : ℕ → ℕ → (ℕ → LastObjinfo) → List SortedMemop
finish_reads i zero last = []
finish_reads i (suc n) last = last_reads i (last i) ++ finish_reads (suc i) n last

-- The reads that the rest of a run logs.
unfoldable pub pending_reads : ℕ → List Access → Recorder → List SortedMemop
pending_reads nobj [] r = finish_reads 0 nobj r.last
pending_reads nobj (a ∷ xs) r = access_reads a r ++ pending_reads nobj xs (note_access a r)

last_reads-map : (o : ℕ) (l : LastObjinfo) → map entry_of (last_reads o l) ≡ read_entry o l
unfolding read_entry
last_reads-map o l = ground arith

access_reads-map : (a : Access) (r : Recorder) → map entry_of (access_reads a r) ≡ memop_entries a r
unfolding access_reads memop_entries
access_reads-map a r = elim (Bool-cases ((r.last a.objid).version == a.version)) [
  | inl e ↦ rw e
  | inr e ↦ rw e (last_reads-map a.objid (r.last a.objid))
]

finish_reads-map :
    (i n : ℕ) (last : ℕ → LastObjinfo)
    → map entry_of (finish_reads i n last) ≡ finish_entries i n last
unfolding finish_reads finish_entries
finish_reads-map i zero last = refl
finish_reads-map i (suc n) last = simp (map-append, last_reads-map, finish_reads-map (suc i) n last)

pending_reads-map :
    (nobj : ℕ) (xs : List Access) (r : Recorder)
    → map entry_of (pending_reads nobj xs r) ≡ pending_memops nobj xs r
unfolding pending_reads pending_memops
pending_reads-map nobj [] r = finish_reads-map 0 nobj r.last
pending_reads-map nobj (a ∷ xs) r =
    simp (map-append, access_reads-map, pending_reads-map nobj xs (note_access a r))

-- What a last read, if any, is.
pub last_reads-cases :
    (o : ℕ) (l : LastObjinfo)
    → (last_reads o l ≡ [])
      ⊎ ((k : ℕ) × (last_reads o l ≡ record { objid = o; version = l.version; memop = k } ∷ []))
last_reads-cases o l = elim (ℤ-cases l.memop) [
  | inl (k, e) ↦ inr (k, ap (logged_read o l.version) e)
  | inr neg ↦ inl (ground arith)
]

pub access_reads-cases :
    (a : Access) (r : Recorder)
    → (access_reads a r ≡ [])
      ⊎ ((k : ℕ) × (access_reads a r
            ≡ record { objid = a.objid; version = (r.last a.objid).version; memop = k } ∷ []))
unfolding access_reads
access_reads-cases a r = elim (Bool-cases ((r.last a.objid).version == a.version)) [
  | inl e ↦ inl (rw e)
  | inr e ↦ rw e (last_reads-cases a.objid (r.last a.objid))
]

-- A recorder's memop log is the reads that it logs, and the end mark.
pub memops-pending_reads :
    (nobj : ℕ) (xs : List Access)
    → (record_thread nobj xs).memops
      ≡ map entry_of (pending_reads nobj xs mem_init_thr) ++ (memop_end ∷ [])
memops-pending_reads nobj xs =
    memops-record_thread nobj xs
    ∙ ap (λ l. l ++ (memop_end ∷ [])) (sym (pending_reads-map nobj xs mem_init_thr))

-- The reads of `mem_finish_thr` have their object's place and last version.
pub finish_reads-mem :
    (i n : ℕ) (last : ℕ → LastObjinfo) {x : SortedMemop}
    → Memᴰ x (finish_reads i n last)
    → (i ≤ x.objid) × (x.objid < i + n) × (x.version ≡ (last x.objid).version)
unfolding finish_reads
finish_reads-mem i zero last m = absurd (MemD.not-nil m)
finish_reads-mem i (suc n) last {x} m = elim (MemD.append_cases (last_reads i (last i)) m) [
  | inl h ↦ elim (last_reads-cases i (last i)) [
    | inl e ↦ absurd (MemD.not-nil (rw e at h))
    | inr (k, e) ↦
        let q : x ≡ record { objid = i; version = (last i).version; memop = k } =
          MemD.eq_of_singleton (rw e at h) in
        rw q (omega arith, omega arith, refl)
  ]
  | inr h ↦
      let (lo, hi, e) = finish_reads-mem (suc i) n last h in
      (omega (arith, lo), omega (arith, hi), e)
]
