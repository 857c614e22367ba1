-- ===== src/Reorder/Log.antt =====
-- reorder-memop.cpp: `main` on a recorder's log.
use mathlib.Core.List.{Memᴰ}
use mathlib.Core.List.Memᴰ as MemD
use mem_order.Base.{
  ℕ, ◌<◌, ◌==◌, ◌≡◌, List, [], ◌∷◌, ◌++◌, map, some, get_elem?, arith, refl, sym, inl, inr, subst,
  false,
}
use mem_order.Mem.{WaitMemop}
use mem_order.Trace.{Op, Access, access}
use mem_order.Trace.Growing.{Ordered}
use mem_order.Record.{mem_init_thr, record_thread}
use mem_order.Record.Pending.{memop_end}
use mem_order.Reorder.{SortedMemop, write_out_memop_log, reorder_memop}
use mem_order.Reorder.Load.{entry_of, of_object, InRange, load_wait_memop_log-of_object}
use mem_order.Reorder.Reads.{pending_reads, memops-pending_reads}
use mem_order.Reorder.Rising.{Rises, pending_reads-Rises, pending_reads-InRange}
use mem_order.Reorder.Sorted.{
  Sorted, Grouped, of_object-mem, mem-of_object, of_object-Rises, write_out_memop_log-mem,
  mem-write_out_memop_log, write_out_memop_log-Sorted,
}

-- The reads of a log, sorted.
pub record Reordered (log : List WaitMemop) (out : List SortedMemop) : Type 0 where
  pub sorted : Sorted out
  pub from_log : (w : SortedMemop) → Memᴰ w out → Memᴰ (entry_of w) log
  pub to_out : (w : SortedMemop) → Memᴰ (entry_of w) log → Memᴰ w out

entry_of-mem :
    (ws : List SortedMemop) {w : SortedMemop}
    → Memᴰ (entry_of w) (map entry_of ws ++ (memop_end ∷ []))
    → Memᴰ w ws
entry_of-mem [] m = absurd (let e = MemD.eq_of_singleton m in cc)
entry_of-mem (v ∷ ws) {w} m = elim (MemD.cases_cons m) [
  | inl e ↦ let q : w ≡ v = cc in Memᴰ.head q
  | inr h ↦ Memᴰ.tail (entry_of-mem ws h)
]

module _ (nobj : ℕ) (ws : List SortedMemop) (all : ℕ → List SortedMemop)
    (same : (o : ℕ) → all o ≡ of_object o ws) where
  of_object-Grouped : Rises ws → Grouped all
  of_object-Grouped r = record {
    own = λ o x m. (of_object-mem o ws (subst (λ l. Memᴰ x l) (same o) m)).1;
    rises = λ o. subst (λ l. Rises l) (sym (same o)) (of_object-Rises o ws r);
  }

  written-Reordered :
      InRange nobj ws
      → Rises ws
      → Reordered (map entry_of ws ++ (memop_end ∷ [])) (write_out_memop_log 0 nobj all)
  written-Reordered lt r =
      let g = of_object-Grouped r in
      record {
        sorted = write_out_memop_log-Sorted all g 0 nobj;
        from_log = λ w m.
            let h = (write_out_memop_log-mem all g 0 nobj m).1 in
            MemD.append_left (memop_end ∷ []) (
              MemD.map entry_of
                (of_object-mem w.objid ws (subst (λ l. Memᴰ w l) (same w.objid) h)).0);
        to_out = λ w m.
            let h = entry_of-mem ws m in
            mem-write_out_memop_log all g 0 nobj (omega arith) (omega (arith, lt w h))
              (subst (λ l. Memᴰ w l) (sym (same w.objid)) (mem-of_object ws h));
      }

reorder_memop-Reordered :
    (nobj : ℕ) (ws : List SortedMemop)
    → InRange nobj ws
    → Rises ws
    → (out : List SortedMemop) × (reorder_memop nobj (map entry_of ws ++ (memop_end ∷ []))
        ≡ some out)
      × Reordered (map entry_of ws ++ (memop_end ∷ [])) out
unfolding reorder_memop
reorder_memop-Reordered nobj [] lt r = (
  [],
  refl,
  record {
    sorted = tt;
    from_log = λ w m. absurd (MemD.not-nil m);
    to_out = λ w m. entry_of-mem [] m;
  },
)
reorder_memop-Reordered nobj (w ∷ ws) lt r =
    let (b, e, h, n) =
      load_wait_memop_log-of_object nobj (w ∷ ws) (record { all = λ _. []; total = 0 }) lt in
    let some_entry : (b.total == 0) ≡ false = ground (arith, n) in
    (
      write_out_memop_log 0 nobj b.all,
      rw (e, reorder_memop, some_entry),
      written-Reordered nobj (w ∷ ws) b.all h lt r,
    )

-- A thread's log, its objects below `nobj` and its accesses in the order of a trace, is reordered
-- without a failed check: the new log is sorted by object and version, and its entries are the
-- reads of the log.
pub reorder_memop-record_thread :
    (nobj : ℕ) (xs : List Access)
    → ((k : ℕ) (op : Op) (o v : ℕ) → get_elem? xs k ≡ some (access op o v) → o < nobj)
    → Ordered xs
    → (out : List SortedMemop) × (reorder_memop nobj (record_thread nobj xs).memops ≡ some out)
      × Reordered (record_thread nobj xs).memops out
reorder_memop-record_thread nobj xs lt ord =
    subst (λ l. (out : List SortedMemop) × (reorder_memop nobj l ≡ some out) × Reordered l out)
      (sym (memops-pending_reads nobj xs))
      (reorder_memop-Reordered nobj (pending_reads nobj xs mem_init_thr)
        (pending_reads-InRange nobj xs mem_init_thr lt)
        (pending_reads-Rises nobj xs mem_init_thr ord (λ o k v op e. omega arith)))
