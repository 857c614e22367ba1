-- ===== src/Merge/Opening.antt =====
-- merge-memop.cpp: the index when the entries of a new object begin.

use mem_order.Base.{
  ℕ, suc, ◌+◌, ◌-◌, ◌*◌, ◌<◌, ◌≤◌, ◌≡◌, List, [], ◌∷◌, ◌++◌, arith, refl, ◌∙◌, length,
  length-append, subst, sym, pos, update_self, dec_lt,
}
use mem_order.Merge.{QueEnt, MergeFiles, put, skip_objects, next_id, open_object, add_entry}
use mem_order.Merge.Count.{
  count_of, count_below, count_of-append, count_below-append, count_of-AllBelow,
  count_below-AllBelow,
}
use mem_order.Merge.Skip.{Skipped, skip_objects-Skipped}
use mem_order.Merge.Index.{
  Indexed, Closed, Open, Indexed-append, AllBelow-append, add_entry-log, Indexed-same, put-before,
  AllBelow-weaken,
}

-- Objects that are skipped have no entries.
pub Skipped-Indexed :
    (es : List QueEnt) (a n : ℕ) (m m' : MergeFiles)
    → Closed es a m
    → Skipped a n m m'
    → (u : ℕ) → u < a + n
    → Indexed es u m'
Skipped-Indexed es a n m m' h s u lt = elim (dec_lt u a) [
  | yes p ↦ Indexed-same es u m m' (λ i q. s.before i (omega (arith, h.at))) (h.indexed u p)
  | no p ↦
      let none = count_of-AllBelow u es (AllBelow-weaken a u es (omega (arith, p)) h.below) in
      let (x, y) = s.absent u (omega (arith, p)) lt in rw none (x, y)
]

module _ (es : List QueEnt) (a : ℕ) (m : MergeFiles) (e : QueEnt) (h : Closed es a m)
    (n : next_id m.prev_id ≡ a) (le : a ≤ e.wop.objid) where
  abbrev skipped : MergeFiles
  skipped = skip_objects (e.wop.objid - next_id m.prev_id) m

  abbrev opened : MergeFiles
  opened = record (put (pos m.cnt) skipped) { prev_cnt = m.cnt; prev_id = pos e.wop.objid }

  skipped-Skipped : Skipped a (e.wop.objid - a) m skipped
  skipped-Skipped =
      subst (λ b. Skipped a (e.wop.objid - a) m (skip_objects (e.wop.objid - b) m)) (sym n)
        (skip_objects-Skipped a (e.wop.objid - a) m h.at)

  skipped-at : skipped.at ≡ 2 * e.wop.objid
  skipped-at = omega (arith, skipped-Skipped.at, h.at)

  opened-Indexed : (u : ℕ) → u < e.wop.objid → Indexed es u opened
  opened-Indexed u lt =
      Indexed-same es u skipped opened
        (λ i p. put-before (pos m.cnt) skipped i (omega (arith, skipped-at)))
        (Skipped-Indexed es a (e.wop.objid - a) m skipped h skipped-Skipped u (omega arith))

  no_own : count_of e.wop.objid es ≡ 0
  no_own = count_of-AllBelow e.wop.objid es (AllBelow-weaken a e.wop.objid es le h.below)

  all_below : count_below e.wop.objid es ≡ length es
  all_below = count_below-AllBelow e.wop.objid es (AllBelow-weaken a e.wop.objid es le h.below)

  -- The first entry of a new object.
  pub open_object-Open : Open (es ++ (e ∷ [])) e.wop.objid (add_entry e (open_object e.wop.objid m))
  unfolding open_object
  open_object-Open =
      let o = e.wop.objid in
      let c : count_of o (es ++ (e ∷ [])) ≡ 1 =
        let p = no_own in ground (arith, count_of-append o es e) in
      let b : count_below o (es ++ (e ∷ [])) ≡ length es =
        let p = all_below in ground (arith, count_below-append o es e) in
      record {
        log = add_entry-log es opened e (skipped-Skipped.same.0 ∙ h.log);
        cnt = omega (arith, skipped-Skipped.same.1, h.cnt, length-append es (e ∷ []));
        below =
            AllBelow-append (suc o) es e (AllBelow-weaken a (suc o) es (omega (arith, le)) h.below)
              (omega arith);
        at = omega (arith, skipped-at);
        indexed = λ u lt. Indexed-append es u opened e lt (opened-Indexed u lt);
        prev_id = refl;
        own_index = rw (← skipped-at) (update_self skipped.index skipped.at (pos m.cnt));
        prev_cnt = omega (arith, b, h.cnt);
        own_some = omega (arith, skipped-Skipped.same.1);
        own_cnt = omega (arith, skipped-Skipped.same.1, c);
      }
