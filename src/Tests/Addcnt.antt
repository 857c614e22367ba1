-- ===== src/Tests/Addcnt.antt =====
-- addcnt.c: calls of its threads, and counters after some rounds.
use mem_order.Base.{◌≡◌, ◌<◌, [], get_elem?, some, refl, arith, pos, ◌+◌, ◌*◌}
use mem_order.Replay.Defs.{read, objid}
use mem_order.Addcnt.{
  nobjs, access_thr_fn1, access_thr_fn2, add_counts, run_alone, thr_fn, thr_fn_index,
  calc_objid_addcnt,
}
use mem_order.Addcnt.Bounds.{add_counts-objid, calc_objid_addcnt-element}
use mem_order.Addcnt.Alone.{access_thr_fn-run_alone, thr_fn_index-first}

add_counts-objid_example : objid (read 9) < nobjs
unfolding add_counts access_thr_fn2
add_counts-objid_example = add_counts-objid 12 1 8 0 [] (read 9) refl

calc_objid_addcnt-element_example : calc_objid_addcnt 4096 (4096 + 3 * 8 + 4) ≡ pos 3
calc_objid_addcnt-element_example =
    calc_objid_addcnt-element 4096 3 4 (omega arith) (omega arith) (omega arith)

access_thr_fn-run_alone_example :
    (run_alone (access_thr_fn1 3) 0 (λ _. 5) 2 ≡ 8)
    × (run_alone (access_thr_fn2 3) 0 (λ _. 5) 2 ≡ 8)
access_thr_fn-run_alone_example =
    access_thr_fn-run_alone 3 0 (λ _. 5) (λ o lt. omega arith) 2 (omega arith)

thr_fn_index-first_example : get_elem? thr_fn (thr_fn_index 3) ≡ some access_thr_fn1
thr_fn_index-first_example = thr_fn_index-first 3 (omega arith)
