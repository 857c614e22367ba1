-- ===== src/Tests/Recorded.antt =====
-- mem-record-rtmseq.c and mem-record-seqlock.c on the program of the example.
use mem_order.Base.{ℕ, ◌<◌, ◌≡◌, Bool, true, false, List, [], ◌∷◌, refl, ap, get_elem?}
use mem_order.Record.{note_read, note_write}
use mem_order.Atomic.{finish_read, finish_write, atomic_run, atomic_start}
use mem_order.Seqlock.{seqlock, rtmseq, run_recorders, start_recorders}
use mem_order.Seqlock.Refines.{Refines}
use mem_order.Seqlock.Run.{run_recorders-Refines}
use mem_order.Seqlock.Noted.{run_recorders-write_once, run_recorders-read_first}
use mem_order.Trace.{rd, wr, access}
use mem_order.Cluster.Run.{run_cluster-run_recorders}
use mem_order.Cluster.{run_cluster}
use mem_order.Tests.Example.{prog}

-- Thread 0 reads in a transaction and thread 1 with the seqlock. While thread 0 writes with the
-- lock, the transaction of thread 1 finds an odd version, and its seqlock waits.
abbrev schedule : List (ℕ × Bool)
schedule =
    (0, true)
    ∷ (1, false)
    ∷ (1, false)
    ∷ (1, false)
    ∷ (1, false)
    ∷ (0, false)
    ∷ (0, false)
    ∷ (0, false)
    ∷ (0, false)
    ∷ (1, true)
    ∷ (0, false)
    ∷ (1, false)
    ∷ (0, false)
    ∷ (0, false)
    ∷ (1, false)
    ∷ (1, false)
    ∷ (1, false)
    ∷ []

reads_recorded :
    let s = run_recorders rtmseq prog schedule (start_recorders (λ _. 5)) in
    ((s.client 0).reads ≡ 5 ∷ []) × ((s.client 1).reads ≡ 5 ∷ 7 ∷ []) × (s.version 0 ≡ 2)
unfolding run_recorders finish_read note_read finish_write note_write
reads_recorded = (refl, refl, refl)

run_recorders-Refines_example :
    (us : List ℕ) × Refines prog
      (run_recorders seqlock prog schedule (start_recorders (λ _. 5)))
      (atomic_run prog us (atomic_start (λ _. 5)))
run_recorders-Refines_example = run_recorders-Refines seqlock prog schedule (λ _. 5)

-- Thread 0 has noted a read and a write.
noted_0 :
    ((run_recorders rtmseq prog schedule (start_recorders (λ _. 5))).client 0).noted
    ≡ access rd 0 0 ∷ access wr 0 0 ∷ []
unfolding run_recorders finish_read note_read finish_write note_write
noted_0 = refl

run_recorders-write_once_example : ◌≡◌ {A = ℕ} 0 0 × ◌≡◌ {A = ℕ} 1 1
run_recorders-write_once_example =
    run_recorders-write_once rtmseq prog schedule (λ _. 5) 0 0 1 1 0 0
      (ap (λ l. get_elem? l 1) noted_0) (ap (λ l. get_elem? l 1) noted_0)

run_recorders-read_first_example : 0 < 1
run_recorders-read_first_example =
    run_recorders-read_first rtmseq prog schedule (λ _. 5) 0 1 0 0 0
      (ap (λ l. get_elem? l 1) noted_0) (ap (λ l. get_elem? l 0) noted_0)

-- The same calls in mem-record-seqbatch.c.
abbrev calls : List (ℕ × Bool)
calls =
    (0, false)
    ∷ (0, false)
    ∷ (0, false)
    ∷ (0, false)
    ∷ (1, false)
    ∷ (1, false)
    ∷ (1, false)
    ∷ (1, false)
    ∷ (0, false)
    ∷ (0, false)
    ∷ (0, false)
    ∷ (0, false)
    ∷ (0, false)
    ∷ (0, false)
    ∷ (0, false)
    ∷ (1, false)
    ∷ (1, false)
    ∷ (1, false)
    ∷ (1, false)
    ∷ []

-- Thread 1 enters the seqlock, thread 0 makes its calls in one transaction, and thread 1 goes on.
abbrev blocks : List (ℕ × Bool)
blocks =
    (1, false)
    ∷ (1, false)
    ∷ (0, true)
    ∷ (1, false)
    ∷ (1, false)
    ∷ (1, false)
    ∷ (1, false)
    ∷ (1, false)
    ∷ (1, true)
    ∷ (1, false)
    ∷ (1, false)
    ∷ (1, false)
    ∷ []

run_cluster-run_recorders_example :
    (us : List (ℕ × Bool)) × (run_recorders rtmseq prog us (start_recorders (λ _. 5))
      ≡ run_cluster prog blocks (start_recorders (λ _. 5)))
run_cluster-run_recorders_example = run_cluster-run_recorders prog blocks (start_recorders (λ _. 5))
