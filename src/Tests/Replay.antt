-- ===== src/Tests/Replay.antt =====
-- mem-replay.c: the example's replay, and the theorems of Replay.Faithful and Replay.Completes at it.

use mem_order.Base.{
  ℕ, zero, suc, ◌≡◌, ◌≢◌, List, [], ◌∷◌, ◌++◌, ◌≤◌, length, some, get_elem?, take, refl, true,
}
use mem_order.Trace.{rd, wr, access, view}
use mem_order.Trace.Order.{recording}
use mem_order.Record.{record_thread, note_access}
use mem_order.Replay.Defs.{aborted, run, mem_init, stored}
use mem_order.Replay.Invariant.Defs.{holds_version}
use mem_order.Replay.Values.{reads_of}
use mem_order.Replay.Start.{replay_start}
use mem_order.Replay.Faithful.{
  reads-replayed, replayed-not_aborted, version-replayed, one_writer, memory-replayed,
}
use mem_order.Replay.Completes.{replay-completes}
use mem_order.Tests.Example.{
  prog-Issues, events, prog, merged, content, schedule, accesses_0, accesses_1, merged_logs,
  bounded, ran,
}
use mem_order.Tests.Idle.{begin, idle, written_prefix, writing_prefix}

-- The replay ends with the values of the recorded run.
replay_ends :
    let s = run prog schedule (replay_start (recording events) 1 merged (λ _. 5)) in
    ((s.thread 0).reads ≡ 5 ∷ []) × ((s.thread 1).reads ≡ 5 ∷ 7 ∷ []) × (s.memory 0 ≡ 7)
unfolding run mem_init record_thread recording view note_access
replay_ends = (refl, refl, refl)

reads-replayed_example :
    ((run prog schedule begin).thread 1).reads
    ≡ reads_of content
        (take ((run prog schedule begin).thread 1).memop ((recording events).accesses 1))
reads-replayed_example = reads-replayed merged_logs bounded ran schedule 1

replayed-not_aborted_example : ((run prog schedule begin).thread 0).pc ≢ aborted
replayed-not_aborted_example = replayed-not_aborted merged_logs bounded ran schedule 0

-- From the middle of the replay.
replay-completes_example :
    (us : List ℕ) × ((t : ℕ)
      → let s = run prog (written_prefix ++ us) begin in
        (length ((recording events).accesses t) ≤ (s.thread t).memop)
        × ((s.thread t).reads ≡ reads_of content ((recording events).accesses t)))
replay-completes_example =
    replay-completes events merged_logs bounded ran prog-Issues written_prefix

-- The object stands at version 2 when thread 1 reads it again.
at_second_read :
    (((run prog written_prefix begin).thread 1).memop ≡ 1)
    × (holds_version ((run prog written_prefix begin).thread 1).pc ≡ true)
unfolding run mem_init record_thread recording view note_access
at_second_read = (refl, refl)

second_read :
    get_elem? ((recording events).accesses 1) ((run prog written_prefix begin).thread 1).memop
    ≡ some (access rd 0 2)
second_read = rw (at_second_read.0, accesses_1)

version-replayed_example : (run prog written_prefix begin).obj_version 0 ≡ 2
version-replayed_example =
    version-replayed merged_logs bounded ran written_prefix 1 0 2 rd second_read at_second_read.1

in_write :
    (((run prog writing_prefix begin).thread 0).memop ≡ 1)
    × (holds_version ((run prog writing_prefix begin).thread 0).pc ≡ true)
unfolding run mem_init record_thread recording view note_access
in_write = (refl, refl)

first_write :
    get_elem? ((recording events).accesses 0) ((run prog writing_prefix begin).thread 0).memop
    ≡ some (access wr 0 0)
first_write = rw (in_write.0, accesses_0)

one_writer_example : ◌≡◌ {A = ℕ} 0 0
one_writer_example =
    one_writer merged_logs bounded ran writing_prefix 0 0 0 0 0 first_write first_write in_write.1
      in_write.1

none_stores : (t : ℕ) → ((run prog written_prefix begin).thread t).pc ≢ stored
unfolding run mem_init record_thread recording view note_access
none_stores zero q = cc
none_stores (suc zero) q = cc
none_stores (suc (suc t)) q = let e = idle written_prefix t refl in cc

memory-replayed_example :
    (run prog written_prefix begin).memory 0
    ≡ content 0 ((run prog written_prefix begin).obj_version 0)
memory-replayed_example = memory-replayed merged_logs bounded ran written_prefix none_stores 0
