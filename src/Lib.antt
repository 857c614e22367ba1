-- ===== src/Lib.antt =====
-- Record and replay of the order of shared-memory accesses.
--
-- The program records, for each thread, enough of the order in which threads access shared objects
-- to repeat a run. Every object has a version that a write raises by 2. While recording, a thread
-- that finds another version than at its last access to an object logs its own access count and
-- the version found (the version log), and its last read at the old version (the memop log). The
-- replayer makes each access wait for its recorded version, and each write wait for the reads of
-- the version that it overwrites.
--
-- Files:
--   Base, Base.*: passed-on library names; lists, integers and updated functions over the native
--     numbers.
--   Mem: the log entries of mem.h.
--   Trace, Trace.Order, Trace.Growing, Trace.Append, Trace.Prefix: the events that the critical
--     sections of mem-record-seqlock.c make atomic (`mem_read`, `mem_write`), the versions that they
--     read, and the order of them that versions give.
--   Atomic: what `mem_read` and `mem_write` of mem-record-seqlock.c and mem-record-rtmseq.c promise,
--     each call in one step, with the log taking of Record. Atomic.History is about the trace and
--     the values of such a run, Atomic.Complete about one that has ended.
--   Seqlock: `mem_read` and `mem_write` of mem-record-seqlock.c and mem-record-rtmseq.c, a step for
--     each access that another thread can see, and the interleavings of all threads.
--     Seqlock.Refines has the relation to Atomic, Seqlock.Step what a step has to keep,
--     Seqlock.Turns, Seqlock.Writes and Seqlock.Run the steps, Seqlock.Noted is about the versions
--     that the threads note.
--   Record: `g_last`, `memop` and the logs of mem-record.c (`mem_init_thr`, `log_order`,
--     `mark_log_end`, `mem_finish_thr`) and the log taking of mem-record-seqlock.c (the ends of
--     `mem_read` and `mem_write`, `note_read` and `note_write` here). Record.Emit gives the entries
--     of one access, Record.Pending those of a thread, Record.Reads and Record.Origin what the
--     memop log covers and what its entries come from.
--   Record.Batch: mem-record-seqbatch.c (`process_1log`, `batch_process_log`, `batch_add_log`,
--     `before_finish_thr`). Record.Batch.Effect gives what one processed access adds,
--     Record.Batch.Same the relation between batched and direct log taking, Record.Batch.Equal and
--     Record.Batch.Traced what follows for the logs, Record.Batch.Room the bound of the queue.
--   Reorder: reorder-memop.cpp (`load_wait_memop_log`, `write_out_memop_log`, `main`), which groups
--     a thread's memop log by object. Reorder.Load is about the lists per object, Reorder.Reads and
--     Reorder.Rising about a recorder's log, Reorder.Sorted about the order, Reorder.Log about
--     `main`.
--   Merge: merge-memop.cpp (`merge_memop`), which merges the threads' logs and writes an index by
--     object, and `load_wait_reader_log` of mem-replay.c as the reader of both. Merge.Queue has the
--     priority queue as an interface. Merge.Pending, Merge.Pop, Merge.Order and Merge.Start are
--     about the entries that wait and the order in which they are taken, Merge.Count, Merge.Skip,
--     Merge.Index, Merge.Opening and Merge.Files about the files that are written, Merge.Slices and
--     Merge.Result about what is loaded from them.
--   Cluster: `mem_read` and `mem_write` of mem-record-rtmcluster.c, with a transaction over a block of
--     calls. Cluster.Run is about the same calls in transactions of their own.
--   Commit.Merge: merge-commit.cpp (`next_ts`, `merge_commit`), which merges the threads' logs of
--     commit times. Commit.Queue and Commit.Times are about the queue and the logs, Commit.Order
--     about the merged log.
--   Commit.Replay: mem-replay-rtmcommit.c (`read_next_thr`, `mem_read`, `mem_write`,
--     `mem_finish_thr`). Commit.Replay.Turns is about the thread whose turn it is.
--   Pipeline, Pipeline.Replayed: `process_log` of test.sh, from the recorder through both tools to
--     the replayer. Pipeline.Recorded: the same from a program that Seqlock runs,
--     Pipeline.Clustered from one that Cluster runs.
--   Racey: racey.c (`mix`, `calc_objid_racey`, `ThreadBody`, the signature of `main`). Racey.Bounds
--     is about the calls of a thread, Racey.Signature about what is printed.
--   Addcnt: addcnt.c (`calc_objid_addcnt`, `access_thr_fn1` to `access_thr_fn4`, `thr_fn`), and
--     `mem_read` and `mem_write` of mem.h without a recorder. Addcnt.Bounds is about the calls of a
--     thread, Addcnt.Alone about a thread that runs alone.
--   Relay: relay.c (`ThreadBody`, `floor` and `ceiling` of `main`). Relay.Turns is about the
--     increments, Relay.Progress about what is left to do.
--   Replay.Defs: mem-replay.c. A thread's place in `mem_read` or `mem_write` is its `pc`; each step
--     makes at most one change that another thread can see. Replay.Logs is the interface to the
--     merged logs, Replay.Waits the version log as the replayer reads it, Replay.Invariant.* the
--     invariant of versions and logs, Replay.Values.* that of the values, Replay.Step and
--     Replay.Start their preservation and their start, Replay.Faithful what follows for a replay.
--     Replay.Done is about the writes that are done and what a write waits for, Replay.Moves about a
--     step that brings a call nearer to its end, Replay.Completes about what is left of a replay.
--   Log: log.c and log.h, a log that is written through a mapping (`new_mapped_log_path`,
--     `next_log_entry`, `enlarge_mapped_log`, `unmap_truncate_log`) and read back
--     (`open_mapped_log_path`, `read_log_entry`, `log_end`). Log.Tell is about the place of an
--     entry in the file, Log.File about the file's bytes, Log.Reread about reading them. The
--     recorder of Record keeps its logs as lists of entries, which these files hold.
--   Tests.*: runs on small inputs.
--
-- Choices:
--   Memory is sequentially consistent: the fences of the source are taken to give the order in
--   which its statements stand. Counters (`version_t` and `memop_t`, 64-bit signed) do not wrap:
--   signed overflow is undefined in C and out of reach of a run. Version entries and counts are
--   natural numbers, and a field that can hold the mark -1 is an integer.
--   A loop that waits is a step that leaves the state as it is, so a replay is any finite list of
--   thread ids and needs no fuel. A failed assertion, a mutex found held and a read past a log are
--   the place `aborted`.
--   A transaction that commits is one step, and one that aborts leaves no trace but that the call
--   goes on with the seqlock. A flag in the schedule tells whether the hardware, or another thread's
--   access, aborts it. A lock is a flag of the object, taken in one step; its holder alone raises
--   the version by 1, so that `info->version++` is one step.
--   In batched log taking, a thread's logs are a function of the accesses that it has noted, of which
--   it keeps a list. The same functions model mem-record-seqbatch.c and mem-record-rtmcluster.c, whose
--   queues differ in their size.
--   The replayed program is a parameter: a thread's next call is a function of the number of its
--   calls and of the values that it has read.
--   A recorded run is complete: there is an access wherever the program issues one.
--   In relay.c `step++` is a load and a store, and every test of a loop reads `step` again.
--   A call of a test program is a function of the values read so far; the numbers of rounds
--   (`MAX_LOOP`, `NITER`) are arguments, of which the sources' values are instances. A test program
--   computes in 32-bit words with their wrap-around written out.
--   All threads are started before one waits for another, as the barrier of the test programs has
--   it, so `memop_cnt` is set.
--   The priority queue of the C++ library is a parameter (`LogQueue`, `CommitQueue`). Its laws say
--   that it gives out a least entry and keeps the others; which of several least entries it gives
--   out is left open, as the library's documentation does. `merge_memop` and `merge_commit` run on
--   as much fuel as the logs have entries: each round takes one.
--   In mem-replay-rtmcommit.c, `g_sim_bbcnt` does not overflow.
--   A thread id is a natural number. `tid_t` is an `int8_t`: the tools' conversion of the number of
--   threads to it (`tid_of`) and the assertion on the result are modelled, and what is said of the
--   tools is for at most 127 threads, whose ids are `tid_t`s.
--   A negative object, version or count in a log, other than the mark -1, is refused by the model
--   of reorder-memop.cpp; no recorder writes one. An int (index and counts of merge-memop.cpp) does
--   not overflow.
--   The address that `mmap` gives is an argument, page-aligned in the theorems; system calls that
--   fail end the program and are left out. The buffer is the 4096 bytes of log.h.
--
-- Not modelled: mem-record-rtmcommit.c, the recorder of commit orders, whose commit times the merging
-- tool takes as given; the inference tools, the code of the locks, clocks and debug output; of the
-- test programs, core binding, start barriers and printing.
pub mod Base
pub mod Mem
pub mod Trace
pub mod Record
pub mod Reorder
pub mod Merge
pub mod Pipeline
pub mod Replay
pub mod Log
pub mod Atomic
pub mod Seqlock
pub mod Cluster
pub mod Commit
pub mod Racey
pub mod Addcnt
pub mod Relay
mod Tests
