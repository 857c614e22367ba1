-- ===== src/Seqlock.antt =====
-- mem-record-seqlock.c and mem-record-rtmseq.c: `mem_read` and `mem_write` of all threads,
-- interleaved.
pub mod Refines
pub mod Step
pub mod Turns
pub mod Writes
pub mod Run
pub mod Noted
use mem_order.Base.{
  ℕ, ◌+◌, ◌%◌, ◌==◌, if◌then◌else◌, Bool, true, false, List, [], ◌∷◌, none, some, Option, update,
}
use mem_order.Replay.Defs.{Call, read, write, Program}
use mem_order.Atomic.{Client, new_client, finish_read, finish_write, issue}

-- Where a thread stands, with what it holds in local variables.
pub data RecordPc : Type 0 where
  outside : RecordPc  -- before the next call
  reading : ℕ → RecordPc  -- in `mem_read` of an object, before the version is read
  version_read : ℕ → ℕ → RecordPc  -- after the loop on an odd version
  value_read : ℕ → ℕ → ℕ → RecordPc  -- before the version is compared
  locking : ℕ → ℕ → RecordPc  -- in `mem_write` of a value to an object, at `spin_lock`
  locked : ℕ → ℕ → RecordPc  -- before the version is read
  write_version : ℕ → ℕ → ℕ → RecordPc  -- before the first `info->version++`
  odd_version : ℕ → ℕ → ℕ → RecordPc  -- before the store to `*addr`
  stored : ℕ → ℕ → ℕ → RecordPc  -- before the second `info->version++`
  unlocking : ℕ → ℕ → ℕ → RecordPc  -- before `spin_unlock`

-- `g_objinfo`, the memory and the threads.
pub record RecordState : Type 0 where
  pub version : ℕ → ℕ
  pub write_lock : ℕ → Bool
  pub memory : ℕ → ℕ
  pub client : ℕ → Client
  pub pc : ℕ → RecordPc

abbrev pub set_pc : ℕ → RecordPc → RecordState → RecordState
set_pc t p s = record s { pc = update s.pc t p }

-- The thread-local end of a call.
abbrev pub return_call : ℕ → Client → RecordState → RecordState
return_call t c s = record (set_pc t outside s) { client = update s.client t c }

-- The seqlock: a step of a call that is under way.
unfoldable pub seqlock_turn : ℕ → RecordPc → RecordState → RecordState
seqlock_turn t outside s = s
seqlock_turn t (reading o) s =
    if s.version o % 2 == 1 then s else set_pc t (version_read o (s.version o)) s
seqlock_turn t (version_read o v) s = set_pc t (value_read o v (s.memory o)) s
seqlock_turn t (value_read o v x) s =
    if s.version o == v
    then return_call t (finish_read o v x (s.client t)) s
    else set_pc t (reading o) s
seqlock_turn t (locking o x) s =
    if s.write_lock o
    then s
    else set_pc t (locked o x) (record s { write_lock = update s.write_lock o true })
seqlock_turn t (locked o x) s = set_pc t (write_version o x (s.version o)) s
seqlock_turn t (write_version o x v) s =
    set_pc t (odd_version o x v) (record s { version = update s.version o (s.version o + 1) })
seqlock_turn t (odd_version o x v) s =
    set_pc t (stored o x v) (record s { memory = update s.memory o x })
seqlock_turn t (stored o x v) s =
    set_pc t (unlocking o x v) (record s { version = update s.version o (s.version o + 1) })
seqlock_turn t (unlocking o x v) s =
    return_call t (finish_write o v (s.client t))
      (record s { write_lock = update s.write_lock o false })

-- A call that enters the seqlock.
abbrev pub enter : Call → RecordPc
enter (read o) = reading o
enter (write o x) = locking o x

-- A transaction of `mem_read` that no other thread's access aborts; where it aborts itself, the
-- seqlock follows.
unfoldable pub read_transaction : ℕ → ℕ → RecordState → RecordState
read_transaction t o s =
    if s.version o % 2 == 1
    then set_pc t (reading o) s
    else return_call t (finish_read o (s.version o) (s.memory o) (s.client t)) s

-- Likewise for `mem_write`.
unfoldable pub write_transaction : ℕ → ℕ → ℕ → RecordState → RecordState
write_transaction t o x s =
    if s.write_lock o
    then set_pc t (locking o x) s
    else return_call t (finish_write o (s.version o) (s.client t))
        (record s { version = update s.version o (s.version o + 2); memory = update s.memory o x })

-- The recorders that differ in how a call begins.
pub data RecorderKind : Type 0 where
  seqlock : RecorderKind
  rtmseq : RecorderKind

-- The flag tells whether the hardware lets the transaction run_recorders to its end.
unfoldable pub begin_call : RecorderKind → Bool → ℕ → Call → RecordState → RecordState
unfolding read_transaction write_transaction
begin_call rtmseq true t (read o) s = read_transaction t o s
begin_call rtmseq true t (write o x) s = write_transaction t o x s
begin_call _ _ t call s = set_pc t (enter call) s

unfoldable pub step_at : RecorderKind → Program → Bool → ℕ → RecordPc → RecordState → RecordState
unfolding seqlock_turn begin_call
step_at kind prog tx t outside s = elim (issue prog t (s.client t)) [
  | none ↦ s
  | some call ↦ begin_call kind tx t call s
]
step_at kind prog tx t p s = seqlock_turn t p s

-- The threads interleaved: an entry names the thread that makes the step, and tells what becomes of
-- a transaction.
unfoldable pub run_recorders : RecorderKind → Program → List (ℕ × Bool) → RecordState → RecordState
unfolding step_at
run_recorders kind prog [] s = s
run_recorders kind prog ((t, tx) ∷ ts) s =
    run_recorders kind prog ts (step_at kind prog tx t (s.pc t) s)

-- `mem_init` and every thread's `mem_init_thr`.
abbrev pub start_recorders : (ℕ → ℕ) → RecordState
start_recorders memory = record {
  version = λ _. 0;
  write_lock = λ _. false;
  memory = memory;
  client = λ _. new_client;
  pc = λ _. outside;
}

-- mem-record-seqbatch.c makes its accesses with the same seqlock.
abbrev pub run_seqbatch : Program → List (ℕ × Bool) → RecordState → RecordState
run_seqbatch = run_recorders seqlock
