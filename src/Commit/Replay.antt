-- ===== src/Commit/Replay.antt =====
-- mem-replay-rtmcommit.c: the blocks of calls of all threads, in the order of the merged log.
pub mod Turns
use mem_order.Base.{
  ℕ, suc, ◌-◌, ◌%◌, ◌==◌, if◌then◌else◌, not, Bool, true, false, List, [], ◌∷◌, ◌++◌, Option, none,
  some, update,
}
use mem_order.Mem.{rtm_batch_n}
use mem_order.Replay.Defs.{Call, read, write, Program}

-- Where a thread stands in `mem_read` or `mem_write`.
pub data CommitPc : Type 0 where
  enter : CommitPc  -- before the test for the begin of a block, and its loop
  access : CommitPc  -- before the assertion and the access to `*addr`
  leave : CommitPc  -- before the test for the end of a block, and `g_sim_bbcnt++`
  finished : CommitPc  -- `mem_finish_thr` has returned
  failed : CommitPc  -- the assertion failed

-- The thread-local state; `sim_bbcnt` is also the number of calls so far.
pub record CommitPlayer : Type 0 where
  pub pc : CommitPc
  pub sim_bbcnt : ℕ
  pub reads : List ℕ

pub record CommitState : Type 0 where
  pub commit_log : List ℕ  -- what is left of `g_commit_log`
  pub next_thr : ℕ
  pub memory : ℕ → ℕ
  pub thread : ℕ → CommitPlayer

-- At the end of the log, `g_next_thr` stays as it is.
unfoldable pub read_next_thr : CommitState → CommitState
read_next_thr s = elim s.commit_log [
  | [] ↦ s
  | t ∷ rest ↦ record s { commit_log = rest; next_thr = t }
]

abbrev pub set_commit_player : ℕ → CommitPlayer → CommitState → CommitState
set_commit_player t p s = record s { thread = update s.thread t p }

module _ (s : CommitState) (t : ℕ) where
  abbrev player : CommitPlayer
  player = s.thread t

  abbrev move_to : CommitPc → CommitState
  move_to pc = set_commit_player t (record player { pc = pc }) s

  -- The loop `while (g_next_thr != g_tid)` at the begin of a block.
  unfoldable pub enter_block : CommitState
  enter_block =
      if player.sim_bbcnt % rtm_batch_n == 0
      then (if s.next_thr == t then move_to access else s)
      else move_to access

  -- The assertion, and the access itself.
  unfoldable pub access_memory : Call → CommitState
  access_memory (read o) =
      if s.next_thr == t
      then set_commit_player t
          (record player { pc = leave; reads = player.reads ++ (s.memory o ∷ []) }) s
      else move_to failed
  access_memory (write o x) =
      if s.next_thr == t
      then record (move_to leave) { memory = update s.memory o x }
      else move_to failed

  -- The end of a block, and `g_sim_bbcnt++`.
  unfoldable pub leave_block : CommitState
  unfolding read_next_thr
  leave_block =
      set_commit_player t (record player { pc = enter; sim_bbcnt = suc player.sim_bbcnt })
        (if player.sim_bbcnt % rtm_batch_n == rtm_batch_n - 1 then read_next_thr s else s)

  -- `mem_finish_thr`, after the thread's last call.
  unfoldable pub finish_blocks : CommitState
  unfolding read_next_thr
  finish_blocks =
      set_commit_player t (record player { pc = finished })
        (if player.sim_bbcnt % rtm_batch_n == 0 then s else read_next_thr s)

  unfoldable pub commit_turn : Option Call → CommitPc → CommitState
  unfolding enter_block access_memory leave_block finish_blocks
  commit_turn none enter = finish_blocks
  commit_turn (some call) enter = enter_block
  commit_turn none access = s
  commit_turn (some call) access = access_memory call
  commit_turn call leave = leave_block
  commit_turn call finished = s
  commit_turn call failed = s

-- A step of thread `t`.
unfoldable pub commit_step : Program → ℕ → CommitState → CommitState
unfolding commit_turn
commit_step prog t s =
    commit_turn s t (prog t (s.thread t).sim_bbcnt (s.thread t).reads) (s.thread t).pc

-- The threads interleaved: the list names the thread that makes each step.
unfoldable pub run_commits : Program → List ℕ → CommitState → CommitState
unfolding commit_step
run_commits prog [] s = s
run_commits prog (t ∷ ts) s = run_commits prog ts (commit_step prog t s)

-- `mem_init` and every thread's `mem_init_thr`; globals are 0 before.
unfoldable pub start_commits : List ℕ → (ℕ → ℕ) → CommitState
unfolding read_next_thr
start_commits commitlog memory = read_next_thr (record {
  commit_log = commitlog;
  next_thr = 0;
  memory = memory;
  thread = λ t. record { pc = enter; sim_bbcnt = 0; reads = [] };
})
