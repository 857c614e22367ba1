-- ===== src/Replay/Defs.antt =====
-- mem-replay.c: the state of the replayer and the steps of a thread.
use mem_order.Base.{
  ℕ, suc, ◌+◌, ◌==◌, leb, if◌then◌else◌, Bool, true, false, List, [], ◌∷◌, ◌++◌, ℤ, pos, minus_one,
  eq_ℤ, ltb_ℤ, Option, none, some, get_elem?, update, length,
}
use mem_order.Mem.{WaitVersion, ReplayWaitMemop}
use mem_order.Trace.{Op, rd, wr}

-- `struct replay_wait_memop_log`; `mutex` tells whether it is held.
pub record ReplayWaitMemopLog : Type 0 where
  pub log : List ReplayWaitMemop
  pub n : ℕ
  pub size : ℤ
  pub mutex : Bool

-- A call of `mem_read` or `mem_write` by the replayed program, its address taken through
-- `calc_objid`. The program gives a thread's next call from the number of its calls so far and
-- the values that it has read.
pub data Call : Type 0 where
  read : ℕ → Call
  write : ℕ → ℕ → Call

abbrev pub Program : Type 0
Program = ℕ → ℕ → List ℕ → Option Call

-- Where a thread stands in `mem_read` or `mem_write`.
pub data Pc : Type 0 where
  start : Pc  -- before the test and the loop of `wait_object_version`
  arrived : Pc  -- after that loop, before its assertion
  scan : Pc  -- in `wait_reader`, before the call of `next_reader_memop`
  searching : Pc  -- in `next_reader_memop`, with the mutex held
  wait_for : ReplayWaitMemop → Pc  -- the inner loop of `wait_reader`
  ready : Pc  -- before the access to `*addr`
  loaded : ℕ → Pc  -- in `mem_read`, before `memop++`
  stored : Pc  -- in `mem_write`, before `obj_version[objid] += 2`
  bumped : Pc  -- in `mem_write`, before `memop++`
  aborted : Pc  -- an assertion failed, or a log was read past its end

-- The thread-local state; `reads` are the values that `mem_read` has returned.
pub record Player : Type 0 where
  pub pc : Pc
  pub memop : ℕ
  pub wait_version : WaitVersion
  pub wait_version_log : List WaitVersion  -- the entries from `buf` on
  pub reads : List ℕ

pub record State : Type 0 where
  pub obj_version : ℕ → ℕ
  pub wait_reader_log : ℕ → ReplayWaitMemopLog
  pub memory : ℕ → ℕ  -- the value of the object
  pub thread : ℕ → Player

-- `next_wait_version_log`; `none` is a read past the end of the log.
abbrev pub next_wait_version_log :
    WaitVersion → List WaitVersion → Option (WaitVersion × List WaitVersion)
next_wait_version_log cur [] = none
next_wait_version_log cur (wv ∷ rest) =
    if eq_ℤ wv.memop minus_one
    then some (record cur { memop = minus_one }, wv ∷ rest)
    else some (wv, rest)

abbrev pub objid : Call → ℕ
objid (read o) = o
objid (write o x) = o

-- What follows `wait_object_version`: a write calls `wait_reader`.
abbrev pub after_wait : Call → Pc
after_wait (read o) = ready
after_wait (write o x) = scan

abbrev pub set_player : State → ℕ → Player → State
set_player s t p = record s { thread = update s.thread t p }

abbrev pub goto : State → ℕ → Pc → State
goto s t pc = set_player s t (record (s.thread t) { pc = pc })

abbrev pub set_reader_log : State → ℕ → ReplayWaitMemopLog → State
set_reader_log s o l = record s { wait_reader_log = update s.wait_reader_log o l }

module _ (s : State) (t : ℕ) (call : Call) where
  abbrev player : Player
  player = s.thread t

  -- `wait_object_version`: the test and the loop.
  unfoldable pub wait_object_version : State
  wait_object_version =
      if eq_ℤ (pos player.memop) player.wait_version.memop
      then (if ltb_ℤ (pos (s.obj_version (objid call))) player.wait_version.version
          then s
          else goto s t arrived)
      else goto s t (after_wait call)

  -- Its assertion, and the next entry of the log.
  unfoldable pub assert_version : State
  assert_version =
      if eq_ℤ (pos (s.obj_version (objid call))) player.wait_version.version
      then elim (next_wait_version_log player.wait_version player.wait_version_log) [
        | none ↦ goto s t aborted
        | some (wv, rest) ↦
            set_player s t
              (record player { pc = after_wait call; wait_version = wv; wait_version_log = rest })
      ]
      else goto s t aborted

  -- `next_reader_memop`: `pthread_mutex_trylock`.
  unfoldable pub lock_reader_log : State
  lock_reader_log =
      let l = s.wait_reader_log (objid call) in
      if l.mutex
      then goto s t aborted
      else goto (set_reader_log s (objid call) (record l { mutex = true })) t searching

  -- The rest of `next_reader_memop`; the mutex is released on every path that returns.
  unfoldable pub next_reader_memop : State
  next_reader_memop =
      let l = s.wait_reader_log (objid call) in
      let version = s.obj_version (objid call) in
      let unlocked = set_reader_log s (objid call) (record l { mutex = false }) in
      if ltb_ℤ (pos l.n) l.size
      then elim (get_elem? l.log l.n) [
        | none ↦ goto s t aborted
        | some e ↦
            if leb version e.version
            then (if version == e.version
                then goto (set_reader_log s (objid call) (record l { n = l.n + 1; mutex = false }))
                    t (wait_for e)
                else goto unlocked t ready)
            else goto s t aborted
      ]
      else goto unlocked t ready

  -- The inner loop of `wait_reader`: `*memop_cnt[log->tid] <= log->memop`.
  unfoldable pub wait_reader : ReplayWaitMemop → State
  wait_reader e = if leb (s.thread e.tid).memop e.memop then s else goto s t scan

  -- The access itself.
  unfoldable pub touch : State
  touch = elim call [
    | read o ↦ goto s t (loaded (s.memory o))
    | write o x ↦ goto (record s { memory = update s.memory o x }) t stored
  ]

  unfoldable pub bump_version : State
  bump_version =
      goto
        (record s {
          obj_version = update s.obj_version (objid call) (s.obj_version (objid call) + 2);
        })
        t bumped

  -- `memop++`, and the return of the call with the values read so far.
  unfoldable pub finish_call : List ℕ → State
  finish_call reads =
      set_player s t (record player { pc = start; memop = suc player.memop; reads = reads })

  -- One step of thread `t` inside `call`.
  unfoldable pub turn : Pc → State
  unfolding wait_object_version assert_version lock_reader_log next_reader_memop wait_reader touch
      bump_version finish_call
  turn start = wait_object_version
  turn arrived = assert_version
  turn scan = lock_reader_log
  turn searching = next_reader_memop
  turn (wait_for e) = wait_reader e
  turn ready = touch
  turn (loaded x) = finish_call (player.reads ++ (x ∷ []))
  turn stored = bump_version
  turn bumped = finish_call player.reads
  turn aborted = s

-- A step of thread `t`; a thread whose program has ended makes none.
unfoldable pub step : Program → ℕ → State → State
unfolding turn
step prog t s = elim (prog t (s.thread t).memop (s.thread t).reads) [
  | none ↦ s
  | some call ↦ turn s t call (s.thread t).pc
]

-- The threads interleaved: the list names the thread that makes each step.
unfoldable pub run : Program → List ℕ → State → State
unfolding step
run prog [] s = s
run prog (t ∷ ts) s = run prog ts (step prog t s)

-- `mem_init_thr`: the first entry of the version log is read at once.
unfoldable pub mem_init_thr : List WaitVersion → Player
mem_init_thr log = elim (next_wait_version_log (record { memop = pos 0; version = pos 0 }) log) [
  | none ↦ record {
    pc = aborted;
    memop = 0;
    wait_version = record { memop = pos 0; version = pos 0 };
    wait_version_log = log;
    reads = [];
  }
  | some (wv, rest) ↦ record {
    pc = start;
    memop = 0;
    wait_version = wv;
    wait_version_log = rest;
    reads = [];
  }
]

-- `load_wait_reader_log` for one object: `n` is 0, and an object with no entries has size -1.
unfoldable pub load_wait_reader_log : List ReplayWaitMemop → ReplayWaitMemopLog
load_wait_reader_log [] = record { log = []; n = 0; size = minus_one; mutex = false }
load_wait_reader_log (e ∷ es) = record {
  log = e ∷ es;
  n = 0;
  size = pos (length (e ∷ es));
  mutex = false;
}

-- `mem_init` and every thread's `mem_init_thr`.
unfoldable pub mem_init : (ℕ → List ReplayWaitMemop) → (ℕ → List WaitVersion) → (ℕ → ℕ) → State
unfolding mem_init_thr load_wait_reader_log
mem_init readers versions memory = record {
  obj_version = λ _. 0;
  wait_reader_log = λ o. load_wait_reader_log (readers o);
  memory = memory;
  thread = λ t. mem_init_thr (versions t);
}

abbrev pub op_of : Call → Op
op_of (read o) = rd
op_of (write o x) = wr
