-- ===== src/Replay/Step.antt =====
-- mem-replay.c: every step of every thread keeps the replay with the recorded run.
use mem_order.Base.{
  ℕ, ◌+◌, ◌≡◌, inl, inr, true, List, [], ◌∷◌, some, get_elem?, take, refl, ap, ◌∙◌, subst,
  Option-cases,
}
use mem_order.Mem.{ReplayWaitMemop}
use mem_order.Trace.{rd, wr, access}
use mem_order.Trace.Order.{Recording}
use mem_order.Replay.Defs.{
  Pc, start, arrived, scan, searching, wait_for, ready, loaded, stored, bumped, aborted, State,
  Call, write, Program, op_of, objid, turn, step, run,
}
use mem_order.Replay.Logs.{MergedLogs}
use mem_order.Replay.Invariant.Defs.{Inv, Current, is_reading, is_writing, holds_version}
use mem_order.Replay.Invariant.Readers.{Bounded}
use mem_order.Replay.Invariant.Turns.{wait_object_version-Inv, assert_version-Inv, wait_reader-Inv}
use mem_order.Replay.Invariant.Search.{lock_reader_log-Inv, next_reader_memop-Inv}
use mem_order.Replay.Invariant.Access.{touch-Inv, finish_call-Inv, bump_version-Inv}
use mem_order.Replay.Values.{reads_of, ProgramRun}
use mem_order.Replay.Values.Steps.{
  Values, wait_object_version-Values, assert_version-Values, lock_reader_log-Values,
  next_reader_memop-Values, wait_reader-Values,
}
use mem_order.Replay.Values.Touch.{
  touch-Values, bump_version-Values, finish_read-Values, finish_write-Values,
}

-- The replay is where the recorded run was.
abbrev pub Good : Recording → (ℕ → List ReplayWaitMemop) → (ℕ → ℕ → ℕ) → State → Type 0
Good r merged content s = Inv r merged s × Values r content s

module _ {r : Recording} {nobj : ℕ} {merged : ℕ → List ReplayWaitMemop}
    (logs : MergedLogs r nobj merged) (bounded : Bounded r nobj) {content : ℕ → ℕ → ℕ} (s : State)
    (good : Good r merged content s) (t : ℕ) (call : Call) (v : ℕ)
    (cur : Current r t (s.thread t) (op_of call) (objid call) v) where
  rd_cur : is_reading (s.thread t).pc ≡ true → Current r t (s.thread t) rd (objid call) v
  rd_cur h =
      subst (λ x. get_elem? (r.accesses t) (s.thread t).memop ≡ some (access x (objid call) v))
        ((good.0.threads t).reading (op_of call) (objid call) v cur h) cur

  is_wr : is_writing (s.thread t).pc ≡ true → op_of call ≡ wr
  is_wr h = (good.0.threads t).writing (op_of call) (objid call) v cur h

  wr_cur : is_writing (s.thread t).pc ≡ true → Current r t (s.thread t) wr (objid call) v
  wr_cur h =
      subst (λ x. get_elem? (r.accesses t) (s.thread t).memop ≡ some (access x (objid call) v))
        (is_wr h) cur

  here : holds_version (s.thread t).pc ≡ true → s.obj_version (objid call) ≡ v
  here h = (good.0.threads t).at_version (op_of call) (objid call) v cur h

  turn-Inv : (pc : Pc) → (s.thread t).pc ≡ pc → Inv r merged (turn s t call pc)
  unfolding turn
  turn-Inv start q = wait_object_version-Inv s good.0 t call v cur q
  turn-Inv arrived q = assert_version-Inv s good.0 t call v cur q
  turn-Inv scan q = lock_reader_log-Inv s good.0 t call v cur (is_wr (rw q)) (here (rw q)) q
  turn-Inv searching q =
      next_reader_memop-Inv logs s good.0 t call v cur (is_wr (rw q)) (here (rw q)) q
  turn-Inv (wait_for e) q = wait_reader-Inv s good.0 t call v cur e q
  turn-Inv ready q = touch-Inv s good.0 t call v cur q
  turn-Inv (loaded x) q = finish_call-Inv s good.0 t call v _ cur (inl (x, q))
  turn-Inv stored q =
      bump_version-Inv logs bounded s good.0 t (objid call) v (wr_cur (rw q)) q call refl
  turn-Inv bumped q = finish_call-Inv s good.0 t call v _ cur (inr q)
  turn-Inv aborted q = good.0

  turn-Values :
      (new : (o x : ℕ) → call ≡ write o x → content o (v + 2) ≡ x)
      → (pc : Pc) → (s.thread t).pc ≡ pc
      → Values r content (turn s t call pc)
  unfolding turn
  turn-Values new start q = wait_object_version-Values s good.1 t (rw q) call
  turn-Values new arrived q = assert_version-Values s good.1 t (rw q) call
  turn-Values new scan q = lock_reader_log-Values s good.1 t (rw q) call
  turn-Values new searching q = next_reader_memop-Values s good.1 t (rw q) call
  turn-Values new (wait_for e) q = wait_reader-Values s good.1 t (rw q) call e
  turn-Values new ready q = touch-Values logs bounded s good.0 good.1 t call v cur new q
  turn-Values new (loaded x) q =
      finish_read-Values logs bounded s good.0 good.1 t call x (objid call) v (rd_cur (rw q)) q
  turn-Values new stored q =
      bump_version-Values logs bounded s good.0 good.1 t call v (is_wr (rw q)) (wr_cur (rw q)) q
  turn-Values new bumped q =
      finish_write-Values logs bounded s good.0 good.1 t call (objid call) v (wr_cur (rw q)) q
  turn-Values new aborted q = good.1

-- A step of any thread.
pub step-Good :
    {prog : Program} {r : Recording} {nobj : ℕ} {merged : ℕ → List ReplayWaitMemop}
    {content : ℕ → ℕ → ℕ} {memory : ℕ → ℕ}
    → MergedLogs r nobj merged
    → Bounded r nobj
    → ProgramRun prog r content memory
    → (t : ℕ) (s : State) → Good r merged content s
    → Good r merged content (step prog t s)
unfolding step
step-Good {prog} {r} {content} logs bounded ran t s good =
    elim (Option-cases (prog t (s.thread t).memop (s.thread t).reads)) [
      | inl ended ↦ rw (ended, step) good
      | inr (call, issued) ↦
          let at : prog t (s.thread t).memop
                (reads_of content (take (s.thread t).memop (r.accesses t)))
              ≡ some call =
            subst (λ l. prog t (s.thread t).memop l ≡ some call) (good.1.reads t) issued in
          let (v, cur) = ran.follows t (s.thread t).memop call at in
          rw (issued, step)
            (
              turn-Inv logs bounded s good t call v cur (s.thread t).pc refl,
              turn-Values logs bounded s good t call v cur
                  (λ o x q. ran.written t (s.thread t).memop o x v (at ∙ ap some q) (cur ∙ rw q))
                  (s.thread t).pc refl,
            )
    ]

pub run-Good :
    {prog : Program} {r : Recording} {nobj : ℕ} {merged : ℕ → List ReplayWaitMemop}
    {content : ℕ → ℕ → ℕ} {memory : ℕ → ℕ}
    → MergedLogs r nobj merged
    → Bounded r nobj
    → ProgramRun prog r content memory
    → (ts : List ℕ) (s : State) → Good r merged content s
    → Good r merged content (run prog ts s)
unfolding run
run-Good logs bounded ran [] s good = good
run-Good {prog} logs bounded ran (t ∷ ts) s good =
    run-Good logs bounded ran ts (step prog t s) (step-Good logs bounded ran t s good)
