-- ===== src/Pipeline/Replayed.antt =====
-- test.sh: a program that is recorded, its logs processed, and the program replayed from them.
use mem_order.Base.{ℕ, List, Option}
use mem_order.Trace.{Event}
use mem_order.Trace.Order.{recording}
use mem_order.Merge.{MergeFiles, loaded_log}
use mem_order.Replay.Defs.{State, Program, run}
use mem_order.Replay.Values.{ProgramRun}
use mem_order.Replay.Start.{replay_start}
use mem_order.Pipeline.{Within}

module _ {prog : Program} {content : ℕ → ℕ → ℕ} {memory : ℕ → ℕ} (nobj nthr : ℕ) (es : List Event)
    (within : Within nobj nthr es) (ran : ProgramRun prog (recording es) content memory) where
  -- The state of a replay from what the tools wrote.
  abbrev pub replayed_from : Option MergeFiles → List ℕ → State
  replayed_from files ts =
      run prog ts (replay_start (recording es) nobj (loaded_log nobj files) memory)
