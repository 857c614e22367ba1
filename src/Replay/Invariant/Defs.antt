-- ===== src/Replay/Invariant/Defs.antt =====
-- mem-replay.c: what holds in every state of a replay that follows the recording `r`.
use mem_order.Base.{
  ℕ, suc, ◌≤◌, ◌<◌, ◌≡◌, ◌≢◌, ◌⊎◌, Bool, true, false, List, [], pos, minus_one, some, get_elem?,
  length,
}
use mem_order.Mem.{ReplayWaitMemop}
use mem_order.Trace.{Op, rd, wr, access}
use mem_order.Trace.Order.{Recording}
use mem_order.Replay.Defs.{
  ReplayWaitMemopLog, Pc, start, arrived, scan, searching, wait_for, ready, loaded, stored, bumped,
  aborted, Player, State,
}
use mem_order.Replay.Waits.{recorded, entries_from, Shows}

-- The first access whose version entries are still to be read, by where the thread stands.
abbrev pub upcoming : Pc → ℕ → ℕ
upcoming start m = m
upcoming arrived m = m
upcoming _ m = suc m

-- How many accesses have taken effect.
abbrev pub finished : Pc → ℕ → ℕ
finished bumped m = suc m
finished _ m = m

-- The object is at the version that the access read when it was recorded.
abbrev pub holds_version : Pc → Bool
holds_version start = false
holds_version bumped = false
holds_version aborted = false
holds_version _ = true

abbrev pub is_writing : Pc → Bool
is_writing scan = true
is_writing searching = true
is_writing (wait_for e) = true
is_writing stored = true
is_writing bumped = true
is_writing _ = false

abbrev pub is_reading : Pc → Bool
is_reading (loaded x) = true
is_reading _ = false

-- `wait_reader` has returned.
abbrev pub is_cleared : Pc → Bool
is_cleared ready = true
is_cleared stored = true
is_cleared _ = false

abbrev pub is_aborted : Pc → Bool
is_aborted aborted = true
is_aborted _ = false

abbrev pub is_searching : Pc → Bool
is_searching searching = true
is_searching _ = false

-- Neither in `next_reader_memop` nor in the loop that follows it.
abbrev pub is_quiet : Pc → Bool
is_quiet searching = false
is_quiet (wait_for e) = false
is_quiet _ = true

abbrev pub is_arrived : Pc → Bool
is_arrived arrived = true
is_arrived _ = false

abbrev pub is_bumped : Pc → Bool
is_bumped bumped = true
is_bumped _ = false

-- The access that thread `t` has to make next.
abbrev pub Current : Recording → ℕ → Player → Op → ℕ → ℕ → Type 0
Current r t p op o v = get_elem? (r.accesses t) p.memop ≡ some (access op o v)

pub record ThreadInv (r : Recording) (ver : ℕ → ℕ) (logs : ℕ → ReplayWaitMemopLog) (t : ℕ)
    (p : Player) : Type 0 where
  pub sane : is_aborted p.pc ≡ false
  pub upper :
      (m : ℕ) (op : Op) (o v : ℕ)
      → finished p.pc p.memop ≤ m
      → get_elem? (r.accesses t) m ≡ some (access op o v)
      → ver o ≤ v
  pub last : (o : ℕ) → ((recorded (r.accesses t) p.memop).last o).version ≤ ver o
  pub at_version :
      (op : Op) (o v : ℕ) → Current r t p op o v → holds_version p.pc ≡ true → ver o ≡ v
  pub past_version : (op : Op) (o v : ℕ) → Current r t p op o v → is_bumped p.pc ≡ true → v ≤ ver o
  pub writing : (op : Op) (o v : ℕ) → Current r t p op o v → is_writing p.pc ≡ true → op ≡ wr
  pub reading : (op : Op) (o v : ℕ) → Current r t p op o v → is_reading p.pc ≡ true → op ≡ rd
  pub cleared :
      (o v i : ℕ) (e : ReplayWaitMemop)
      → Current r t p wr o v
      → is_cleared p.pc ≡ true
      → (logs o).n ≤ i
      → get_elem? (logs o).log i ≡ some e
      → e.version ≢ v
  pub shows :
      Shows p.wait_version p.wait_version_log (entries_from (r.accesses t) (upcoming p.pc p.memop))
  pub arrived_at : is_arrived p.pc ≡ true → p.wait_version.memop ≡ pos p.memop

module _ (r : Recording) (thread : ℕ → Player) (o : ℕ) where
  -- A thread is in the inner loop of `wait_reader` for the entry `e`, in a write to `o`.
  abbrev pub Waiting : ReplayWaitMemop → Type 0
  Waiting e = (t : ℕ) × (v : ℕ) × ((thread t).pc ≡ wait_for e) × Current r t (thread t) wr o v

  -- The access of the entry is past, or it is being waited for.
  abbrev pub Waited : ReplayWaitMemop → Type 0
  Waited e = (e.memop < (thread e.tid).memop) ⊎ Waiting e

  -- A thread holds the mutex of the log of `o`.
  abbrev pub Searching : Type 0
  Searching = (t : ℕ) × (v : ℕ) × ((thread t).pc ≡ searching) × Current r t (thread t) wr o v

-- The log `l` of object `o`, at version `ver`.
pub record LogInv (r : Recording) (merged : ℕ → List ReplayWaitMemop) (ver : ℕ)
    (l : ReplayWaitMemopLog) (thread : ℕ → Player) (o : ℕ) : Type 0 where
  pub same_log : l.log ≡ merged o
  pub sized : (l.size ≡ pos (length l.log)) ⊎ ((l.log ≡ []) × (l.size ≡ minus_one))
  pub ahead : (i : ℕ) (e : ReplayWaitMemop) → l.n ≤ i → get_elem? l.log i ≡ some e → ver ≤ e.version
  pub behind :
      (i : ℕ) (e : ReplayWaitMemop) → i < l.n → get_elem? l.log i ≡ some e → Waited r thread o e
  pub locked : l.mutex ≡ true → Searching r thread o

pub record Inv (r : Recording) (merged : ℕ → List ReplayWaitMemop) (s : State) : Type 0 where
  pub threads : (t : ℕ) → ThreadInv r s.obj_version s.wait_reader_log t (s.thread t)
  pub logs : (o : ℕ) → LogInv r merged (s.obj_version o) (s.wait_reader_log o) s.thread o
