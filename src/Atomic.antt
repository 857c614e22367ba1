-- ===== src/Atomic.antt =====
-- mem-record-*.c: what their `mem_read` and `mem_write` promise. A call reads the object's version
-- and accesses its memory at one point, and a write raises the version by 2 there.
pub mod History
pub mod Complete
use mem_order.Base.{ℕ, suc, ◌+◌, List, [], ◌∷◌, ◌++◌, Option, none, some, update}
use mem_order.Trace.{Access, access, Op, rd, wr, Event}
use mem_order.Record.{Recorder, mem_init_thr, note_read, note_write}
use mem_order.Replay.Defs.{Call, read, write, Program}

-- A thread of the recorded program: its recorder, the values that `mem_read` has returned, and what
-- the log taking was given at the end of each call.
pub record Client : Type 0 where
  pub recorder : Recorder
  pub reads : List ℕ
  pub noted : List Access

abbrev pub new_client : Client
new_client = record { recorder = mem_init_thr; reads = []; noted = [] }

-- The end of `mem_read`, from version `v` and value `x`.
unfoldable pub finish_read : ℕ → ℕ → ℕ → Client → Client
finish_read o v x c = record {
  recorder = note_read o v c.recorder;
  reads = c.reads ++ (x ∷ []);
  noted = c.noted ++ (access rd o v ∷ []);
}

-- The end of `mem_write`.
unfoldable pub finish_write : ℕ → ℕ → Client → Client
finish_write o v c = record c {
  recorder = note_write o v c.recorder;
  noted = c.noted ++ (access wr o v ∷ []);
}

-- No step reads `trace` and `content`, which tell what has happened: the calls in their order, and
-- the value of each object at each of its versions.
pub record AtomicState : Type 0 where
  pub version : ℕ → ℕ
  pub memory : ℕ → ℕ
  pub client : ℕ → Client
  pub trace : List Event
  pub content : ℕ → ℕ → ℕ

-- The next call that a thread makes.
abbrev pub issue : Program → ℕ → Client → Option Call
issue prog t c = prog t c.recorder.memop c.reads

unfoldable pub perform : ℕ → Call → AtomicState → AtomicState
perform t (read o) a = record a {
  client = update a.client t (finish_read o (a.version o) (a.memory o) (a.client t));
  trace = a.trace ++ (record { tid = t; op = rd; objid = o } ∷ []);
}
perform t (write o x) a = record a {
  version = update a.version o (a.version o + 2);
  memory = update a.memory o x;
  client = update a.client t (finish_write o (a.version o) (a.client t));
  trace = a.trace ++ (record { tid = t; op = wr; objid = o } ∷ []);
  content = update a.content o (update (a.content o) (a.version o + 2) x);
}

unfoldable pub atomic_step : Program → ℕ → AtomicState → AtomicState
unfolding perform
atomic_step prog t a = elim (issue prog t (a.client t)) [ none ↦ a | some call ↦ perform t call a ]

unfoldable pub atomic_run : Program → List ℕ → AtomicState → AtomicState
unfolding atomic_step
atomic_run prog [] a = a
atomic_run prog (t ∷ ts) a = atomic_run prog ts (atomic_step prog t a)

abbrev pub atomic_start : (ℕ → ℕ) → AtomicState
atomic_start memory = record {
  version = λ _. 0;
  memory = memory;
  client = λ _. new_client;
  trace = [];
  content = λ o _. memory o;
}
