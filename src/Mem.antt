-- ===== src/Mem.antt =====
-- mem.h: the types that the recorder, the log tools and the replayer share. `objid_t`, `tid_t` and
-- the counters are numbers; a field of a log entry that can hold the mark -1 is an integer.
use mem_order.Base.{ℕ, ◌-◌, ◌%◌, ◌<◌, ◌≡◌, true, ℤ, pos, negsuc, eq_ℤ, ltb, if◌then◌else◌, arith}

-- The `tid_t` that an int is converted to, an `int8_t`.
abbrev pub tid_of : ℕ → ℤ
tid_of n = if ltb (n % 256) 128 then pos (n % 256) else negsuc (255 - n % 256)

pub tid_of-lt : (n : ℕ) → n < 128 → eq_ℤ (pos n) (tid_of n) ≡ true
tid_of-lt n lt = ground arith

-- Accesses in one simulated basic block of the transactional recorders.
abbrev pub rtm_batch_n : ℕ
rtm_batch_n = 7

-- An entry of a thread's memop log while recording.
pub record WaitMemop : Type 0 where
  pub objid : ℤ
  pub version : ℤ
  pub memop : ℤ

-- An entry of a thread's version log.
pub record WaitVersion : Type 0 where
  pub memop : ℤ
  pub version : ℤ

-- An entry of the merged memop log that the replayer reads.
pub record ReplayWaitMemop : Type 0 where
  pub version : ℕ
  pub memop : ℕ
  pub tid : ℕ
