-- ===== src/Record.antt =====
-- mem-record.c with the log taking of mem-record-seqlock.c: one thread's recorder.
pub mod Pending
pub mod Emit
pub mod Reads
pub mod Origin
pub mod Batch
use mem_order.Base.{
  ℕ, ◌+◌, ◌==◌, if◌then◌else◌, List, [], ◌∷◌, ◌++◌, ℤ, pos, minus_one, is_neg, update, zero, suc,
}
use mem_order.Mem.{WaitMemop, WaitVersion}
use mem_order.Trace.{Op, rd, wr, Access}

-- A thread's last access to one object; `memop` is -1 if that was no read.
pub record LastObjinfo : Type 0 where
  pub version : ℕ
  pub memop : ℤ

-- The thread-local state: `g_last`, `memop` and the two logs, oldest entry first.
pub record Recorder : Type 0 where
  pub last : ℕ → LastObjinfo
  pub memop : ℕ
  pub versions : List WaitVersion
  pub memops : List WaitMemop

-- `mem_init_thr`: versions are zeroed by `calloc`, and there is no last read.
abbrev pub mem_init_thr : Recorder
mem_init_thr = record {
  last = λ _. record { version = 0; memop = minus_one };
  memop = 0;
  versions = [];
  memops = [];
}

abbrev pub log_wait_version : ℕ → Recorder → Recorder
log_wait_version current r = record r {
  versions = r.versions ++ (record { memop = pos r.memop; version = pos current } ∷ []);
}

abbrev pub log_other_wait_memop : ℕ → LastObjinfo → Recorder → Recorder
log_other_wait_memop objid lastobj r = record r {
  memops =
      r.memops
      ++ (record { objid = pos objid; version = pos lastobj.version; memop = lastobj.memop } ∷ []);
}

-- The test `memop >= 0` of `log_order` and of `mem_finish_thr`.
abbrev pub log_last_read : ℕ → LastObjinfo → Recorder → Recorder
log_last_read objid lastobj r =
    if is_neg lastobj.memop then r else log_other_wait_memop objid lastobj r

unfoldable pub log_order : ℕ → ℕ → LastObjinfo → Recorder → Recorder
log_order objid current lastobj r = log_last_read objid lastobj (log_wait_version current r)

-- `mark_log_end`
unfoldable pub mark_log_end : Recorder → Recorder
mark_log_end r = record r {
  versions = r.versions ++ (record { memop = minus_one; version = minus_one } ∷ []);
  memops = r.memops ++ (record { objid = minus_one; version = minus_one; memop = minus_one } ∷ []);
}

abbrev pub set_last : ℕ → LastObjinfo → Recorder → Recorder
set_last objid lastobj r = record r { last = update r.last objid lastobj }

-- The end of `mem_read`, after the version and the value were read.
unfoldable pub note_read : ℕ → ℕ → Recorder → Recorder
unfolding log_order
note_read objid version r =
    let lastobj = r.last objid in
    let logged =
      if lastobj.version == version
      then r
      else set_last objid (record lastobj { version = version })
          (log_order objid version lastobj r) in
    let logged_last = logged.last objid in
    record (set_last objid (record logged_last { memop = pos logged.memop }) logged) {
      memop = logged.memop + 1;
    }

-- The end of `mem_write`. It leaves the version of the last access as it was.
unfoldable pub note_write : ℕ → ℕ → Recorder → Recorder
unfolding log_order
note_write objid version r =
    let lastobj = r.last objid in
    let logged = if lastobj.version == version then r else log_order objid version lastobj r in
    let logged_last = logged.last objid in
    record (set_last objid (record logged_last { memop = minus_one }) logged) {
      memop = logged.memop + 1;
    }

unfoldable pub note_access : Access → Recorder → Recorder
unfolding note_read note_write
note_access a r = elim (a.op) [
  | rd ↦ note_read a.objid a.version r
  | wr ↦ note_write a.objid a.version r
]

-- A thread's accesses in program order.
unfoldable pub note_all : List Access → Recorder → Recorder
note_all [] r = r
note_all (a ∷ xs) r = note_all xs (note_access a r)

-- The loop of `mem_finish_thr` over the objects from `i` on, `n` of them.
unfoldable pub finish_from : ℕ → ℕ → Recorder → Recorder
finish_from i zero r = r
finish_from i (suc n) r = finish_from (suc i) n (log_last_read i (r.last i) r)

unfoldable pub mem_finish_thr : ℕ → Recorder → Recorder
unfolding finish_from mark_log_end
mem_finish_thr nobj r = mark_log_end (finish_from 0 nobj r)

-- A whole run of one thread over `nobj` objects.
unfoldable pub record_thread : ℕ → List Access → Recorder
unfolding note_all mem_finish_thr
record_thread nobj xs = mem_finish_thr nobj (note_all xs mem_init_thr)
