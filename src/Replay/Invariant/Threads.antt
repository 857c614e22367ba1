-- ===== src/Replay/Invariant/Threads.antt =====
-- mem-replay.c: the steps of one thread that leave the versions and the merged logs alone keep
-- the thread's part of the invariant.
use mem_order.Base.{
  ℕ, suc, ◌≤◌, ◌≡◌, ◌≢◌, true, false, List, pos, some, get_elem?, arith, refl, subst, sym,
}
use mem_order.Mem.{ReplayWaitMemop, WaitVersion}
use mem_order.Trace.{Op, rd, wr, access}
use mem_order.Trace.Order.{Recording}
use mem_order.Record.Emit.{last-note_access, last_after}
use mem_order.Replay.Defs.{
  ReplayWaitMemopLog, Pc, start, scan, ready, bumped, Player, Call, read, write, after_wait, op_of,
  objid,
}
use mem_order.Replay.Waits.{recorded, recorded-suc, entries_from, Shows}
use mem_order.Replay.Invariant.Defs.{
  is_aborted, ThreadInv, Current, upcoming, finished, holds_version, is_writing, is_reading,
  is_cleared, is_arrived, is_bumped,
}

finished-le : (pc : Pc) (m : ℕ) → finished pc m ≤ suc m
finished-le bumped m = omega arith
finished-le _ m = omega arith

module _ (r : Recording) (ver : ℕ → ℕ) (logs : ℕ → ReplayWaitMemopLog) (t : ℕ) (p : Player)
    (inv : ThreadInv r ver logs t p) (call : Call) (v : ℕ)
    (cur : Current r t p (op_of call) (objid call) v) where
  -- There is one current access.
  pub same_access :
      {op : Op} {o w : ℕ} → Current r t p op o w → (op ≡ op_of call) × (o ≡ objid call) × (w ≡ v)
  same_access c = ground arith

  clear-at :
      (o w i : ℕ) (e : ReplayWaitMemop)
      → o ≡ objid call
      → w ≡ v
      → ((i : ℕ) (e : ReplayWaitMemop)
          → (logs (objid call)).n ≤ i
          → get_elem? (logs (objid call)).log i ≡ some e
          → e.version ≢ v)
      → (logs o).n ≤ i
      → get_elem? (logs o).log i ≡ some e
      → e.version ≢ w
  clear-at o w i e so sw clear = rw (so, sw) (clear i e)

  last-finish_call :
      v ≤ ver (objid call)
      → (o : ℕ) → ((recorded (r.accesses t) (suc p.memop)).last o).version ≤ ver o
  unfolding last_after
  last-finish_call le o =
      let m = p.memop in
      let a = access (op_of call) (objid call) v in
      rw (recorded-suc (r.accesses t) m cur)
        (ground (arith, last-note_access a (recorded (r.accesses t) m) o, inv.last o))

  -- A step to `pc'` inside the same call.
  pub move :
      (pc' : Pc) (wv : WaitVersion) (rest : List WaitVersion)
      → is_aborted pc' ≡ false
      → is_bumped pc' ≡ false
      → finished p.pc p.memop ≡ p.memop
      → (holds_version pc' ≡ true → ver (objid call) ≡ v)
      → (is_writing pc' ≡ true → op_of call ≡ wr)
      → (is_reading pc' ≡ true → op_of call ≡ rd)
      → (op_of call ≡ wr
          → is_cleared pc' ≡ true
          → (i : ℕ) (e : ReplayWaitMemop) → (logs (objid call)).n ≤ i
          → get_elem? (logs (objid call)).log i ≡ some e
          → e.version ≢ v)
      → Shows wv rest (entries_from (r.accesses t) (upcoming pc' p.memop))
      → (is_arrived pc' ≡ true → wv.memop ≡ pos p.memop)
      → ThreadInv r ver logs t (record p { pc = pc'; wait_version = wv; wait_version_log = rest })
  move pc' wv rest sane bump f holds writes reads clear sh arr = record {
    sane = sane;
    upper = λ m op o w le c. inv.upper m op o w (ground arith) c;
    last = inv.last;
    at_version = λ op o w c h. ground (arith, same_access c, holds h);
    past_version = λ op o w c h. cc;
    writing = λ op o w c h. ground (arith, same_access c, writes h);
    reading = λ op o w c h. ground (arith, same_access c, reads h);
    cleared = λ o w i e c h le g.
        clear-at o w i e (same_access c).1 (same_access c).2 (clear (sym (same_access c).0) h) le g;
    shows = sh;
    arrived_at = arr;
  }

  -- The end of the call.
  pub finish_call-ThreadInv :
      (reads : List ℕ)
      → suc p.memop ≡ upcoming p.pc p.memop
      → v ≤ ver (objid call)
      → ThreadInv r ver logs t (record p { pc = start; memop = suc p.memop; reads = reads })
  finish_call-ThreadInv reads q le = record {
    sane = refl;
    upper = λ m op o w lt c. inv.upper m op o w (omega (arith, finished-le p.pc p.memop)) c;
    last = last-finish_call le;
    at_version = λ op o w c h. cc;
    past_version = λ op o w c h. cc;
    writing = λ op o w c h. cc;
    reading = λ op o w c h. cc;
    cleared = λ o w i e c h. cc;
    shows =
        subst (λ n. Shows p.wait_version p.wait_version_log (entries_from (r.accesses t) n)) (sym q)
          inv.shows;
    arrived_at = λ h. cc;
  }

-- Past the wait for the version, in `wait_reader` or before the access of a read.
pub past_wait :
    (r : Recording) (ver : ℕ → ℕ) (logs : ℕ → ReplayWaitMemopLog) (t : ℕ) (p : Player)
    → ThreadInv r ver logs t p
    → (call : Call) (v : ℕ) → Current r t p (op_of call) (objid call) v
    → (wv : WaitVersion) (rest : List WaitVersion) → finished p.pc p.memop ≡ p.memop
    → ver (objid call) ≡ v
    → Shows wv rest (entries_from (r.accesses t) (suc p.memop))
    → ThreadInv r ver logs t
        (record p { pc = after_wait call; wait_version = wv; wait_version_log = rest })
past_wait r ver logs t p inv (read o) v cur wv rest f e sh =
    move r ver logs t p inv (read o) v cur ready wv rest refl refl f (λ _. e) (λ h. cc) (λ h. cc)
      (λ q. absurd (ground arith)) sh (λ h. cc)
past_wait r ver logs t p inv (write o x) v cur wv rest f e sh =
    move r ver logs t p inv (write o x) v cur scan wv rest refl refl f (λ _. e) (λ h. refl)
      (λ h. cc) (λ q h. absurd (ground arith)) sh (λ h. cc)
