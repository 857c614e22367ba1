-- ===== src/Replay/Invariant/Access.antt =====
-- mem-replay.c: the access itself, `obj_version[objid] += 2` and the end of a call keep the
-- invariant.
use mem_order.Base.{
  ◌%◌, ℕ, suc, ◌+◌, ◌≤◌, ◌≡◌, ◌≢◌, ◌⊎◌, inl, inr, List, some, get_elem?, arith, refl, subst, sym,
  ℕ_discrete, update,
}
use mem_order.Mem.{ReplayWaitMemop}
use mem_order.Trace.{Op, rd, wr, access}
use mem_order.Trace.Order.{Recording}
use mem_order.Record.Reads.{read_log}
use mem_order.Record.Origin.{logged-LogsRead}
use mem_order.Replay.Defs.{
  ready, loaded, stored, bumped, Player, State, Call, read, write, op_of, objid, touch,
  bump_version, finish_call,
}
use mem_order.Replay.Logs.{MergedLogs}
use mem_order.Replay.Invariant.Defs.{ThreadInv, LogInv, Current, Inv, finished}
use mem_order.Replay.Invariant.Threads.{move, finish_call-ThreadInv}
use mem_order.Replay.Invariant.Readers.{Bounded}
use mem_order.Replay.Invariant.Steps.{LogInv-update, update_all, ThreadInv-bump, later_versions}
use mem_order.Replay.Invariant.Turns.{quiet_step, shown}

-- The invariant says nothing of the memory.
Inv-memory :
    {r : Recording} {merged : ℕ → List ReplayWaitMemop} (s : State) (memory : ℕ → ℕ)
    → Inv r merged s
    → Inv r merged (record s { memory = memory })
Inv-memory s memory inv = record { threads = inv.threads; logs = inv.logs }

module _ {r : Recording} {merged : ℕ → List ReplayWaitMemop} (s : State) (inv : Inv r merged s)
    (t : ℕ) where
  pub touch-Inv :
      (call : Call) (v : ℕ)
      → Current r t (s.thread t) (op_of call) (objid call) v
      → (s.thread t).pc ≡ ready
      → Inv r merged (touch s t call)
  unfolding touch
  touch-Inv (read o) v cur q = quiet_step s inv t (read o) v cur _ (rw q) (omega arith) (
      move r s.obj_version s.wait_reader_log t (s.thread t) (inv.threads t) (read o) v cur _ _ _
        refl refl (rw q) (λ _. (inv.threads t).at_version rd o v cur (rw q)) (λ h. cc) (λ h. refl)
        (λ _ h. cc) (shown s inv t (read o) v cur ready q) (λ h. cc))
  touch-Inv (write o x) v cur q =
      quiet_step (record s { memory = update s.memory o x }) (Inv-memory s _ inv) t (write o x) v
        cur _ (rw q) (omega arith)
        (move r s.obj_version s.wait_reader_log t (s.thread t) (inv.threads t) (write o x) v cur _ _
          _ refl refl (rw q) (λ _. (inv.threads t).at_version wr o v cur (rw q)) (λ h. refl)
          (λ h. cc) (λ _ _ i e le g. (inv.threads t).cleared o v i e cur (rw q) le g)
          (shown s inv t (write o x) v cur ready q) (λ h. cc))

  pub finish_call-Inv :
      (call : Call) (v : ℕ) (reads : List ℕ)
      → Current r t (s.thread t) (op_of call) (objid call) v
      → ((x : ℕ) × ((s.thread t).pc ≡ loaded x)) ⊎ ((s.thread t).pc ≡ bumped)
      → Inv r merged (finish_call s t call reads)
  unfolding finish_call
  finish_call-Inv call v reads cur (inl (x, q)) =
      quiet_step s inv t call v cur _ (rw q) (omega arith) (
        finish_call-ThreadInv r s.obj_version s.wait_reader_log t (s.thread t) (inv.threads t) call
          v cur reads (rw q)
          (omega (arith, (inv.threads t).at_version (op_of call) (objid call) v cur (rw q))))
  finish_call-Inv call v reads cur (inr q) = quiet_step s inv t call v cur _ (rw q) (omega arith) (
      finish_call-ThreadInv r s.obj_version s.wait_reader_log t (s.thread t) (inv.threads t) call v
        cur reads (rw q) ((inv.threads t).past_version (op_of call) (objid call) v cur (rw q)))

module _ {r : Recording} {nobj : ℕ} {merged : ℕ → List ReplayWaitMemop}
    (logs : MergedLogs r nobj merged) (bounded : Bounded r nobj) (s : State) (inv : Inv r merged s)
    (t o v : ℕ) (cur : Current r t (s.thread t) wr o v) (q : (s.thread t).pc ≡ stored) where
  abbrev p : Player
  p = s.thread t

  here : s.obj_version o ≡ v
  here = (inv.threads t).at_version wr o v cur (rw q)

  later :
      (u m : ℕ) (op : Op) (w : ℕ)
      → finished (s.thread u).pc (s.thread u).memop ≤ m
      → ((u ≡ t) → m ≢ p.memop)
      → get_elem? (r.accesses u) m ≡ some (access op o w)
      → s.obj_version o + 2 ≤ w
  later = later_versions logs bounded s inv t o v cur (rw q) here

  bumped-ThreadInv :
      ThreadInv r
        (update s.obj_version o (s.obj_version o + 2))
        s.wait_reader_log
        t
        (record p { pc = bumped })
  bumped-ThreadInv = record {
    sane = refl;
    upper = upper;
    last = λ o'. ground (arith, (inv.threads t).last o');
    at_version = λ op o' w c h. cc;
    past_version = λ op o' w c h. ground (arith, here);
    writing = λ op o' w c h. ground arith;
    reading = λ op o' w c h. cc;
    cleared = λ o' w i e c h. cc;
    shows = shown s inv t (write o 0) v cur stored q;
    arrived_at = λ h. cc;
  }
    where
      upper :
          (m : ℕ) (op : Op) (o' w : ℕ)
          → suc p.memop ≤ m
          → get_elem? (r.accesses t) m ≡ some (access op o' w)
          → update s.obj_version o (s.obj_version o + 2) o' ≤ w
      upper m op o' w le g = elim (ℕ_discrete o o') [
        | yes same ↦
            let b : s.obj_version o + 2 ≤ w =
              later t m op w (ground (arith, q)) (λ _. omega arith)
                (subst (λ x. get_elem? (r.accesses t) m ≡ some (access op x w)) (sym same) g) in
            ground arith
        | no other ↦
            let b : s.obj_version o' ≤ w = (inv.threads t).upper m op o' w (ground (arith, q)) g in
            ground arith
      ]

  -- An entry of the merged log has an even version.
  entry_even :
      (i : ℕ) (e : ReplayWaitMemop)
      → get_elem? (s.wait_reader_log o).log i ≡ some e
      → e.version % 2 ≡ 0
  entry_even i e g =
      elim (logged-LogsRead nobj (r.accesses e.tid) (read_log o e.version e.memop)
        (logs.origin o i e (rw (inv.logs o).same_log at g))) [
          | inl (o', w, k, same, h) ↦
              let sv : w ≡ e.version = ground arith in
              subst (λ x. x % 2 ≡ 0) sv (r.even e.tid k rd o' w h)
          | inr last ↦ absurd (cc)
        ]

  bumped-ahead :
      (i : ℕ) (e : ReplayWaitMemop)
      → (s.wait_reader_log o).n ≤ i
      → get_elem? (s.wait_reader_log o).log i ≡ some e
      → s.obj_version o + 2 ≤ e.version
  bumped-ahead i e le g = omega (
    arith,
    here,
    (inv.logs o).ahead i e le g,
    (inv.threads t).cleared o v i e cur (rw q) le g,
    entry_even i e g,
    r.even t p.memop wr o v cur,
  )

  bumped-LogInv :
      (o' : ℕ)
      → LogInv r merged
          (update s.obj_version o (s.obj_version o + 2) o')
          (s.wait_reader_log o')
          (update s.thread t (record p { pc = bumped }))
          o'
  bumped-LogInv o' =
      let kept : LogInv r merged (s.obj_version o') (s.wait_reader_log o')
          (update s.thread t (record p { pc = bumped })) o' =
        LogInv-update r s.thread t _ o' (omega arith) (λ e w. absurd (ground arith))
          (λ w pc c. ground arith) (inv.logs o') in
      record {
        same_log = kept.same_log;
        sized = kept.sized;
        ahead = ahead;
        behind = kept.behind;
        locked = kept.locked;
      }
    where
      ahead :
          (i : ℕ) (e : ReplayWaitMemop)
          → (s.wait_reader_log o').n ≤ i
          → get_elem? (s.wait_reader_log o').log i ≡ some e
          → update s.obj_version o (s.obj_version o + 2) o' ≤ e.version
      ahead i e le g = elim (ℕ_discrete o o') [
        | yes same ↦
            let b : s.obj_version o + 2 ≤ e.version = bumped-ahead i e (rw same le) (rw same g) in
            ground arith
        | no other ↦ let b = (inv.logs o').ahead i e le g in ground arith
      ]

  pub bump_version-Inv : (call : Call) → objid call ≡ o → Inv r merged (bump_version s t call)
  unfolding bump_version
  bump_version-Inv call e = rw e (record {
    threads =
        update_all
          (λ u k. ThreadInv r (update s.obj_version o (s.obj_version o + 2)) s.wait_reader_log u k)
          s.thread t (record p { pc = bumped }) bumped-ThreadInv
          (λ u ne.
            ThreadInv-bump o (λ m op w le g. later u m op w le (λ same. absurd (ne same)) g)
              (inv.threads u));
    logs = bumped-LogInv;
  })
