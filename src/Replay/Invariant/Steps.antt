-- ===== src/Replay/Invariant/Steps.antt =====
-- mem-replay.c: the parts of the invariant that concern several threads, under a step of one.
use mem_order.Base.{
  ℕ, ◌+◌, ◌≤◌, ◌<◌, ◌≡◌, ◌≢◌, inl, inr, true, false, List, some, get_elem?, arith, subst, sym,
  ℕ_discrete, update, ◌==◌, Bool-cases, ==_iff,
}
use mem_order.Mem.{ReplayWaitMemop}
use mem_order.Trace.{Op, wr, Op-cases, access}
use mem_order.Trace.Order.{Recording}
use mem_order.Replay.Defs.{
  ReplayWaitMemopLog, Pc, searching, wait_for, bumped, Player, State, set_player, set_reader_log,
}
use mem_order.Replay.Logs.{MergedLogs}
use mem_order.Replay.Invariant.Defs.{
  ThreadInv, LogInv, Current, Inv, Waited, Searching, holds_version, is_cleared, is_searching,
  finished,
}
use mem_order.Replay.Invariant.Readers.{Bounded, readers_done}

-- A property of all entries of a table after entry `i` has become `a`.
pub update_all {ℓ κ} :
    {A : Type ℓ} (P : ℕ → A → Type κ) (f : ℕ → A) (i : ℕ) (a : A)
    → P i a
    → ((j : ℕ) → j ≢ i → P j (f j))
    → (j : ℕ) → P j (update f i a j)
update_all P f i a here there j = elim (Bool-cases (i == j)) [
  | inl e ↦ rw e (subst (λ x. P x a) ((==_iff i j).0 e) here)
  | inr e ↦ rw e (there j (ground arith))
]

module _ (r : Recording) (thread : ℕ → Player) (t : ℕ) (p : Player) where
  -- The thread goes on, and leaves the loop of `wait_reader` only when the entry is past.
  pub Waited-update :
      (o : ℕ) (e : ReplayWaitMemop)
      → (thread t).memop ≤ p.memop
      → ((thread t).pc ≡ wait_for e → e.memop < (thread e.tid).memop)
      → Waited r thread o e
      → Waited r (update thread t p) o e
  Waited-update o e le leave (inl past) = inl (ground arith)
  Waited-update o e le leave (inr (u, v, pc, cur)) = elim (ℕ_discrete t u) [
    | yes same ↦ inl (ground (arith, leave (rw same pc)))
    | no other ↦ inr (u, v, ground arith, ground arith)
  ]

  pub Searching-update :
      (o : ℕ)
      → ((v : ℕ) → (thread t).pc ≡ searching → ¬ Current r t (thread t) wr o v)
      → Searching r thread o
      → Searching r (update thread t p) o
  Searching-update o elsewhere (u, v, pc, cur) = elim (ℕ_discrete t u) [
    | yes same ↦ absurd (elsewhere v (rw same pc) (rw same cur))
    | no other ↦ (u, v, ground arith, ground arith)
  ]

  pub LogInv-update :
      {merged : ℕ → List ReplayWaitMemop} {ver : ℕ} {l : ReplayWaitMemopLog} (o : ℕ)
      → (thread t).memop ≤ p.memop
      → ((e : ReplayWaitMemop) → (thread t).pc ≡ wait_for e → e.memop < (thread e.tid).memop)
      → ((v : ℕ) → (thread t).pc ≡ searching → ¬ Current r t (thread t) wr o v)
      → LogInv r merged ver l thread o
      → LogInv r merged ver l (update thread t p) o
  LogInv-update o le leave elsewhere inv = record {
    same_log = inv.same_log;
    sized = inv.sized;
    ahead = inv.ahead;
    behind = λ i e lt g. Waited-update o e le (leave e) (inv.behind i e lt g);
    locked = λ m. Searching-update o elsewhere (inv.locked m);
  }

-- A step of thread `t` to `p` that changes no version and no log.
pub set_player-Inv :
    {r : Recording} {merged : ℕ → List ReplayWaitMemop} (s : State) (t : ℕ) (p : Player)
    → Inv r merged s
    → ThreadInv r s.obj_version s.wait_reader_log t p
    → (s.thread t).memop ≤ p.memop
    → is_searching (s.thread t).pc ≡ false
    → ((e : ReplayWaitMemop) → (s.thread t).pc ≡ wait_for e → e.memop < (s.thread e.tid).memop)
    → Inv r merged (set_player s t p)
set_player-Inv {r} {merged} s t p inv mine le quiet leave = record {
  threads =
      update_all (λ u q. ThreadInv r s.obj_version s.wait_reader_log u q) s.thread t p mine
        (λ u ne. inv.threads u);
  logs = λ o.
      LogInv-update r s.thread t p o le leave
        (λ v w c. let loud : is_searching (s.thread t).pc ≡ true = rw w in cc) (inv.logs o);
}

-- A log of the same entries, searched no less far, keeps a thread's part.
pub ThreadInv-log :
    {r : Recording} {ver : ℕ → ℕ} {logs : ℕ → ReplayWaitMemopLog} {t : ℕ} {p : Player} (o : ℕ)
    (l : ReplayWaitMemopLog)
    → l.log ≡ (logs o).log
    → (logs o).n ≤ l.n
    → ThreadInv r ver logs t p
    → ThreadInv r ver (update logs o l) t p
ThreadInv-log {logs} o l same le inv = record {
  sane = inv.sane;
  upper = inv.upper;
  last = inv.last;
  at_version = inv.at_version;
  past_version = inv.past_version;
  writing = inv.writing;
  reading = inv.reading;
  cleared = λ o' v i e c h lt g. inv.cleared o' v i e c h (ground arith) (ground arith);
  shows = inv.shows;
  arrived_at = inv.arrived_at;
}

memop-le-finished : (pc : Pc) (m : ℕ) → m ≤ finished pc m
memop-le-finished bumped m = omega arith
memop-le-finished _ m = omega arith

finished_holds : (pc : Pc) (m : ℕ) → holds_version pc ≡ true → finished pc m ≤ m
finished_holds bumped m h = absurd (cc)
finished_holds _ m h = omega arith

-- A new version of `o` that no access to come has gone past keeps a thread's part.
pub ThreadInv-bump :
    {r : Recording} {ver : ℕ → ℕ} {logs : ℕ → ReplayWaitMemopLog} {t : ℕ} {p : Player} (o : ℕ)
    → ((m : ℕ) (op : Op) (v : ℕ)
        → finished p.pc p.memop ≤ m
        → get_elem? (r.accesses t) m ≡ some (access op o v)
        → ver o + 2 ≤ v)
    → ThreadInv r ver logs t p
    → ThreadInv r (update ver o (ver o + 2)) logs t p
ThreadInv-bump {r} {ver} {t} {p} o later inv = record {
  sane = inv.sane;
  upper = upper;
  last = λ o'. ground (arith, inv.last o');
  at_version = λ op o' v c h.
      ground (
        arith,
        upper p.memop op o' v (finished_holds p.pc p.memop h) c,
        inv.at_version op o' v c h,
      );
  past_version = λ op o' v c h. ground (arith, inv.past_version op o' v c h);
  writing = inv.writing;
  reading = inv.reading;
  cleared = inv.cleared;
  shows = inv.shows;
  arrived_at = inv.arrived_at;
}
  where
    upper :
        (m : ℕ) (op : Op) (o' v : ℕ)
        → finished p.pc p.memop ≤ m
        → get_elem? (r.accesses t) m ≡ some (access op o' v)
        → update ver o (ver o + 2) o' ≤ v
    upper m op o' v le g = elim (ℕ_discrete o o') [
      | yes same ↦
          let b : ver o + 2 ≤ v =
            later m op v le
              (subst (λ x. get_elem? (r.accesses t) m ≡ some (access op x v)) (sym same) g) in
          ground arith
      | no other ↦ let b = inv.upper m op o' v le g in ground arith
    ]

-- `obj_version[objid] += 2` by thread `t`: what it leaves to other threads comes later.
module _ {r : Recording} {nobj : ℕ} {merged : ℕ → List ReplayWaitMemop}
    (logs : MergedLogs r nobj merged) (bounded : Bounded r nobj) (s : State) (inv : Inv r merged s)
    (t o v : ℕ) (cur : Current r t (s.thread t) wr o v) (clear : is_cleared (s.thread t).pc ≡ true)
    (here : s.obj_version o ≡ v) where
  pub later_versions :
      (u m : ℕ) (op : Op) (w : ℕ)
      → finished (s.thread u).pc (s.thread u).memop ≤ m
      → ((u ≡ t) → m ≢ (s.thread t).memop)
      → get_elem? (r.accesses u) m ≡ some (access op o w)
      → s.obj_version o + 2 ≤ w
  later_versions u m op w le other g = elim (ℕ_discrete v w) [
    | no ne ↦ omega (
      arith,
      r.even u m op o w g,
      r.even t (s.thread t).memop wr o v cur,
      (inv.threads u).upper m op o w le g,
    )
    | yes same ↦
        let g' : get_elem? (r.accesses u) m ≡ some (access op o v) =
          subst (λ x. get_elem? (r.accesses u) m ≡ some (access op o x)) (sym same) g in
        absurd (elim (Op-cases op) [
          | inl is_rd ↦
              let past = readers_done logs bounded s inv t o v cur clear u m (rw is_rd at g') in
              omega (arith, memop-le-finished (s.thread u).pc (s.thread u).memop)
          | inr is_wr ↦
              let (st, sm) = r.write_once u t m (s.thread t).memop o v (rw is_wr at g') cur in
              other st sm
        ])
  ]

-- A step of thread `t` from `searching`, or to it, which changes the log of the object `o`.
pub reader_step :
    {r : Recording} {merged : ℕ → List ReplayWaitMemop} (s : State) (t : ℕ) (p : Player) (o v : ℕ)
    (l : ReplayWaitMemopLog)
    → Inv r merged s
    → Current r t (s.thread t) wr o v
    → (s.thread t).memop ≤ p.memop
    → ((e : ReplayWaitMemop) → (s.thread t).pc ≢ wait_for e)
    → l.log ≡ (s.wait_reader_log o).log
    → (s.wait_reader_log o).n ≤ l.n
    → ThreadInv r s.obj_version s.wait_reader_log t p
    → LogInv r merged (s.obj_version o) l (update s.thread t p) o
    → Inv r merged (set_player (set_reader_log s o l) t p)
reader_step {r} {merged} s t p o v l inv cur le busy same further mine here = record {
  threads =
      update_all (λ u q. ThreadInv r s.obj_version (update s.wait_reader_log o l) u q) s.thread t p
        (ThreadInv-log o l same further mine)
        (λ u ne. ThreadInv-log o l same further (inv.threads u));
  logs =
      update_all (λ o' k. LogInv r merged (s.obj_version o') k (update s.thread t p) o')
        s.wait_reader_log o l here
        (λ o' ne.
          LogInv-update r s.thread t p o' le (λ e w. absurd (busy e w))
            (λ w pc c. ne (ground arith)) (inv.logs o'));
}
