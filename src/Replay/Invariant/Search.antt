-- ===== src/Replay/Invariant/Search.antt =====
-- mem-replay.c: `next_reader_memop` keeps the invariant, and never finds its mutex held.
use mem_order.Base.{
  ◌∷◌, zero, ◌-◌, ℕ, suc, ◌+◌, ◌≤◌, ◌<◌, ◌≡◌, ◌≢◌, ◌⊎◌, inl, inr, true, false, List, [], some,
  get_elem?, arith, refl, subst, ap, dec_lt, update, ◌==◌, Bool-cases, leb, ltb_ℤ, pos, minus_one,
  length,
}
use mem_order.Mem.{ReplayWaitMemop}
use mem_order.Trace.{wr, access}
use mem_order.Trace.Order.{Recording}
use mem_order.Replay.Defs.{
  ReplayWaitMemopLog, Pc, scan, searching, wait_for, ready, Player, State, Call, op_of, objid, goto,
  set_reader_log, lock_reader_log, next_reader_memop,
}
use mem_order.Replay.Logs.{MergedLogs}
use mem_order.Replay.Waits.{Shows, entries_from}
use mem_order.Replay.Invariant.Defs.{
  is_aborted, is_bumped, is_reading, is_arrived, ThreadInv, Current, Inv, Waited, is_cleared,
  finished, upcoming,
}
use mem_order.Replay.Invariant.Threads.{move}
use mem_order.Replay.Invariant.Readers.{same_writer}
use mem_order.Replay.Invariant.Steps.{Waited-update, reader_step}

-- What a test of `n` against `size` says of the log.
get_elem?-in_range :
    (es : List ReplayWaitMemop) (n : ℕ)
    → n < length es
    → (e : ReplayWaitMemop) × (get_elem? es n ≡ some e)
get_elem?-in_range [] n h = absurd (omega arith)
get_elem?-in_range (e ∷ es) zero h = (e, refl)
get_elem?-in_range (e ∷ es) (suc n) h = get_elem?-in_range es n (omega arith)

get_elem?-past :
    (es : List ReplayWaitMemop) (n i : ℕ) (e : ReplayWaitMemop)
    → length es ≤ n
    → n ≤ i
    → get_elem? es i ≢ some e
get_elem?-past [] n i e h le q = cc
get_elem?-past (x ∷ es) n zero e h le q = absurd (omega arith)
get_elem?-past (x ∷ es) n (suc i) e h le q =
    get_elem?-past es (n - 1) i e (omega arith) (omega arith) q

module _ (l : ReplayWaitMemopLog) where
  abbrev Sized : Type 0
  Sized = (l.size ≡ pos (length l.log)) ⊎ ((l.log ≡ []) × (l.size ≡ minus_one))

  in_size : Sized → ltb_ℤ (pos l.n) l.size ≡ true → l.n < length l.log
  in_size (inl whole) h = ground arith
  in_size (inr none_left) h = ground arith

  past_size :
      Sized
      → ltb_ℤ (pos l.n) l.size ≡ false
      → (i : ℕ) (e : ReplayWaitMemop) → l.n ≤ i
      → get_elem? l.log i ≢ some e
  past_size (inl whole) h i e le q = get_elem?-past l.log l.n i e (ground arith) le q
  past_size (inr (nothing, size)) h i e le q =
      let q' : get_elem? {A = ReplayWaitMemop} [] i ≡ some e = rw nothing at q in cc

module _ {r : Recording} {merged : ℕ → List ReplayWaitMemop} (s : State) (inv : Inv r merged s)
    (t : ℕ) (call : Call) (v : ℕ) (cur : Current r t (s.thread t) (op_of call) (objid call) v)
    (is_wr : op_of call ≡ wr) (here : s.obj_version (objid call) ≡ v) where
  abbrev p : Player
  p = s.thread t

  abbrev o : ℕ
  o = objid call

  abbrev l : ReplayWaitMemopLog
  l = s.wait_reader_log o

  wr_cur : Current r t (s.thread t) wr o v
  wr_cur = subst (λ x. get_elem? (r.accesses t) p.memop ≡ some (access x o v)) is_wr cur

  -- What the three outcomes have in common.
  inside :
      (pc' : Pc)
      → finished p.pc p.memop ≡ p.memop
      → upcoming p.pc p.memop ≡ upcoming pc' p.memop
      → is_aborted pc' ≡ false
      → is_bumped pc' ≡ false
      → is_reading pc' ≡ false
      → is_arrived pc' ≡ false
      → (is_cleared pc' ≡ true
          → (i : ℕ) (e : ReplayWaitMemop) → l.n ≤ i
          → get_elem? l.log i ≡ some e
          → e.version ≢ v)
      → ThreadInv r s.obj_version s.wait_reader_log t (record p { pc = pc' })
  inside pc' f u a b c d clear =
      move r s.obj_version s.wait_reader_log t p (inv.threads t) call v cur pc' _ _ a b f
        (λ _. here) (λ _. is_wr) (λ h. cc) (λ _. clear)
        (subst (λ m. Shows p.wait_version p.wait_version_log (entries_from (r.accesses t) m)) u
          (inv.threads t).shows)
        (λ h. cc)

  pub lock_reader_log-Inv : p.pc ≡ scan → Inv r merged (lock_reader_log s t call)
  unfolding lock_reader_log
  lock_reader_log-Inv q = elim (Bool-cases l.mutex) [
    | inl held ↦
        let (u, w, pc, cu) = (inv.logs o).locked held in
        let same : t ≡ u = same_writer s inv t u o v w (rw q) (rw pc) wr_cur cu in
        absurd (ground (arith, ap (λ x. (s.thread x).pc) same))
    | inr free ↦ rw free (
        reader_step s t _ o v _ inv wr_cur (omega arith) (λ e w. ground arith) refl (omega arith)
          (inside searching (rw q) (rw q) refl refl refl refl (λ h. cc))
          (record {
            same_log = (inv.logs o).same_log;
            sized = (inv.logs o).sized;
            ahead = (inv.logs o).ahead;
            behind = λ i e lt g.
                Waited-update r s.thread t _ o e (omega arith) (λ w. absurd (ground arith))
                  ((inv.logs o).behind i e lt g);
            locked = λ m. (t, v, ground arith, ground (arith, wr_cur));
          }))
  ]

  -- The search returns NULL, and the write goes on.
  no_reader :
      p.pc ≡ searching
      → ((i : ℕ) (e : ReplayWaitMemop) → l.n ≤ i → get_elem? l.log i ≡ some e → e.version ≢ v)
      → Inv r merged (goto (set_reader_log s o (record l { mutex = false })) t ready)
  no_reader q clear =
      reader_step s t _ o v _ inv wr_cur (omega arith) (λ e w. ground arith) refl (omega arith)
        (inside ready (rw q) (rw q) refl refl refl refl (λ _. clear))
        (record {
          same_log = (inv.logs o).same_log;
          sized = (inv.logs o).sized;
          ahead = (inv.logs o).ahead;
          behind = λ i e lt g.
              Waited-update r s.thread t _ o e (omega arith) (λ w. absurd (ground arith))
                ((inv.logs o).behind i e lt g);
          locked = λ m. cc;
        })

  -- The search returns the next entry, which the write waits for.
  found_reader :
      p.pc ≡ searching
      → (e : ReplayWaitMemop) → get_elem? l.log l.n ≡ some e
      → Inv r merged
          (goto (set_reader_log s o (record l { n = l.n + 1; mutex = false })) t (wait_for e))
  found_reader q e found =
      reader_step s t _ o v _ inv wr_cur (omega arith) (λ e w. ground arith) refl (omega arith)
        (inside (wait_for e) (rw q) (rw q) refl refl refl refl (λ h. cc))
        (record {
          same_log = (inv.logs o).same_log;
          sized = (inv.logs o).sized;
          ahead = λ i e' le g. (inv.logs o).ahead i e' (omega arith) g;
          behind = behind;
          locked = λ m. cc;
        })
    where
      p' : Player
      p' = record p { pc = wait_for e }

      behind :
          (i : ℕ) (e' : ReplayWaitMemop)
          → i < l.n + 1
          → get_elem? l.log i ≡ some e'
          → Waited r (update s.thread t p') o e'
      behind i e' lt g = elim (dec_lt i l.n) [
        | yes old ↦
            Waited-update r s.thread t p' o e' (omega arith) (λ w. absurd (ground arith))
              ((inv.logs o).behind i e' old g)
        | no new ↦
            let at : i ≡ l.n = omega arith in inr (t, v, ground arith, ground (arith, wr_cur))
      ]

module _ {r : Recording} {nobj : ℕ} {merged : ℕ → List ReplayWaitMemop}
    (logs : MergedLogs r nobj merged) (s : State) (inv : Inv r merged s) (t : ℕ) (call : Call)
    (v : ℕ) (cur : Current r t (s.thread t) (op_of call) (objid call) v) (is_wr : op_of call ≡ wr)
    (here : s.obj_version (objid call) ≡ v) (q : (s.thread t).pc ≡ searching) where
  -- Entries from the next one on are at its version or above it.
  pub beyond :
      (e : ReplayWaitMemop)
      → get_elem? (s.wait_reader_log (objid call)).log (s.wait_reader_log (objid call)).n ≡ some e
      → (s.obj_version (objid call) == e.version) ≡ false
      → (i : ℕ) (f : ReplayWaitMemop) → (s.wait_reader_log (objid call)).n ≤ i
      → get_elem? (s.wait_reader_log (objid call)).log i ≡ some f
      → f.version ≢ v
  beyond e found ne i f le g =
      let n = (s.wait_reader_log (objid call)).n in
      let same = (inv.logs (objid call)).same_log in
      ground (
        arith,
        (inv.logs (objid call)).ahead n e (omega arith) found,
        logs.sorted (objid call) n i e f le (rw same at found) (rw same at g),
      )

  pub next_reader_memop-Inv : Inv r merged (next_reader_memop s t call)
  unfolding next_reader_memop
  next_reader_memop-Inv =
      let k = s.wait_reader_log (objid call) in
      elim (Bool-cases (ltb_ℤ (pos k.n) k.size)) [
        | inr over ↦ rw over (
            no_reader s inv t call v cur is_wr here q
              (λ i e le g. absurd (past_size k (inv.logs (objid call)).sized over i e le g)))
        | inl room ↦
            let (e, found) =
              get_elem?-in_range k.log k.n (in_size k (inv.logs (objid call)).sized room) in
            let le = (inv.logs (objid call)).ahead k.n e (omega arith) found in
            let test : leb (s.obj_version (objid call)) e.version ≡ true = ground arith in
            elim (Bool-cases (s.obj_version (objid call) == e.version)) [
              | inl now ↦
                  rw (room, found, test, now) (found_reader s inv t call v cur is_wr here q e found)
              | inr later ↦
                  rw (room, found, test, later)
                    (no_reader s inv t call v cur is_wr here q (beyond e found later))
            ]
      ]
