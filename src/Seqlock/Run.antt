-- ===== src/Seqlock/Run.antt =====
-- A run of the recorders is a run of atomic calls.
use mem_order.Base.{
  ℕ, ◌+◌, ◌%◌, ◌==◌, ◌≡◌, Bool, true, false, List, [], ◌∷◌, ◌++◌, arith, refl, sym, ap, ◌∙◌,
  Bool-cases, inl, inr, some, update, subst, Option-cases,
}
use mem_order.Replay.Defs.{Call, read, write, Program}
use mem_order.Atomic.{
  AtomicState, finish_read, finish_write, issue, perform, atomic_step, atomic_run, atomic_start,
}
use mem_order.Seqlock.{
  RecordPc, outside, reading, version_read, value_read, locking, locked, write_version, odd_version,
  stored, unlocking, RecordState, set_pc, return_call, enter, read_transaction, write_transaction,
  RecorderKind, seqlock, rtmseq, begin_call, step_at, run_recorders, start_recorders,
}
use mem_order.Seqlock.Refines.{At, Refines, start-Refines}
use mem_order.Seqlock.Step.{Step-Refines, set_pc-Refines}
use mem_order.Seqlock.Turns.{
  Next, Next-none, Next-one, even-object, free-object, turn-reading, turn-version_read,
  turn-value_read,
}
use mem_order.Seqlock.Writes.{
  turn-locking, turn-locked, turn-write_version, turn-odd_version, turn-stored, turn-unlocking,
}

module _ (prog : Program) (t : ℕ) (s : RecordState) (a : AtomicState) (h : Refines prog s a) where
  enter-Refines :
      (call : Call)
      → s.pc t ≡ outside
      → issue prog t (s.client t) ≡ some call
      → Refines prog (set_pc t (enter call) s) a
  unfolding At
  enter-Refines (read o) e i =
      set_pc-Refines prog t (reading o) s a h (subst (At prog s a t) e (h.thread t), i)
        (λ j w. absurd cc)
  enter-Refines (write o x) e i =
      set_pc-Refines prog t (locking o x) s a h (subst (At prog s a t) e (h.thread t), i)
        (λ j w. absurd cc)

  read_transaction-Next :
      (o : ℕ)
      → s.pc t ≡ outside
      → issue prog t (s.client t) ≡ some (read o)
      → Next prog (read_transaction t o s) a
  unfolding read_transaction At perform
  read_transaction-Next o e i =
      let same = subst (At prog s a t) e (h.thread t) in
      elim (Bool-cases (s.version o % 2 == 1)) [
        | inl q ↦ Next-none prog _ a (rw q (enter-Refines (read o) e i))
        | inr q ↦
            let (ver, mem) = even-object prog t s a h o (ground arith) in
            let own_t : (t == t) ≡ true = ground arith in
            let done : finish_read o (a.version o) (a.memory o) (a.client t)
                ≡ finish_read o (s.version o) (s.memory o) (s.client t) =
              rw (ver, mem, same) refl in
            Next-one prog t (read o) _ a (ap (issue prog t) same ∙ i) (
              rw q (
                Step-Refines prog t outside s a
                  (return_call t (finish_read o (s.version o) (s.memory o) (s.client t)) s)
                  (perform t (read o) a) h
                  (record {
                    pcs = λ u. refl;
                    even = h.even;
                    object = h.object;
                    others = λ u w. record {
                      client = rw w refl;
                      atomic = rw w refl;
                      grows = λ j. omega arith;
                      stays = λ j r. refl;
                      held = λ j r. (refl, refl, refl);
                    };
                    own = rw own_t done;
                    takes = λ j w. absurd cc;
                    frees = λ j w. inl w;
                  })))
      ]

  write_transaction-Next :
      (o x : ℕ)
      → s.pc t ≡ outside
      → issue prog t (s.client t) ≡ some (write o x)
      → Next prog (write_transaction t o x s) a
  unfolding write_transaction At perform
  write_transaction-Next o x e i =
      let same = subst (At prog s a t) e (h.thread t) in
      elim (Bool-cases (s.write_lock o)) [
        | inl q ↦ Next-none prog _ a (rw q (enter-Refines (write o x) e i))
        | inr q ↦
            let (ver, mem) = free-object prog t s a h o q in
            let own_t : (t == t) ≡ true = ground arith in
            let done : finish_write o (a.version o) (a.client t)
                ≡ finish_write o (s.version o) (s.client t) =
              rw (ver, same) refl in
            Next-one prog t (write o x) _ a (ap (issue prog t) same ∙ i) (
              rw q (
                Step-Refines prog t outside s a
                  (return_call t (finish_write o (s.version o) (s.client t)) (record s {
                    version = update s.version o (s.version o + 2);
                    memory = update s.memory o x;
                  }))
                  (perform t (write o x) a) h
                  (record {
                    pcs = λ u. refl;
                    even = λ j. ground (arith, h.even j, h.even o);
                    object = λ j. elim (Bool-cases (o == j)) [
                      | inl w ↦ let z : o ≡ j = ground arith in inl (ground arith, ground arith)
                      | inr w ↦ rw w (h.object j)
                    ];
                    others = λ u w. record {
                      client = rw w refl;
                      atomic = rw w refl;
                      grows = λ j. ground arith;
                      stays = λ j r. ground arith;
                      held = λ j r. elim (Bool-cases (o == j)) [
                        | inl z ↦
                            let k : o ≡ j = ground arith in
                            absurd (let l = h.taken u j r in let m = ap s.write_lock k in cc)
                        | inr z ↦ (rw z refl, rw z refl, rw z refl)
                      ];
                    };
                    own = rw own_t done;
                    takes = λ j w. absurd cc;
                    frees = λ j w. inl w;
                  })))
      ]

  begin_call-Next :
      (kind : RecorderKind) (tx : Bool) (call : Call)
      → s.pc t ≡ outside
      → issue prog t (s.client t) ≡ some call
      → Next prog (begin_call kind tx t call s) a
  unfolding begin_call
  begin_call-Next seqlock tx call e i = Next-none prog _ a (enter-Refines call e i)
  begin_call-Next rtmseq true (read o) e i = read_transaction-Next o e i
  begin_call-Next rtmseq true (write o x) e i = write_transaction-Next o x e i
  begin_call-Next rtmseq false call e i = Next-none prog _ a (enter-Refines call e i)

  step_at-Next :
      (kind : RecorderKind) (tx : Bool) (p : RecordPc)
      → s.pc t ≡ p
      → Next prog (step_at kind prog tx t p s) a
  unfolding step_at
  step_at-Next kind tx outside e = elim (Option-cases (issue prog t (s.client t))) [
    | inl i ↦ Next-none prog _ a (rw (i, step_at) h)
    | inr (call, i) ↦ rw (i, step_at) (begin_call-Next kind tx call e i)
  ]
  step_at-Next kind tx (reading o) e = turn-reading prog t s a h o e
  step_at-Next kind tx (version_read o v) e = turn-version_read prog t s a h o v e
  step_at-Next kind tx (value_read o v x) e = turn-value_read prog t s a h o v x e
  step_at-Next kind tx (locking o x) e = turn-locking prog t s a h o x e
  step_at-Next kind tx (locked o x) e = turn-locked prog t s a h o x e
  step_at-Next kind tx (write_version o x v) e = turn-write_version prog t s a h o x v e
  step_at-Next kind tx (odd_version o x v) e = turn-odd_version prog t s a h o x v e
  step_at-Next kind tx (stored o x v) e = turn-stored prog t s a h o x v e
  step_at-Next kind tx (unlocking o x v) e = turn-unlocking prog t s a h o x v e

atomic_run-append :
    (prog : Program) (ts us : List ℕ) (a : AtomicState)
    → atomic_run prog (ts ++ us) a ≡ atomic_run prog us (atomic_run prog ts a)
unfolding atomic_run
atomic_run-append prog [] us a = refl
atomic_run-append prog (t ∷ ts) us a = atomic_run-append prog ts us (atomic_step prog t a)

run_recorders-Next :
    (kind : RecorderKind) (prog : Program) (ts : List (ℕ × Bool)) (s : RecordState)
    (a : AtomicState)
    → Refines prog s a
    → Next prog (run_recorders kind prog ts s) a
unfolding run_recorders
run_recorders-Next kind prog [] s a h = Next-none prog s a h
run_recorders-Next kind prog ((t, tx) ∷ ts) s a h =
    let (us, h') = step_at-Next prog t s a h kind tx (s.pc t) refl in
    let (vs, h'') = run_recorders-Next kind prog ts _ _ h' in
    (us ++ vs, subst (Refines prog _) (sym (atomic_run-append prog us vs a)) h'')

-- Whatever the schedule, and whichever transactions the hardware aborts: there is a run of atomic
-- calls in which every thread that stands outside of a call has noted and read the same, every
-- object of an even version has the same version and value, and in which a thread in a call is
-- about to make it, or has made it where only the unlocking is left.
pub run_recorders-Refines :
    (kind : RecorderKind) (prog : Program) (ts : List (ℕ × Bool)) (memory : ℕ → ℕ)
    → (us : List ℕ) × Refines prog
        (run_recorders kind prog ts (start_recorders memory))
        (atomic_run prog us (atomic_start memory))
run_recorders-Refines kind prog ts memory =
    run_recorders-Next kind prog ts (start_recorders memory) (atomic_start memory)
      (start-Refines prog memory)
