-- ===== src/Cluster/Run.antt =====
-- A run with transactions over blocks is one with transactions over calls.
use mem_order.Base.{
  ℕ, zero, suc, ◌%◌, ◌==◌, ◌≡◌, Bool, true, false, List, [], ◌∷◌, ◌++◌, some, Bool-cases,
  Option-cases, inl, inr, refl, ap, ◌∙◌, subst, update, update_self, ◌+◌,
}
use mem_order.Mem.{rtm_batch_n}
use mem_order.Replay.Defs.{Call, read, write, Program}
use mem_order.Atomic.{issue, finish_read, finish_write}
use mem_order.Seqlock.{
  RecordPc, outside, reading, version_read, value_read, locking, locked, write_version, odd_version,
  stored, unlocking, RecordState, set_pc, return_call, enter, rtmseq, read_transaction,
  write_transaction, begin_call, step_at, run_recorders, seqlock_turn,
}
use mem_order.Cluster.{transact, transact_block, begin_block, cluster_step, run_cluster}

-- The recorder with a transaction over each call comes to the same state.
Matched : Program → RecordState → RecordState → Type 0
Matched prog s s' = (us : List (ℕ × Bool)) × (run_recorders rtmseq prog us s ≡ s')

run_recorders-append :
    (prog : Program) (us vs : List (ℕ × Bool)) (s : RecordState)
    → run_recorders rtmseq prog (us ++ vs) s
      ≡ run_recorders rtmseq prog vs (run_recorders rtmseq prog us s)
unfolding run_recorders
run_recorders-append prog [] vs s = refl
run_recorders-append prog ((t, tx) ∷ us) vs s =
    run_recorders-append prog us vs (step_at rtmseq prog tx t (s.pc t) s)

Matched-trans :
    (prog : Program) (s s' s'' : RecordState)
    → Matched prog s s'
    → Matched prog s' s''
    → Matched prog s s''
unfolding Matched
Matched-trans prog s s' s'' (us, p) (vs, q) =
    (us ++ vs, run_recorders-append prog us vs s ∙ ap (run_recorders rtmseq prog vs) p ∙ q)

Matched-one :
    (prog : Program) (t : ℕ) (tx : Bool) (s s' : RecordState)
    → step_at rtmseq prog tx t (s.pc t) s ≡ s'
    → Matched prog s s'
unfolding Matched run_recorders
Matched-one prog t tx s s' e = ((t, tx) ∷ [], e)

-- A call of a transaction that goes on.
transact-step :
    (prog : Program) (t : ℕ) (call : Call) (s s' : RecordState)
    → s.pc t ≡ outside
    → issue prog t (s.client t) ≡ some call
    → transact t call s ≡ some s'
    → (step_at rtmseq prog true t (s.pc t) s ≡ s') × (s'.pc t ≡ outside)
unfolding step_at begin_call transact read_transaction write_transaction
transact-step prog t (read o) s s' e i h = elim (Bool-cases (s.version o % 2 == 1)) [
  | inl q ↦ absurd (let k = rw q at h in cc)
  | inr q ↦
      let k = rw q at h in
      let done : return_call t (finish_read o (s.version o) (s.memory o) (s.client t)) s ≡ s' =
        cc in
      (rw (e, step_at, i, q) done, subst (λ z. z.pc t ≡ outside) done (update_self s.pc t outside))
]
transact-step prog t (write o x) s s' e i h = elim (Bool-cases (s.write_lock o)) [
  | inl q ↦ absurd (let k = rw q at h in cc)
  | inr q ↦
      let k = rw q at h in
      let done : return_call t (finish_write o (s.version o) (s.client t)) (record s {
        version = update s.version o (s.version o + 2);
        memory = update s.memory o x;
      })
          ≡ s' =
        cc in
      (rw (e, step_at, i, q) done, subst (λ z. z.pc t ≡ outside) done (update_self s.pc t outside))
]

enter-step :
    (prog : Program) (t : ℕ) (call : Call) (s : RecordState)
    → s.pc t ≡ outside
    → issue prog t (s.client t) ≡ some call
    → step_at rtmseq prog false t (s.pc t) s ≡ set_pc t (enter call) s
unfolding step_at begin_call
enter-step prog t call s e i = rw (e, step_at, i) refl

transact_block-Matched :
    (prog : Program) (t n : ℕ) (s s' : RecordState)
    → s.pc t ≡ outside
    → transact_block prog t n s ≡ some s'
    → Matched prog s s'
unfolding transact_block Matched run_recorders
transact_block-Matched prog t zero s s' e h = ([], cc)
transact_block-Matched prog t (suc n) s s' e h = elim (Option-cases (issue prog t (s.client t))) [
  | inl i ↦ ([], let k = rw (i, transact_block) at h in cc)
  | inr (call, i) ↦ elim (Option-cases (transact t call s)) [
    | inl z ↦ absurd (let k = rw (i, transact_block, z) at h in cc)
    | inr (s1, z) ↦
        let (p, q) = transact-step prog t call s s1 e i z in
        Matched-trans prog s s1 s' (Matched-one prog t true s s1 p)
          (transact_block-Matched prog t n s1 s' q (rw (i, transact_block, z) at h))
  ]
]

enter-Matched :
    (prog : Program) (t : ℕ) (call : Call) (s : RecordState)
    → s.pc t ≡ outside
    → issue prog t (s.client t) ≡ some call
    → Matched prog s (set_pc t (enter call) s)
enter-Matched prog t call s e i = Matched-one prog t false s _ (enter-step prog t call s e i)

begin_block-Matched :
    (prog : Program) (tx : Bool) (t : ℕ) (call : Call) (s : RecordState)
    → s.pc t ≡ outside
    → issue prog t (s.client t) ≡ some call
    → Matched prog s (begin_block prog tx t call s)
unfolding begin_block
begin_block-Matched prog false t call s e i = enter-Matched prog t call s e i
begin_block-Matched prog true t call s e i =
    elim (Option-cases (transact_block prog t rtm_batch_n s)) [
      | inl z ↦ rw (z, begin_block) (enter-Matched prog t call s e i)
      | inr (s', z) ↦ rw (z, begin_block) (transact_block-Matched prog t rtm_batch_n s s' e z)
    ]

stay : (prog : Program) (s : RecordState) → Matched prog s s
unfolding Matched run_recorders
stay prog s = ([], refl)

-- A step inside of a call is the same.
inside-Matched :
    (prog : Program) (t : ℕ) (s : RecordState) (p : RecordPc)
    → s.pc t ≡ p
    → step_at rtmseq prog false t p s ≡ seqlock_turn t p s
    → Matched prog s (seqlock_turn t p s)
inside-Matched prog t s p e h =
    Matched-one prog t false s _ (ap (λ q. step_at rtmseq prog false t q s) e ∙ h)

cluster_step-Matched :
    (prog : Program) (tx : Bool) (t : ℕ) (p : RecordPc) (s : RecordState)
    → s.pc t ≡ p
    → Matched prog s (cluster_step prog tx t p s)
unfolding cluster_step step_at
cluster_step-Matched prog tx t outside s e = elim (Option-cases (issue prog t (s.client t))) [
  | inl i ↦ rw (i, cluster_step) (stay prog s)
  | inr (call, i) ↦ elim (Bool-cases ((s.client t).recorder.memop % rtm_batch_n == 0)) [
    | inl q ↦ rw (i, cluster_step, q) (begin_block-Matched prog tx t call s e i)
    | inr q ↦ rw (i, cluster_step, q) (enter-Matched prog t call s e i)
  ]
]
cluster_step-Matched prog tx t (reading o) s e = inside-Matched prog t s _ e refl
cluster_step-Matched prog tx t (version_read o v) s e = inside-Matched prog t s _ e refl
cluster_step-Matched prog tx t (value_read o v x) s e = inside-Matched prog t s _ e refl
cluster_step-Matched prog tx t (locking o x) s e = inside-Matched prog t s _ e refl
cluster_step-Matched prog tx t (locked o x) s e = inside-Matched prog t s _ e refl
cluster_step-Matched prog tx t (write_version o x v) s e = inside-Matched prog t s _ e refl
cluster_step-Matched prog tx t (odd_version o x v) s e = inside-Matched prog t s _ e refl
cluster_step-Matched prog tx t (stored o x v) s e = inside-Matched prog t s _ e refl
cluster_step-Matched prog tx t (unlocking o x v) s e = inside-Matched prog t s _ e refl

-- Whatever the schedule, and whichever transactions over blocks the hardware aborts: the recorder
-- with a transaction over each call comes to the same state in some interleaving.
pub run_cluster-run_recorders :
    (prog : Program) (ts : List (ℕ × Bool)) (s : RecordState)
    → (us : List (ℕ × Bool)) × (run_recorders rtmseq prog us s ≡ run_cluster prog ts s)
unfolding run_cluster Matched
run_cluster-run_recorders prog [] s = stay prog s
run_cluster-run_recorders prog ((t, tx) ∷ ts) s =
    Matched-trans prog s (cluster_step prog tx t (s.pc t) s) _
      (cluster_step-Matched prog tx t (s.pc t) s refl)
      (run_cluster-run_recorders prog ts (cluster_step prog tx t (s.pc t) s))
