-- ===== src/Commit/Replay/Turns.antt =====
-- mem-replay-rtmcommit.c: a thread in a block has the turn.
use mem_order.Base.{
  ℕ, suc, ◌-◌, ◌%◌, ◌==◌, ◌≡◌, ◌≢◌, ◌⊎◌, inl, inr, not, Bool, true, false, List, [], ◌∷◌, Option,
  none, some, arith, refl, sym, ap, ◌∙◌, update, Bool-cases,
}
use mem_order.Mem.{rtm_batch_n}
use mem_order.Replay.Defs.{Call, read, write, Program}
use mem_order.Commit.Replay.{
  CommitPc, enter, access, leave, finished, failed, CommitPlayer, CommitState, read_next_thr,
  enter_block, access_memory, leave_block, finish_blocks, commit_turn, commit_step, run_commits,
  start_commits,
}

List-cases : (l : List ℕ) → (l ≡ []) ⊎ ((x : ℕ) × (rest : List ℕ) × (l ≡ x ∷ rest))
List-cases [] = inl refl
List-cases (x ∷ rest) = inr (x, rest, refl)

-- The thread stands in a block: within a call past the loop, or between two calls of the block.
abbrev pub in_block : CommitPlayer → Bool
in_block p = elim p.pc [
  | enter ↦ not (p.sim_bbcnt % rtm_batch_n == 0)
  | access ↦ true
  | leave ↦ true
  | finished ↦ false
  | failed ↦ false
]

record Turn (s : CommitState) : Type 0 where
  holds : (t : ℕ) → in_block (s.thread t) ≡ true → s.next_thr ≡ t
  sane : (t : ℕ) → (s.thread t).pc ≢ failed

read_next_thr-thread : (s : CommitState) → (read_next_thr s).thread ≡ s.thread
unfolding read_next_thr
read_next_thr-thread s = elim (List-cases s.commit_log) [
  | inl e ↦ rw (e, read_next_thr) refl
  | inr (t, rest, e) ↦ rw (e, read_next_thr) refl
]

module _ (s : CommitState) (t : ℕ) (h : Turn s) where
  moved-Turn :
      (s' : CommitState) (p : CommitPlayer)
      → ((u : ℕ) → s'.thread u ≡ update s.thread t p u)
      → (s'.next_thr ≡ s.next_thr) ⊎ (in_block (s.thread t) ≡ true)
      → (in_block p ≡ true → s'.next_thr ≡ t)
      → p.pc ≢ failed
      → Turn s'
  moved-Turn s' p moves keeps own fine =
      let mine : (t == t) ≡ true = ground arith in
      let at : s'.thread t ≡ p = moves t ∙ rw mine refl in
      record {
        holds = λ u b. elim (Bool-cases (t == u)) [
          | inl e ↦
              let same : t ≡ u = ground arith in
              let at' = ap s'.thread (sym same) ∙ at in own (rw at' at b) ∙ same
          | inr e ↦
              let at' : s'.thread u ≡ s.thread u = moves u ∙ rw e refl in
              let its = h.holds u (rw at' at b) in
              elim keeps [
                | inl k ↦ k ∙ its
                | inr k ↦ absurd (let mine = h.holds t k in ground arith)
              ]
        ];
        sane = λ u q. elim (Bool-cases (t == u)) [
          | inl e ↦
              let same : t ≡ u = ground arith in
              fine (sym (ap (λ k. k.pc) (ap s'.thread (sym same) ∙ at)) ∙ q)
          | inr e ↦
              let at' : s'.thread u ≡ s.thread u = moves u ∙ rw e refl in
              h.sane u (sym (ap (λ k. k.pc) at') ∙ q)
        ];
      }

  enter_block-Turn : (s.thread t).pc ≡ enter → Turn (enter_block s t)
  unfolding enter_block
  enter_block-Turn q = elim (Bool-cases ((s.thread t).sim_bbcnt % rtm_batch_n == 0)) [
    | inl begins ↦ elim (Bool-cases (s.next_thr == t)) [
      | inl own ↦
          rw (begins, own) (moved-Turn _ _ (λ u. refl) (inl refl) (λ _. ground arith) (λ w. cc))
      | inr other ↦ rw (begins, other) h
    ]
    | inr within ↦
        rw within
          (moved-Turn _ _ (λ u. refl) (inl refl) (λ _. h.holds t (rw (q, within) refl)) (λ w. cc))
  ]

  access_memory-Turn : (call : Call) → (s.thread t).pc ≡ access → Turn (access_memory s t call)
  unfolding access_memory
  access_memory-Turn (read o) q =
      let own : s.next_thr ≡ t = h.holds t (rw q refl) in
      let e : (s.next_thr == t) ≡ true = ground arith in
      rw e (moved-Turn _ _ (λ u. refl) (inl refl) (λ _. own) (λ w. cc))
  access_memory-Turn (write o x) q =
      let own : s.next_thr ≡ t = h.holds t (rw q refl) in
      let e : (s.next_thr == t) ≡ true = ground arith in
      rw e (moved-Turn _ _ (λ u. refl) (inl refl) (λ _. own) (λ w. cc))

  leave_block-Turn : (s.thread t).pc ≡ leave → Turn (leave_block s t)
  unfolding leave_block
  leave_block-Turn q =
      let next : CommitPlayer = record (s.thread t) {
        pc = enter;
        sim_bbcnt = suc (s.thread t).sim_bbcnt;
      } in
      elim (Bool-cases ((s.thread t).sim_bbcnt % rtm_batch_n == rtm_batch_n - 1)) [
        | inl ends ↦ rw ends (
            moved-Turn _ next (λ u. ap (λ f. update f t next u) (read_next_thr-thread s))
              (inr (rw q refl)) (λ b. absurd (ground arith)) (λ w. cc))
        | inr within ↦
            rw within (moved-Turn _ _ (λ u. refl) (inl refl) (λ _. h.holds t (rw q refl)) (λ w. cc))
      ]

  finish_blocks-Turn : (s.thread t).pc ≡ enter → Turn (finish_blocks s t)
  unfolding finish_blocks
  finish_blocks-Turn q =
      let ended : CommitPlayer = record (s.thread t) { pc = finished } in
      elim (Bool-cases ((s.thread t).sim_bbcnt % rtm_batch_n == 0)) [
        | inl whole ↦ rw whole (moved-Turn _ _ (λ u. refl) (inl refl) (λ b. cc) (λ w. cc))
        | inr within ↦ rw within (
            moved-Turn _ ended (λ u. ap (λ f. update f t ended u) (read_next_thr-thread s))
              (inr (rw (q, within) refl)) (λ b. cc) (λ w. cc))
      ]

  commit_turn-Turn :
      (call : Option Call) (pc : CommitPc) → (s.thread t).pc ≡ pc → Turn (commit_turn s t call pc)
  unfolding commit_turn
  commit_turn-Turn none enter q = finish_blocks-Turn q
  commit_turn-Turn (some call) enter q = enter_block-Turn q
  commit_turn-Turn none access q = h
  commit_turn-Turn (some call) access q = access_memory-Turn call q
  commit_turn-Turn none leave q = leave_block-Turn q
  commit_turn-Turn (some call) leave q = leave_block-Turn q
  commit_turn-Turn none finished q = h
  commit_turn-Turn (some call) finished q = h
  commit_turn-Turn none failed q = h
  commit_turn-Turn (some call) failed q = h

run_commits-Turn :
    (prog : Program) (ts : List ℕ) (s : CommitState) → Turn s → Turn (run_commits prog ts s)
unfolding run_commits commit_step
run_commits-Turn prog [] s h = h
run_commits-Turn prog (t ∷ ts) s h =
    run_commits-Turn prog ts (commit_step prog t s) (commit_turn-Turn s t h _ _ refl)

start_commits-Turn : (commitlog : List ℕ) (memory : ℕ → ℕ) → Turn (start_commits commitlog memory)
unfolding start_commits read_next_thr
start_commits-Turn [] memory = record { holds = λ t b. cc; sane = λ t q. cc }
start_commits-Turn (x ∷ rest) memory = record { holds = λ t b. cc; sane = λ t q. cc }

-- Whatever the program, the merged log and the schedule: the replayer's assertion never fails, and
-- two threads that stand in a block are one thread.
pub run_commits-in_block :
    (prog : Program) (commitlog : List ℕ) (memory : ℕ → ℕ) (ts : List ℕ)
    → let s = run_commits prog ts (start_commits commitlog memory) in
      ((t : ℕ) → (s.thread t).pc ≢ failed)
      × ((t u : ℕ) → in_block (s.thread t) ≡ true → in_block (s.thread u) ≡ true → t ≡ u)
run_commits-in_block prog commitlog memory ts =
    let turn =
      run_commits-Turn prog ts (start_commits commitlog memory)
        (start_commits-Turn commitlog memory) in
    (turn.sane, λ t u b c. sym (turn.holds t b) ∙ turn.holds u c)
