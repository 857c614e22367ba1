-- ===== src/Tests/Commit.antt =====
-- merge-commit.cpp: a list of which a least entry is taken meets what is asked of the queue, and
-- the commits of two threads. mem-replay-rtmcommit.c: the example in two blocks.
use mathlib.Core.List.{Memᴰ, Permᴰ}
use mathlib.Core.List.Memᴰ as MemD
use mem_order.Base.{
  ◌≡◌, ◌≢◌, true, ℕ, List, [], ◌∷◌, Option, some, none, arith, refl, inl, inr, Bool-cases,
  if◌then◌else◌, false, subst,
}
use mem_order.Commit.Merge.{QEnt, gt_ts, CommitQueue, merge_commit}
use mem_order.Commit.Times.{times, Increasing, Threads}
use mem_order.Commit.Order.{merge_commit-order}
use mem_order.Commit.Replay.{failed, run_commits, start_commits}
use mem_order.Commit.Replay.Turns.{in_block, run_commits-in_block}
use mem_order.Tests.Example.{prog}

-- The least of `e` and the list, and the others.
least_of : QEnt → List QEnt → QEnt × List QEnt
least_of e [] = (e, [])
least_of e (x ∷ q) = let (y, rest) = least_of x q in if gt_ts e y then (y, e ∷ rest) else (e, x ∷ q)

same_arranged : (q : List QEnt) → Permᴰ q q
same_arranged [] = Permᴰ.nil
same_arranged (x ∷ q) = Permᴰ.cons refl (same_arranged q)

least_of-arranged : (e : QEnt) (q : List QEnt) → Permᴰ ((least_of e q).0 ∷ (least_of e q).1) (e ∷ q)
unfolding least_of
least_of-arranged e [] = same_arranged (e ∷ [])
least_of-arranged e (x ∷ q) = elim (Bool-cases (gt_ts e (least_of x q).0)) [
  | inl later ↦
      rw later (Permᴰ.trans (Permᴰ.swap refl refl) (Permᴰ.cons refl (least_of-arranged x q)))
  | inr first ↦ rw first (same_arranged (e ∷ x ∷ q))
]

least_of-least :
    (e : QEnt) (q : List QEnt) (z : QEnt) → Memᴰ z (e ∷ q) → gt_ts (least_of e q).0 z ≡ false
unfolding least_of
least_of-least e [] z m = rw (MemD.eq_of_singleton m) (ground arith)
least_of-least e (x ∷ q) z m = elim (Bool-cases (gt_ts e (least_of x q).0)) [
  | inl later ↦
      rw later
        (elim (MemD.cases_cons m) [ inl p ↦ rw p (ground arith) | inr k ↦ least_of-least x q z k ])
  | inr first ↦ rw first (elim (MemD.cases_cons m) [
    | inl p ↦ rw p (ground arith)
    | inr k ↦ let le = least_of-least x q z k in ground arith
  ])
]

list_pop : List QEnt → Option (QEnt × List QEnt)
list_pop [] = none
list_pop (e ∷ q) = some (least_of e q)

list_commit_queue : CommitQueue
unfolding list_pop
list_commit_queue = record {
  pop = list_pop;
  pop_empty = refl;
  pop_some = λ e q. ((least_of e q).0, (least_of e q).1, refl);
  arranged = popped_arranged;
  least = popped_least;
}
  where
    popped_arranged :
        (q rest : List QEnt) (x : QEnt) → list_pop q ≡ some (x, rest) → Permᴰ (x ∷ rest) q
    popped_arranged [] rest x p = absurd cc
    popped_arranged (e ∷ t) rest x p =
        let same : least_of e t ≡ (x, rest) = cc in
        subst (λ y. Permᴰ (y.0 ∷ y.1) (e ∷ t)) same (least_of-arranged e t)

    popped_least :
        (q rest : List QEnt) (x z : QEnt)
        → list_pop q ≡ some (x, rest)
        → Memᴰ z q
        → gt_ts x z ≡ false
    popped_least [] rest x z p m = absurd cc
    popped_least (e ∷ t) rest x z p m =
        let same : least_of e t ≡ (x, rest) = cc in
        subst (λ y. gt_ts y.0 z ≡ false) same (least_of-least e t z m)

-- Thread 1 commits first, then thread 0 twice, then thread 1 again.
abbrev commits : List QEnt
commits =
    record { tid = 1; ts = 0 }
    ∷ record { tid = 0; ts = 1 }
    ∷ record { tid = 0; ts = 2 }
    ∷ record { tid = 1; ts = 5 }
    ∷ []

commits-Increasing : Increasing commits
unfolding Increasing
commits-Increasing = (
  λ x m. elim (MemD.cases_cons m) [
    | inl p ↦ rw p (omega arith)
    | inr k ↦ elim (MemD.cases_cons k) [
      | inl p ↦ rw p (omega arith)
      | inr n ↦ rw (MemD.eq_of_singleton n) (omega arith)
    ]
  ],
  (
    λ x m. elim (MemD.cases_cons m) [
      | inl p ↦ rw p (omega arith)
      | inr n ↦ rw (MemD.eq_of_singleton n) (omega arith)
    ],
    (λ x m. rw (MemD.eq_of_singleton m) (omega arith), (λ x m. absurd (MemD.not-nil m), tt)),
  ),
)

commits-Threads : Threads 2 commits
commits-Threads e m = elim (MemD.cases_cons m) [
  | inl p ↦ rw p (omega arith)
  | inr k ↦ elim (MemD.cases_cons k) [
    | inl p ↦ rw p (omega arith)
    | inr n ↦ elim (MemD.cases_cons n) [
      | inl p ↦ rw p (omega arith)
      | inr j ↦ rw (MemD.eq_of_singleton j) (omega arith)
    ]
  ]
]

thread_1 : times 1 commits ≡ 0 ∷ 5 ∷ []
unfolding times
thread_1 = refl

commits-128 : merge_commit list_commit_queue 128 (λ t. times t commits) ≡ none
unfolding merge_commit
commits-128 = refl

merge_commit-order_example :
    merge_commit list_commit_queue 2 (λ t. times t commits) ≡ some (1 ∷ 0 ∷ 0 ∷ 1 ∷ [])
merge_commit-order_example =
    merge_commit-order list_commit_queue 2 commits (omega arith) commits-Threads commits-Increasing

-- Thread 1 waits for its turn, thread 0 makes its two calls and ends, and the turn is thread 1's.
run_commits-in_block_example :
    let s = run_commits prog (1 ∷ 0 ∷ 0 ∷ []) (start_commits (0 ∷ 1 ∷ []) (λ _. 5)) in
    ((t : ℕ) → (s.thread t).pc ≢ failed)
    × ((t u : ℕ) → in_block (s.thread t) ≡ true → in_block (s.thread u) ≡ true → t ≡ u)
run_commits-in_block_example = run_commits-in_block prog (0 ∷ 1 ∷ []) (λ _. 5) (1 ∷ 0 ∷ 0 ∷ [])

block_ends :
    let s =
      run_commits prog
        (1 ∷ 0 ∷ 0 ∷ 0 ∷ 0 ∷ 0 ∷ 0 ∷ 1 ∷ 0 ∷ 1 ∷ 1 ∷ [])
        (start_commits (0 ∷ 1 ∷ []) (λ _. 5)) in
    (s.next_thr ≡ 1) × ((s.thread 0).reads ≡ 5 ∷ []) × ((s.thread 1).reads ≡ 7 ∷ [])
unfolding run_commits start_commits
block_ends = (refl, refl, refl)
