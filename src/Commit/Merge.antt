-- ===== src/Commit/Merge.antt =====
-- merge-commit.cpp: the threads' logs of commit times, merged into one log of thread ids.
use mathlib.Core.List.{Memᴰ}
use mathlib.Core.List.{Permᴰ}
use mem_order.Base.{
  ℕ, zero, suc, ◌+◌, ◌≡◌, ltb, Bool, false, List, [], ◌∷◌, ◌++◌, Option, none, some, update, length,
  pos, eq_ℤ, if◌then◌else◌,
}
use mem_order.Mem.{tid_of}

-- `struct q_ent`
pub record QEnt : Type 0 where
  pub tid : ℕ
  pub ts : ℕ

-- `operator>`
abbrev pub gt_ts : QEnt → QEnt → Bool
gt_ts a b = ltb b.ts a.ts

-- `ts_q`, a `priority_queue` of the C++ library, as its documentation has it: `top` and `pop` take
-- a least entry out of a queue that is not empty, and the others stay, in whatever arrangement.
pub record CommitQueue : Type 0 where
  pub pop : List QEnt → Option (QEnt × List QEnt)
  pub pop_empty : pop [] ≡ none
  pub pop_some :
      (e : QEnt) (q : List QEnt) → (x : QEnt) × (rest : List QEnt) × (pop (e ∷ q) ≡ some (x, rest))
  pub arranged : (q rest : List QEnt) (x : QEnt) → pop q ≡ some (x, rest) → Permᴰ (x ∷ rest) q
  pub least :
      (q rest : List QEnt) (x e : QEnt) → pop q ≡ some (x, rest) → Memᴰ e q → gt_ts x e ≡ false

-- The queue, and what is left of each thread's log; a log that is not there is empty.
pub record PendingTs : Type 0 where
  pub queue : List QEnt
  pub logs : ℕ → List ℕ

abbrev pub push_first : ℕ → List ℕ → PendingTs → PendingTs
push_first t [] p = p
push_first t (ts ∷ rest) p = record {
  queue = record { tid = t; ts = ts } ∷ p.queue;
  logs = update p.logs t rest;
}

-- `next_ts`, and the push of what it gives.
unfoldable pub push_next : ℕ → PendingTs → PendingTs
push_next t p = push_first t (p.logs t) p

-- The loop that fills the queue, over the threads from `i` on, `n` of them.
unfoldable pub push_from : ℕ → ℕ → PendingTs → PendingTs
unfolding push_next
push_from i zero p = p
push_from i (suc n) p = push_from (suc i) n (push_next i p)

-- The times in the logs of the threads below `n`.
unfoldable pub commit_count : ℕ → (ℕ → List ℕ) → ℕ
commit_count zero logs = 0
commit_count (suc n) logs = length (logs n) + commit_count n logs

module _ (cq : CommitQueue) where
  -- The loop `while (!ts_q.empty())`, with the log that it writes; `none` is no fuel.
  unfoldable pub commit_loop : ℕ → PendingTs → List ℕ → Option (List ℕ)
  unfolding push_next
  commit_loop zero p commitlog = elim (cq.pop p.queue) [ none ↦ some commitlog | some _ ↦ none ]
  commit_loop (suc n) p commitlog = elim (cq.pop p.queue) [
    | none ↦ some commitlog
    | some (e, rest) ↦
        commit_loop n (push_next e.tid (record p { queue = rest })) (commitlog ++ (e.tid ∷ []))
  ]

  -- `main` opens `nthr` logs and passes `(tid_t)nthr`, and the assertion compares the two; `none` is
  -- its failure. Each round takes one of the times, so there are as many rounds as times.
  unfoldable pub merge_commit : ℕ → (ℕ → List ℕ) → Option (List ℕ)
  unfolding commit_loop push_from commit_count
  merge_commit nthr logs =
      if eq_ℤ (pos nthr) (tid_of nthr)
      then commit_loop (commit_count nthr logs)
          (push_from 0 nthr (record { queue = []; logs = logs })) []
      else none
