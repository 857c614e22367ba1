-- ===== src/Commit/Order.antt =====
-- merge-commit.cpp: the merged log has the commits of all threads in the order of their times.
use mathlib.Core.List.{Memᴰ}
use mathlib.Core.List.Memᴰ as MemD
use mem_order.Base.{
  ℕ, zero, suc, ◌+◌, ◌≤◌, ◌<◌, ◌==◌, ◌≡◌, inl, inr, true, false, List, [], ◌∷◌, ◌++◌, some, none,
  map, length, arith, refl, sym, ap, ◌∙◌, subst, Bool-cases, Option-cases, dec_lt, append-nil,
  append_assoc,
}
use mem_order.Mem.{tid_of-lt}
use mem_order.Commit.Merge.{
  QEnt, CommitQueue, PendingTs, push_first, push_next, push_from, commit_loop, merge_commit,
}
use mem_order.Commit.Times.{
  times, Increasing, times-own, times-other, times-mem, Threads, times-none, commit_count-length,
}
use mem_order.Commit.Queue.{
  count, count-cons_same, count-cons_other, mem-count, count-mem, Perm-count, Perm-mem,
}

abbrev present : List ℕ → ℕ
present [] = 0
present (_ ∷ _) = 1

-- The entries of the queue are the first times of their threads that are left.
abbrev Heads : List QEnt → PendingTs → Type 0
Heads order p = (x : QEnt) → Memᴰ x p.queue → times x.tid order ≡ x.ts ∷ p.logs x.tid

-- Thread `t` stands in the queue once if it has times left.
abbrev Stands : List QEnt → PendingTs → ℕ → Type 0
Stands order p t =
    (count t p.queue ≡ present (times t order)) × (times t order ≡ [] → p.logs t ≡ [])

record Pushed (order : List QEnt) (t : ℕ) (p p' : PendingTs) : Type 0 where
  heads : Heads order p'
  stands : Stands order p' t
  others :
      (u : ℕ) → (t == u) ≡ false → (count u p'.queue ≡ count u p.queue) × (p'.logs u ≡ p.logs u)

push_first-Pushed :
    (order : List QEnt) (t : ℕ) (p : PendingTs) (l : List ℕ)
    → p.logs t ≡ l
    → count t p.queue ≡ 0
    → p.logs t ≡ times t order
    → Heads order p
    → Pushed order t p (push_first t l p)
push_first-Pushed order t p [] e absent left heads = record {
  heads = heads;
  stands = (rw (sym left, e) absent, λ _. e);
  others = λ u q. (refl, refl);
}
push_first-Pushed order t p (s ∷ l) e absent left heads = record {
  heads = λ x m. elim (MemD.cases_cons m) [
    | inl q ↦ let mine : (t == t) ≡ true = ground arith in rw (q, mine) (sym left ∙ e)
    | inr h ↦ elim (Bool-cases (t == x.tid)) [
      | inl own ↦
          let same : t ≡ x.tid = ground arith in
          let none_of : count x.tid p.queue ≡ 0 = subst (λ u. count u p.queue ≡ 0) same absent in
          absurd (omega (arith, none_of, mem-count x p.queue h))
      | inr other ↦ rw other (heads x h)
    ]
  ];
  stands = (
    count-cons_same _ p.queue ∙ ap suc absent ∙ rw (sym left, e) refl,
    λ q. absurd (let some_left = left ∙ q in cc),
  );
  others = λ u q. (count-cons_other u _ p.queue q, rw q refl);
}

push_next-Pushed :
    (order : List QEnt) (t : ℕ) (p : PendingTs)
    → count t p.queue ≡ 0
    → p.logs t ≡ times t order
    → Heads order p
    → Pushed order t p (push_next t p)
unfolding push_next
push_next-Pushed order t p absent left heads =
    push_first-Pushed order t p (p.logs t) refl absent left heads

-- The loop before a round: `order` is left to be written.
record Left (order : List QEnt) (p : PendingTs) : Type 0 where
  heads : Heads order p
  stands : (t : ℕ) → Stands order p t

module _ (cq : CommitQueue) (e : QEnt) (order : List QEnt) (up : Increasing (e ∷ order))
    (p : PendingTs) (h : Left (e ∷ order) p) where
  own_present : count e.tid p.queue ≡ 1
  own_present = (h.stands e.tid).0 ∙ ap present (times-own e order)

  first_of : (x : QEnt) → Memᴰ x p.queue → x.tid ≡ e.tid → x ≡ e
  first_of x m q =
      let a = h.heads x m in
      let b = times-own e order in
      let c : times x.tid (e ∷ order) ≡ e.ts ∷ times e.tid order = rw q b in
      let t : x.ts ≡ e.ts = cc in ground arith

  -- The least entry is the next commit.
  least_next : (rest : List QEnt) (x : QEnt) → cq.pop p.queue ≡ some (x, rest) → x ≡ e
  unfolding Increasing
  least_next rest x q =
      let d = cq.arranged p.queue rest x q in
      let (y, m, own) = count-mem e.tid p.queue (omega (arith, own_present)) in
      let same = first_of y m own in
      let le = cq.least p.queue rest x y q m in
      let m' = Perm-mem x d (Memᴰ.head refl) in
      elim (MemD.cases_cons (times-mem x.tid (e ∷ order) x.ts (p.logs x.tid) (h.heads x m'))) [
        | inl z ↦ cc
        | inr k ↦ let later = up.0 _ k in absurd (ground arith)
      ]

  -- What is left once the commit `e` is taken out of the queue.
  taken-Left :
      (rest : List QEnt)
      → cq.pop p.queue ≡ some (e, rest)
      → Left order (push_next e.tid (record p { queue = rest }))
  taken-Left rest q =
      let d = cq.arranged p.queue rest e q in
      let m = Perm-mem e d (Memᴰ.head refl) in
      let absent : count e.tid rest ≡ 0 =
        omega (arith, Perm-count e.tid d, count-cons_same e rest, own_present) in
      let left : p.logs e.tid ≡ times e.tid order =
        (let a = h.heads e m in let b = times-own e order in cc) in
      let pushed =
        push_next-Pushed order e.tid (record p { queue = rest }) absent left
          (λ x k. elim (Bool-cases (e.tid == x.tid)) [
            | inl own ↦
                let same : e.tid ≡ x.tid = ground arith in
                let none_of : count x.tid rest ≡ 0 = subst (λ u. count u rest ≡ 0) same absent in
                absurd (omega (arith, none_of, mem-count x rest k))
            | inr other ↦
                sym (times-other x.tid e order other) ∙ h.heads x (Perm-mem x d (Memᴰ.tail k))
          ]) in
      record {
        heads = pushed.heads;
        stands = λ t. elim (Bool-cases (e.tid == t)) [
          | inl own ↦
              let same : e.tid ≡ t = ground arith in
              subst (Stands order (push_next e.tid (record p { queue = rest }))) same pushed.stands
          | inr other ↦
              let (c, l) = pushed.others t other in
              let (n, z) = h.stands t in
              let w = times-other t e order other in
              (
                c ∙ sym (count-cons_other t e rest other) ∙ Perm-count t d ∙ n ∙ ap present w,
                λ k. l ∙ z (w ∙ k),
              )
        ];
      }

empty_queue : (q : List QEnt) → ((t : ℕ) → count t q ≡ 0) → q ≡ []
empty_queue [] h = refl
empty_queue (x ∷ q) h = absurd (omega (arith, h x.tid, count-cons_same x q))

module _ (cq : CommitQueue) where
  pop_none-empty : (q : List QEnt) → cq.pop q ≡ none → q ≡ []
  pop_none-empty [] z = refl
  pop_none-empty (e ∷ q) z = let (x, rest, s) = cq.pop_some e q in absurd cc

  commit_loop_done :
      (n : ℕ) (p : PendingTs) (commitlog : List ℕ)
      → cq.pop p.queue ≡ none
      → commit_loop cq n p commitlog ≡ some commitlog
  unfolding commit_loop
  commit_loop_done zero p commitlog z = rw (z, commit_loop) refl
  commit_loop_done (suc n) p commitlog z = rw (z, commit_loop) refl

  commit_loop-order :
      (n : ℕ) (order : List QEnt) (p : PendingTs) (commitlog : List ℕ)
      → length order ≤ n
      → Increasing order
      → Left order p
      → commit_loop cq n p commitlog ≡ some (commitlog ++ map (λ e. e.tid) order)
  unfolding commit_loop Increasing times count
  commit_loop-order n [] p commitlog le up h =
      let none_left = empty_queue p.queue (λ t. (h.stands t).0) in
      commit_loop_done n p commitlog (ap cq.pop none_left ∙ cq.pop_empty)
      ∙ ap some (sym (append-nil commitlog))
  commit_loop-order zero (e ∷ order) p commitlog le up h = absurd (omega arith)
  commit_loop-order (suc n) (e ∷ order) p commitlog le up h = elim (Option-cases (cq.pop p.queue)) [
    | inl z ↦
        let one = own_present cq e order up p h in
        let gone : count e.tid p.queue ≡ 0 = ap (count e.tid) (pop_none-empty p.queue z) in
        absurd (omega (arith, one, gone))
    | inr ((x, rest), z) ↦
        let next : x ≡ e = least_next cq e order up p h rest x z in
        let z' : cq.pop p.queue ≡ some (e, rest) = rw next at z in
        rw (z', commit_loop)
          (commit_loop-order n order _ (commitlog ++ (e.tid ∷ [])) (omega (arith, le)) up.1
              (taken-Left cq e order up p h rest z')
            ∙ ap some (append_assoc commitlog (e.tid ∷ []) (map (λ x. x.tid) order)))
  ]

-- The threads below `i` have been looked at.
record Filled (order : List QEnt) (i : ℕ) (p : PendingTs) : Type 0 where
  heads : Heads order p
  stands : (t : ℕ) → t < i → Stands order p t
  waiting : (t : ℕ) → i ≤ t → (count t p.queue ≡ 0) × (p.logs t ≡ times t order)

push_from-Filled :
    (order : List QEnt) (n i : ℕ) (p : PendingTs)
    → Filled order i p
    → Filled order (i + n) (push_from i n p)
unfolding push_from
push_from-Filled order zero i p h =
    let e : i ≡ i + 0 = omega arith in subst (λ k. Filled order k p) e h
push_from-Filled order (suc n) i p h =
    let (absent, left) = h.waiting i (omega arith) in
    let pushed = push_next-Pushed order i p absent left h.heads in
    let e : suc i + n ≡ i + suc n = omega arith in
    subst (λ k. Filled order k (push_from (suc i) n (push_next i p))) e
      (push_from-Filled order n (suc i) (push_next i p) (record {
        heads = pushed.heads;
        stands = λ t lt. elim (Bool-cases (i == t)) [
          | inl own ↦
              let same : i ≡ t = ground arith in
              subst (Stands order (push_next i p)) same pushed.stands
          | inr other ↦
              let (c, l) = pushed.others t other in
              let (k, z) = h.stands t (ground arith) in (c ∙ k, λ w. l ∙ z w)
        ];
        waiting = λ t le.
            let other : (i == t) ≡ false = ground arith in
            let (c, l) = pushed.others t other in
            let (a, w) = h.waiting t (omega arith) in (c ∙ a, l ∙ w);
      }))

-- Commits of threads below `nthr`, which is at most 127, each at a later time than those before it,
-- leave their times in
-- their threads' logs. The logs are merged, whichever of several least entries the queue gives out,
-- and the merged log names the threads in the order of the commits.
pub merge_commit-order :
    (cq : CommitQueue) (nthr : ℕ) (order : List QEnt)
    → nthr < 128
    → Threads nthr order
    → Increasing order
    → merge_commit cq nthr (λ t. times t order) ≡ some (map (λ e. e.tid) order)
unfolding merge_commit count
merge_commit-order cq nthr order few below up =
    let begin : PendingTs = record { queue = []; logs = λ t. times t order } in
    let filled = push_from-Filled order nthr 0 begin (record {
      heads = λ x m. absurd (MemD.not-nil m);
      stands = λ t lt. absurd (omega arith);
      waiting = λ t le. (refl, refl);
    }) in
    rw (tid_of-lt nthr few) (
      commit_loop-order cq _ order (push_from 0 nthr begin) []
        (commit_count-length nthr order below) up
        (record {
          heads = filled.heads;
          stands = λ t. elim (dec_lt t nthr) [
            | yes lt ↦ filled.stands t (omega (arith, lt))
            | no ge ↦
                let (absent, left) = filled.waiting t (omega (arith, ge)) in
                let gone = times-none nthr t order below (omega (arith, ge)) in
                (absent ∙ rw gone refl, λ w. left ∙ w)
          ];
        }))
