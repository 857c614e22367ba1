-- ===== src/Tests/Queue.antt =====
-- merge-memop.cpp: a list of which the first least entry is taken meets what is asked of the queue.
use mathlib.Core.List.{Memᴰ}
use mathlib.Core.List.Memᴰ as MemD
use mem_order.Base.{
  ℕ, zero, suc, ◌≡◌, List, [], ◌∷◌, Option, none, some, length, arith, refl, ap, inl, inr, ◌⊎◌,
  Bool-cases, if◌then◌else◌, false, true, subst,
}
use mem_order.Mem.{ReplayWaitMemop}
use mem_order.Reorder.{SortedMemop}
use mem_order.Reorder.Sorted.{Sorted}
use mem_order.Merge.{QueEnt, gt, MergeFiles, loaded_log, close_object, open_object, object_log}
use mem_order.Merge.Queue.{LogQueue, merge_memop}

-- The least of `e` and the list, and the others.
first_least : QueEnt → List QueEnt → QueEnt × List QueEnt
first_least e [] = (e, [])
first_least e (x ∷ q) =
    let (y, rest) = first_least (if gt e x then x else e) q in (y, (if gt e x then e else x) ∷ rest)

record IsLeast (e : QueEnt) (q : List QueEnt) (y : QueEnt) (rest : List QueEnt) : Type 0 where
  taken : Memᴰ y (e ∷ q)
  kept : (z : QueEnt) → Memᴰ z rest → Memᴰ z (e ∷ q)
  split : (z : QueEnt) → Memᴰ z (e ∷ q) → (z ≡ y) ⊎ Memᴰ z rest
  least : (z : QueEnt) → Memᴰ z (e ∷ q) → gt y z ≡ false
  shorter : length rest ≡ length q

gt_self : (e : QueEnt) → gt e e ≡ false
gt_self e = ground arith

gt_trans : (a b c : QueEnt) → gt a b ≡ false → gt b c ≡ false → gt a c ≡ false
gt_trans a b c p q = ground arith

gt_asym : (a b : QueEnt) → gt a b ≡ true → gt b a ≡ false
gt_asym a b p = ground arith

-- The order of the first two entries does not matter.
swapped : (z a b : QueEnt) (q : List QueEnt) → Memᴰ z (a ∷ b ∷ q) → Memᴰ z (b ∷ a ∷ q)
swapped z a b q m = elim (MemD.cases_cons m) [
  | inl e ↦ Memᴰ.tail (Memᴰ.head e)
  | inr h ↦ elim (MemD.cases_cons h) [ inl e ↦ Memᴰ.head e | inr k ↦ Memᴰ.tail (Memᴰ.tail k) ]
]

-- One more entry `b`, which is not before `a`.
IsLeast-cons :
    (a b : QueEnt) (q : List QueEnt) (y : QueEnt) (rest : List QueEnt)
    → gt a b ≡ false
    → IsLeast a q y rest
    → IsLeast a (b ∷ q) y (b ∷ rest)
IsLeast-cons a b q y rest le h = record {
  taken = elim (MemD.cases_cons h.taken) [ inl e ↦ Memᴰ.head e | inr m ↦ Memᴰ.tail (Memᴰ.tail m) ];
  kept = λ z m. elim (MemD.cases_cons m) [
    | inl e ↦ Memᴰ.tail (Memᴰ.head e)
    | inr k ↦ elim (MemD.cases_cons (h.kept z k)) [
      | inl e ↦ Memᴰ.head e
      | inr n ↦ Memᴰ.tail (Memᴰ.tail n)
    ]
  ];
  split = λ z m. elim (MemD.cases_cons (swapped z a b q m)) [
    | inl e ↦ inr (Memᴰ.head e)
    | inr k ↦ elim (h.split z k) [ inl e ↦ inl e | inr n ↦ inr (Memᴰ.tail n) ]
  ];
  least = λ z m. elim (MemD.cases_cons (swapped z a b q m)) [
    | inl e ↦ rw e (gt_trans y a b (h.least a (Memᴰ.head refl)) le)
    | inr k ↦ h.least z k
  ];
  shorter = omega (arith, h.shorter);
}

IsLeast-swap :
    (a b : QueEnt) (q : List QueEnt) (y : QueEnt) (rest : List QueEnt)
    → IsLeast a (b ∷ q) y rest
    → IsLeast b (a ∷ q) y rest
IsLeast-swap a b q y rest h = record {
  taken = swapped y a b q h.taken;
  kept = λ z m. swapped z a b q (h.kept z m);
  split = λ z m. h.split z (swapped z b a q m);
  least = λ z m. h.least z (swapped z b a q m);
  shorter = h.shorter;
}

first_least-IsLeast :
    (e : QueEnt) (q : List QueEnt) → IsLeast e q (first_least e q).0 (first_least e q).1
unfolding first_least
first_least-IsLeast e [] = record {
  taken = Memᴰ.head refl;
  kept = λ z m. absurd (MemD.not-nil m);
  split = λ z m. inl (MemD.eq_of_singleton m);
  least = λ z m. rw (MemD.eq_of_singleton m) (gt_self e);
  shorter = refl;
}
first_least-IsLeast e (x ∷ q) = elim (Bool-cases (gt e x)) [
  | inl p ↦
      rw p
        (IsLeast-swap x e q _ _ (IsLeast-cons x e q _ _ (gt_asym e x p) (first_least-IsLeast x q)))
  | inr p ↦ rw p (IsLeast-cons e x q _ _ p (first_least-IsLeast e q))
]

list_pop : List QueEnt → Option (QueEnt × List QueEnt)
list_pop [] = none
list_pop (e ∷ q) = some (first_least e q)

list_pop-IsLeast :
    (q rest : List QueEnt) (x : QueEnt)
    → list_pop q ≡ some (x, rest)
    → (e : QueEnt) × (t : List QueEnt) × (q ≡ e ∷ t) × IsLeast e t x rest
unfolding list_pop
list_pop-IsLeast [] rest x p = absurd cc
list_pop-IsLeast (e ∷ t) rest x p =
    let same : first_least e t ≡ (x, rest) = cc in
    (e, t, refl, subst (λ y. IsLeast e t y.0 y.1) same (first_least-IsLeast e t))

pub list_queue : LogQueue
unfolding list_pop
list_queue = record {
  pop = list_pop;
  pop_empty = refl;
  pop_some = λ e q. ((first_least e q).0, (first_least e q).1, refl);
  taken = λ q rest x p. let (e, t, w, h) = list_pop-IsLeast q rest x p in rw w h.taken;
  kept = λ q rest x e p m. let (a, t, w, h) = list_pop-IsLeast q rest x p in rw w (h.kept e m);
  split = λ q rest x e p m. let (a, t, w, h) = list_pop-IsLeast q rest x p in h.split e (rw w at m);
  least =
      λ q rest x e p m. let (a, t, w, h) = list_pop-IsLeast q rest x p in h.least e (h.kept e m);
  shorter = λ q rest x p.
      let (a, t, w, h) = list_pop-IsLeast q rest x p in omega (arith, ap length w, h.shorter);
}

-- Object 1 has no reads between two objects with some.
abbrev two_logs : ℕ → List SortedMemop
two_logs zero =
    record { objid = 0; version = 2; memop = 3 } ∷ record { objid = 2; version = 0; memop = 1 } ∷ []
two_logs (suc zero) = record { objid = 0; version = 0; memop = 0 } ∷ []
two_logs (suc (suc t)) = []

abbrev loaded_of : Option (Option MergeFiles) → ℕ → List ReplayWaitMemop
loaded_of none o = []
loaded_of (some files) o = loaded_log 4 files o

two_logs-0 :
    loaded_of (merge_memop list_queue 4 2 two_logs) 0
    ≡ record { version = 0; memop = 0; tid = 1 } ∷ record { version = 2; memop = 3; tid = 0 } ∷ []
unfolding merge_memop loaded_log list_queue list_pop first_least close_object open_object object_log
two_logs-0 = refl

two_logs-1 : loaded_of (merge_memop list_queue 4 2 two_logs) 1 ≡ []
unfolding merge_memop loaded_log list_queue list_pop first_least close_object open_object object_log
two_logs-1 = refl

two_logs-2 :
    loaded_of (merge_memop list_queue 4 2 two_logs) 2
    ≡ record { version = 0; memop = 1; tid = 0 } ∷ []
unfolding merge_memop loaded_log list_queue list_pop first_least close_object open_object object_log
two_logs-2 = refl

-- For 128 threads `(tid_t)nthr` is -128.
two_logs-128 : merge_memop list_queue 4 128 two_logs ≡ none
unfolding merge_memop
two_logs-128 = refl
