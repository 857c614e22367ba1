-- ===== src/Reorder/Load.antt =====
-- reorder-memop.cpp: what `load_wait_memop_log` takes from a recorder's log.
use mathlib.Core.List.{Memᴰ}
use mem_order.Base.{
  ℕ, ◌+◌, ◌<◌, ◌==◌, ◌≡◌, ltb, if◌then◌else◌, true, List, [], ◌∷◌, ◌++◌, map, some, arith, refl,
  append-nil, append_assoc, sym, ap, ◌∙◌, length, Bool-cases, inl, inr,
}
use mem_order.Mem.{WaitMemop}
use mem_order.Record.Reads.{read_log}
use mem_order.Record.Pending.{memop_end}
use mem_order.Reorder.{SortedMemop, WaitMemopAll, push_back, load_wait_memop_log}

-- The recorder's entry for a read.
abbrev pub entry_of : SortedMemop → WaitMemop
entry_of w = read_log w.objid w.version w.memop

-- The entries of one object, in their order.
unfoldable pub of_object : ℕ → List SortedMemop → List SortedMemop
of_object o [] = []
of_object o (w ∷ ws) = let rest = of_object o ws in if w.objid == o then w ∷ rest else rest

abbrev pub InRange : ℕ → List SortedMemop → Type 0
InRange nobj ws = (w : SortedMemop) → Memᴰ w ws → w.objid < nobj

of_object-push_back :
    (w : SortedMemop) (ws : List SortedMemop) (a : WaitMemopAll) (o : ℕ)
    → (push_back w a).all o ++ of_object o ws ≡ a.all o ++ of_object o (w ∷ ws)
unfolding of_object
of_object-push_back w ws a o = elim (Bool-cases (w.objid == o)) [
  | inl e ↦
      let p : w.objid ≡ o = ground arith in
      rw e (
        ap (λ n. (a.all n ++ (w ∷ [])) ++ of_object o ws) p
        ∙ append_assoc (a.all o) (w ∷ []) (of_object o ws))
  | inr e ↦ rw e
]

-- A log of reads with its end mark is loaded whole, each object's entries in their order.
pub load_wait_memop_log-of_object :
    (nobj : ℕ) (ws : List SortedMemop) (a : WaitMemopAll)
    → InRange nobj ws
    → (b : WaitMemopAll) × (load_wait_memop_log nobj (map entry_of ws ++ (memop_end ∷ [])) a
        ≡ some b)
      × ((o : ℕ) → b.all o ≡ a.all o ++ of_object o ws)
      × (b.total ≡ a.total + length ws)
unfolding load_wait_memop_log of_object
load_wait_memop_log-of_object nobj [] a lt = (a, refl, λ o. sym (append-nil (a.all o)), omega arith)
load_wait_memop_log-of_object nobj (w ∷ ws) a lt =
    let (b, e, h, n) =
      load_wait_memop_log-of_object nobj ws (push_back w a) (λ x m. lt x (Memᴰ.tail m)) in
    let small : ltb w.objid nobj ≡ true = let p = lt w (Memᴰ.head refl) in ground arith in
    (
      b,
      rw (small, load_wait_memop_log) e,
      λ o. h o ∙ of_object-push_back w ws a o,
      omega (arith, n),
    )
