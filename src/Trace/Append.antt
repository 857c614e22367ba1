-- ===== src/Trace/Append.antt =====
-- A trace that grows at its end.
use mem_order.Base.{ℕ, ◌==◌, ◌≡◌, refl, List, [], ◌∷◌, ◌++◌, Bool-cases, inl, inr, ap}
use mem_order.Trace.{Event, access, advance, view}

-- The versions after a trace.
unfoldable pub after : (ℕ → ℕ) → List Event → ℕ → ℕ
after ver [] = ver
after ver (e ∷ es) = after (advance ver e) es

pub after-append :
    (ver : ℕ → ℕ) (es fs : List Event) → after ver (es ++ fs) ≡ after (after ver es) fs
unfolding after
after-append ver [] fs = refl
after-append ver (e ∷ es) fs = after-append (advance ver e) es fs

pub view-append :
    (t : ℕ) (ver : ℕ → ℕ) (es fs : List Event)
    → view t ver (es ++ fs) ≡ view t ver es ++ view t (after ver es) fs
unfolding after view
view-append t ver [] fs = refl
view-append t ver (e ∷ es) fs = elim (Bool-cases (e.tid == t)) [
  | inl own ↦
      rw own (ap (λ l. access e.op e.objid (ver e.objid) ∷ l) (view-append t (advance ver e) es fs))
  | inr other ↦ rw other (view-append t (advance ver e) es fs)
]
