-- ===== src/Trace/Growing.antt =====
-- The versions of a thread's accesses to one object grow along a trace.
use mem_order.Base.{ℕ, suc, ◌≤◌, ◌<◌, ◌≡◌, List, [], ◌∷◌, some, get_elem?, arith, refl, inl, inr}
use mem_order.Trace.{Op, Event, Access, access, next_version, advance, view}
use mem_order.Trace.Order.{view-cases, view-ge}

-- The accesses to `o` in `xs` have at least the version `b`.
abbrev pub FromVersion : ℕ → ℕ → List Access → Type 0
FromVersion o b xs = (k v : ℕ) (op : Op) → get_elem? xs k ≡ some (access op o v) → b ≤ v

-- A thread's accesses to an object come with growing versions, after a write larger ones.
abbrev pub Ordered : List Access → Type 0
Ordered xs =
    (m k o v w : ℕ) (op op' : Op)
    → m < k
    → get_elem? xs m ≡ some (access op o v)
    → get_elem? xs k ≡ some (access op' o w)
    → next_version op v ≤ w

pub Ordered-head :
    (a : Access) (xs : List Access)
    → Ordered (a ∷ xs)
    → FromVersion a.objid (next_version a.op a.version) xs
Ordered-head a xs h k v op e = h 0 (suc k) a.objid a.version v a.op op (omega arith) refl e

pub Ordered-tail : (a : Access) (xs : List Access) → Ordered (a ∷ xs) → Ordered xs
Ordered-tail a xs h m k o v w op op' lt p q = h (suc m) (suc k) o v w op op' (omega arith) p q

pub view-Ordered : (t : ℕ) (ver : ℕ → ℕ) (es : List Event) → Ordered (view t ver es)
unfolding view
view-Ordered t ver [] m k o v w op op' lt p q = ground arith
view-Ordered t ver (e ∷ es) m k o v w op op' lt p q = elim (view-cases t ver e es m p) [
  | inl (own, i, x) ↦ elim (view-cases t ver e es k q) [
    | inl (own', j, y) ↦ absurd (omega arith)
    | inr (k', j, y) ↦
        let later : advance ver e o ≤ w = view-ge t (advance ver e) es k' y in ground arith
  ]
  | inr (m', i, x) ↦ elim (view-cases t ver e es k q) [
    | inl (own', j, y) ↦ absurd (omega arith)
    | inr (k', j, y) ↦ view-Ordered t (advance ver e) es m' k' o v w op op' (ground arith) x y
  ]
]
