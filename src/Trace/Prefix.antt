-- ===== src/Trace/Prefix.antt =====
-- The first part of a trace: what its accesses are in the whole, and which access follows it.
use mem_order.Base.{
  ℕ, zero, suc, ◌+◌, ◌≤◌, ◌<◌, ◌==◌, ◌≡◌, refl, ◌⊎◌, inl, inr, List, [], ◌∷◌, ◌++◌, some, get_elem?,
  length, arith, Bool-cases, true, ap, ◌∙◌, length-append,
}
use mem_order.Trace.{Op-cases, rd, wr, Event, Access, access, advance, view}
use mem_order.Trace.Order.{place, view-cases, view-ge}
use mem_order.Trace.Append.{after, view-append}

-- An element of two lists joined is in the first, or it is in the second.
get_elem?-append_cases {ℓ} :
    {A : Type ℓ} (xs ys : List A) (m : ℕ) {a : A}
    → get_elem? (xs ++ ys) m ≡ some a
    → (m < length xs) ⊎ ((k : ℕ) × (get_elem? ys k ≡ some a))
get_elem?-append_cases [] ys m h = inr (m, h)
get_elem?-append_cases (x ∷ xs) ys zero h = inl (omega arith)
get_elem?-append_cases (x ∷ xs) ys (suc m) h = elim (get_elem?-append_cases xs ys m h) [
  | inl lt ↦ inl (omega (arith, lt))
  | inr r ↦ inr r
]

get_elem?-append_at {ℓ} :
    {A : Type ℓ} (xs ys : List A) (k : ℕ) → get_elem? (xs ++ ys) (length xs + k) ≡ get_elem? ys k
get_elem?-append_at [] ys k = let e : 0 + k ≡ k = omega arith in ap (get_elem? ys) e
get_elem?-append_at (x ∷ xs) ys k =
    let e : length (x ∷ xs) + k ≡ suc (length xs + k) = omega arith in
    ap (get_elem? (x ∷ (xs ++ ys))) e ∙ get_elem?-append_at xs ys k

-- The access of the event that follows `pre`.
pub view-next :
    (ver : ℕ → ℕ) (pre : List Event) (e : Event) (post : List Event)
    → get_elem? (view e.tid ver (pre ++ (e ∷ post))) (length (view e.tid ver pre))
      ≡ some (access e.op e.objid (after ver pre e.objid))
unfolding view
view-next ver pre e post =
    let own : (e.tid == e.tid) ≡ true = ground arith in
    let at_end : length (view e.tid ver pre) ≡ length (view e.tid ver pre) + 0 = omega arith in
    ap (λ l. get_elem? l (length (view e.tid ver pre))) (view-append e.tid ver pre (e ∷ post))
    ∙ ap (get_elem? (view e.tid ver pre ++ view e.tid (after ver pre) (e ∷ post))) at_end
    ∙ get_elem?-append_at (view e.tid ver pre) (view e.tid (after ver pre) (e ∷ post)) 0
    ∙ rw own refl

-- A thread's accesses, with those of the event that follows `pre`.
pub length-view-snoc :
    (t : ℕ) (ver : ℕ → ℕ) (pre : List Event) (e : Event)
    → ((e.tid ≡ t) × (length (view t ver (pre ++ (e ∷ []))) ≡ suc (length (view t ver pre))))
      ⊎ (length (view t ver (pre ++ (e ∷ []))) ≡ length (view t ver pre))
unfolding view
length-view-snoc t ver pre e = elim (Bool-cases (e.tid == t)) [
  | inl own ↦ inl (
    ground arith,
    ap length (view-append t ver pre (e ∷ []))
        ∙ length-append (view t ver pre) (view t (after ver pre) (e ∷ []))
        ∙ rw own (omega arith),
  )
  | inr other ↦ inr (
      ap length (view-append t ver pre (e ∷ []))
      ∙ length-append (view t ver pre) (view t (after ver pre) (e ∷ []))
      ∙ rw other (omega arith))
]

view-place :
    (u : ℕ) (ver : ℕ → ℕ) (e : Event) (es : List Event) (k : ℕ) {a : Access}
    → get_elem? (view u (advance ver e) es) k ≡ some a
    → get_elem? (view u ver (e ∷ es)) (place u ver e es k) ≡ some a
unfolding view
view-place u ver e es k h = elim (Bool-cases (e.tid == u)) [
  | inl own ↦ rw own h
  | inr other ↦ rw other h
]

first_write :
    (ver : ℕ → ℕ) (e : Event) (es : List Event) (o : ℕ)
    → e.objid ≡ o
    → e.op ≡ wr
    → get_elem? (view e.tid ver (e ∷ es)) 0 ≡ some (access wr o (ver o))
unfolding view
first_write ver e es o own is_wr =
    let mine : (e.tid == e.tid) ≡ true = ground arith in rw (mine, own, is_wr) refl

-- An object that is not at its first version was brought to its version by a write.
pub after-cases :
    (ver : ℕ → ℕ) (pre : List Event) (o : ℕ)
    → (after ver pre o ≡ ver o)
      ⊎ ((u : ℕ) × (m : ℕ) × (w : ℕ) × (get_elem? (view u ver pre) m ≡ some (access wr o w))
          × (after ver pre o ≡ w + 2))
unfolding after
after-cases ver [] o = inl refl
after-cases ver (e ∷ es) o = elim (after-cases (advance ver e) es o) [
  | inr (u, m, w, h, q) ↦ inr (u, place u ver e es m, w, view-place u ver e es m h, q)
  | inl same ↦ elim (Bool-cases (e.objid == o)) [
    | inr other ↦ inl (ground arith)
    | inl own ↦ elim (Op-cases e.op) [
      | inl is_rd ↦ inl (ground arith)
      | inr is_wr ↦ inr (e.tid, 0, ver o, first_write ver e es o (ground arith) is_wr, ground arith)
    ]
  ]
]

-- A read of the version that the write after `pre` reads is in `pre`.
pub view-read_before :
    (t : ℕ) (ver : ℕ → ℕ) (pre : List Event) (e : Event) (post : List Event) (m : ℕ)
    → e.op ≡ wr
    → get_elem? (view t ver (pre ++ (e ∷ post))) m
      ≡ some (access rd e.objid (after ver pre e.objid))
    → m < length (view t ver pre)
view-read_before t ver pre e post m is_wr h =
    elim (get_elem?-append_cases (view t ver pre) (view t (after ver pre) (e ∷ post)) m
      (rw (view-append t ver pre (e ∷ post)) at h)) [
        | inl lt ↦ lt
        | inr (k, g) ↦ elim (view-cases t (after ver pre) e post k g) [
          | inl (own, i, q) ↦ absurd cc
          | inr (j, i, q) ↦
              let later : advance (after ver pre) e e.objid ≤ after ver pre e.objid =
                view-ge t (advance (after ver pre) e) post j q in
              ground arith
        ]
      ]
