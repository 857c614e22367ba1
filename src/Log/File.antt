-- ===== src/Log/File.antt =====
-- log.c and log.h: what the file of a log holds when the log is closed.
use mathlib.Core.List.{Memᴰ}
use mem_order.Base.{
  ℕ, zero, suc, ◌+◌, ◌%◌, ◌≤◌, ◌<◌, ◌≡◌, List, [], ◌∷◌, ◌++◌, some, get_elem?, length, arith, refl,
  update, ◌∙◌, append_assoc, length-append, subst, append-nil, sym, ◌⊎◌, inl, inr,
}
use mem_order.Log.{
  page_size, MappedLog, store, append_entries, new_mapped_log_path, unmap_truncate_log,
}
use mem_order.Log.Tell.{tell, IsMapped, append_entry-Appended, new_mapped_log_path-IsMapped}

-- The bytes of the entries, one after the other.
abbrev pub contents : List (ℕ × List ℕ) → List ℕ
contents [] = []
contents ((addr, entry) ∷ rest) = entry ++ contents rest

-- The file begins with these bytes.
abbrev pub Holds : (ℕ → ℕ) → List ℕ → Type 0
Holds f xs = (i x : ℕ) → get_elem? xs i ≡ some x → f i ≡ x

-- New mappings are page-aligned, and an entry is at most a page.
abbrev pub Fits : List (ℕ × List ℕ) → Type 0
Fits es =
    (addr : ℕ) (entry : List ℕ)
    → Memᴰ (addr, entry) es
    → (addr % page_size ≡ 0) × (length entry ≤ page_size)

store-before : (at : ℕ) (xs : List ℕ) (f : ℕ → ℕ) (i : ℕ) → i < at → store at xs f i ≡ f i
unfolding store
store-before at [] f i lt = refl
store-before at (x ∷ xs) f i lt =
    let ih = store-before (suc at) xs (update f at x) i (omega arith) in ground arith

store-Holds :
    (at : ℕ) (xs : List ℕ) (f : ℕ → ℕ) (i x : ℕ)
    → get_elem? xs i ≡ some x
    → store at xs f (at + i) ≡ x
unfolding store
store-Holds at [] f i x h = ground arith
store-Holds at (y ∷ xs) f zero x h =
    let ih = store-before (suc at) xs (update f at y) at (omega arith) in ground arith
store-Holds at (y ∷ xs) f (suc i) x h =
    subst (λ n. store (suc at) xs (update f at y) n ≡ x) (omega arith)
      (store-Holds (suc at) xs (update f at y) i x h)

get_elem?-append :
    (xs ys : List ℕ) (i x : ℕ)
    → get_elem? (xs ++ ys) i ≡ some x
    → ((i < length xs) × (get_elem? xs i ≡ some x))
      ⊎ ((j : ℕ) × (i ≡ length xs + j) × (get_elem? ys j ≡ some x))
get_elem?-append [] ys i x h = inr (i, omega arith, h)
get_elem?-append (y ∷ xs) ys zero x h = inl (omega arith, h)
get_elem?-append (y ∷ xs) ys (suc i) x h = elim (get_elem?-append xs ys i x h) [
  | inl (lt, e) ↦ inl (omega arith, e)
  | inr (j, p, e) ↦ inr (j, omega arith, e)
]

Holds-store :
    (xs ys : List ℕ) (f : ℕ → ℕ) (at : ℕ)
    → at ≡ length xs
    → Holds f xs
    → Holds (store at ys f) (xs ++ ys)
Holds-store xs ys f at p h i x e = elim (get_elem?-append xs ys i x e) [
  | inl (lt, q) ↦ store-before at ys f i (omega arith) ∙ h i x q
  | inr (j, q, e') ↦ subst (λ n. store at ys f n ≡ x) (omega arith) (store-Holds at ys f j x e')
]

-- What the open log has taken so far.
record HasWritten (xs : List ℕ) (log : MappedLog) : Type 0 where
  mapped : IsMapped log
  at_end : tell log ≡ length xs
  holds : Holds log.bytes xs

append_entries-HasWritten :
    (es : List (ℕ × List ℕ)) (xs : List ℕ) (log : MappedLog)
    → Fits es
    → HasWritten xs log
    → (l : MappedLog) × (append_entries es log ≡ some l) × HasWritten (xs ++ contents es) l
unfolding append_entries
append_entries-HasWritten [] xs log fits w =
    (log, refl, subst (λ ys. HasWritten ys log) (sym (append-nil xs)) w)
append_entries-HasWritten ((addr, entry) ∷ rest) xs log fits w =
    let (aligned, small) = fits addr entry (Memᴰ.head refl) in
    let (l, e, a) = append_entry-Appended addr entry log aligned w.mapped small in
    let next : HasWritten (xs ++ entry) l = record {
      mapped = a.mapped;
      at_end = omega (arith, a.past, w.at_end, length-append xs entry);
      holds =
          subst (λ f. Holds f (xs ++ entry)) (sym a.stored)
            (Holds-store xs entry log.bytes (tell log) w.at_end w.holds);
    } in
    let (l', e', w') =
      append_entries-HasWritten rest (xs ++ entry) l (λ b en m. fits b en (Memᴰ.tail m)) next in
    (
      l',
      rw (e, append_entries) e',
      subst (λ ys. HasWritten ys l') (append_assoc xs entry (contents rest)) w',
    )

truncated : (xs : List ℕ) (log : MappedLog) → HasWritten xs log → unmap_truncate_log log ≡ length xs
unfolding unmap_truncate_log
truncated xs log w = omega (arith, w.mapped.whole, w.mapped.from_start, w.mapped.to_end, w.at_end)

-- Entries of at most a page each, written to a new log, are all written, however often the log is
-- enlarged; when the log is closed, its file holds their bytes, in order, and nothing else.
-- New mappings are page-aligned.
pub append_entries-contents :
    (addr : ℕ) (es : List (ℕ × List ℕ))
    → addr % page_size ≡ 0
    → Fits es
    → (l : MappedLog) × (append_entries es (new_mapped_log_path addr) ≡ some l)
      × (unmap_truncate_log l ≡ length (contents es))
      × Holds l.bytes (contents es)
unfolding new_mapped_log_path
append_entries-contents addr es aligned fits =
    let (l, e, w) = append_entries-HasWritten es [] (new_mapped_log_path addr) fits (record {
      mapped = new_mapped_log_path-IsMapped addr aligned;
      at_end = omega arith;
      holds = λ i x h. absurd cc;
    }) in
    (l, e, truncated (contents es) l w, w.holds)
