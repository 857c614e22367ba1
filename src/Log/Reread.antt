-- ===== src/Log/Reread.antt =====
-- log.c and log.h: a closed log is read back as it was written.
use mem_order.Base.{
  ℕ, suc, ◌+◌, ◌%◌, ◌≤◌, ◌<◌, ◌≡◌, ◌==◌, List, [], ◌∷◌, ◌++◌, some, get_elem?, length, arith, refl,
  ap, ◌∙◌, length-append, subst, true, ltb, false,
}
use mem_order.Log.{
  page_size, MappedLog, append_entries, new_mapped_log_path, unmap_truncate_log,
  open_mapped_log_path, read_log_entry, log_end, load, read_entries,
}
use mem_order.Log.Tell.{tell}
use mem_order.Log.File.{contents, Fits, append_entries-contents}

abbrev pub sizes : List (ℕ × List ℕ) → List ℕ
sizes [] = []
sizes ((addr, entry) ∷ rest) = length entry ∷ sizes rest

abbrev pub entries : List (ℕ × List ℕ) → List (List ℕ)
entries [] = []
entries ((addr, entry) ∷ rest) = entry ∷ entries rest

-- The bytes from `at` on are `xs`.
abbrev HoldsFrom : ℕ → (ℕ → ℕ) → List ℕ → Type 0
HoldsFrom at f xs = (i x : ℕ) → get_elem? xs i ≡ some x → f (at + i) ≡ x

HoldsFrom-tail :
    (at : ℕ) (f : ℕ → ℕ) (x : ℕ) (xs : List ℕ) → HoldsFrom at f (x ∷ xs) → HoldsFrom (suc at) f xs
HoldsFrom-tail at f x xs h i y e = subst (λ n. f n ≡ y) (omega arith) (h (suc i) y e)

load-HoldsFrom :
    (xs ys : List ℕ) (at : ℕ) (f : ℕ → ℕ)
    → HoldsFrom at f (xs ++ ys)
    → (load at (length xs) f ≡ xs) × HoldsFrom (at + length xs) f ys
unfolding load
load-HoldsFrom [] ys at f h = (refl, λ i x e. subst (λ n. f n ≡ x) (omega arith) (h i x e))
load-HoldsFrom (x ∷ xs) ys at f h =
    let (p, q) = load-HoldsFrom xs ys (suc at) f (HoldsFrom-tail at f x (xs ++ ys) h) in
    let here : f at ≡ x = subst (λ n. f n ≡ x) (omega arith) (h 0 x refl) in
    (
      ap (λ y. y ∷ load (suc at) (length xs) f) here ∙ ap (λ l. x ∷ l) p,
      λ i y e. subst (λ n. f n ≡ y) (omega arith) (q i y e),
    )

read_entries-entries :
    (es : List (ℕ × List ℕ)) (log : MappedLog)
    → log.start ≤ log.buf
    → log.buf + length (contents es) ≡ log.end
    → HoldsFrom (tell log) log.bytes (contents es)
    → (l : MappedLog) × (read_entries (sizes es) log ≡ some (entries es, l)) × (log_end l ≡ true)
unfolding read_entries read_log_entry
read_entries-entries [] log le all h = (log, refl, ground arith)
read_entries-entries ((addr, entry) ∷ rest) log le all h =
    let (here, later) = load-HoldsFrom entry (contents rest) (tell log) log.bytes h in
    let next : MappedLog = record log { buf = log.buf + length entry } in
    let (l, e, end) =
      read_entries-entries rest next (omega arith)
        (omega (arith, length-append entry (contents rest)))
        (subst (λ n. HoldsFrom n log.bytes (contents rest)) (omega arith) later) in
    let fits : ltb log.end (log.buf + length entry) ≡ false =
      ground (arith, length-append entry (contents rest)) in
    (l, rw (fits, read_entries, read_log_entry, e) (ap (λ x. some (x ∷ entries rest, l)) here), end)

-- Entries of at most a page each, written to a new log that is then closed, are read back as they
-- were from the opened file, which ends after them, where there is a byte at all. New
-- mappings are page-aligned.
pub reread :
    (addr again : ℕ) (es : List (ℕ × List ℕ))
    → addr % page_size ≡ 0
    → Fits es
    → 0 < length (contents es)
    → (l opened l' : MappedLog) × (append_entries es (new_mapped_log_path addr) ≡ some l)
      × (open_mapped_log_path again (unmap_truncate_log l) l.bytes ≡ some opened)
      × (read_entries (sizes es) opened ≡ some (entries es, l'))
      × (log_end l' ≡ true)
unfolding open_mapped_log_path
reread addr again es aligned fits some_byte =
    let (l, e, size, holds) = append_entries-contents addr es aligned fits in
    let opened : MappedLog = record {
      start = again;
      buf = again;
      end = again + unmap_truncate_log l;
      offset = 0;
      size = unmap_truncate_log l;
      bytes = l.bytes;
    } in
    let nonzero : (unmap_truncate_log l == 0) ≡ false = ground (arith, size) in
    let (l', r, end) =
      read_entries-entries es opened (omega arith) (omega (arith, size))
        (λ i x q. subst (λ n. l.bytes n ≡ x) (omega arith) (holds i x q)) in
    (l, opened, l', e, rw nonzero, r, end)
