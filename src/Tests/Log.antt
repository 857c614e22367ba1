-- ===== src/Tests/Log.antt =====
-- log.c and log.h: two entries of three bytes.

use mathlib.Core.List.Memᴰ as MemD
use mem_order.Base.{
  ℕ, ◌%◌, ◌≤◌, ◌≡◌, List, [], ◌∷◌, some, length, arith, refl, subst, sym, true, inl, inr,
}
use mem_order.Log.{
  MappedLog, page_size, append_entry, append_entries, new_mapped_log_path, unmap_truncate_log,
  open_mapped_log_path, read_entries, log_end,
}
use mem_order.Log.Tell.{IsMapped, Appended, append_entry-Appended}
use mem_order.Log.File.{Holds, Fits, append_entries-contents}
use mem_order.Log.Reread.{entries, reread}

abbrev two_entries : List (ℕ × List ℕ)
two_entries = (8192, 1 ∷ 2 ∷ 3 ∷ []) ∷ (4096, 4 ∷ 5 ∷ 6 ∷ []) ∷ []

two_entries-Fits : Fits two_entries
two_entries-Fits addr entry m = elim (MemD.cases_cons m) [
  | inl e ↦
      subst (λ p. (p.0 % page_size ≡ 0) × (length p.1 ≤ page_size)) (sym e) (refl, omega arith)
  | inr m' ↦
      subst (λ p. (p.0 % page_size ≡ 0) × (length p.1 ≤ page_size)) (sym (MemD.eq_of_singleton m'))
        (refl, omega arith)
]

-- A log whose mapping is used up.
abbrev full : MappedLog
full = record (new_mapped_log_path 8192) { buf = 12286 }

full-IsMapped : IsMapped full
unfolding new_mapped_log_path
full-IsMapped = record {
  start_page = refl;
  offset_page = refl;
  size_page = refl;
  nonempty = omega arith;
  from_start = omega arith;
  to_end = omega arith;
  whole = refl;
}

append_entry-Appended_example :
    (l : MappedLog) × (append_entry 4096 (1 ∷ 2 ∷ 3 ∷ []) full ≡ some l)
    × Appended (1 ∷ 2 ∷ 3 ∷ []) full l
append_entry-Appended_example =
    append_entry-Appended 4096 (1 ∷ 2 ∷ 3 ∷ []) full refl full-IsMapped (omega arith)

append_entries-contents_example :
    (l : MappedLog) × (append_entries two_entries (new_mapped_log_path 4096) ≡ some l)
    × (unmap_truncate_log l ≡ 6)
    × Holds l.bytes (1 ∷ 2 ∷ 3 ∷ 4 ∷ 5 ∷ 6 ∷ [])
append_entries-contents_example = append_entries-contents 4096 two_entries refl two_entries-Fits

reread_example :
    (l opened l' : MappedLog) × (append_entries two_entries (new_mapped_log_path 4096) ≡ some l)
    × (open_mapped_log_path 0 (unmap_truncate_log l) l.bytes ≡ some opened)
    × (read_entries (3 ∷ 3 ∷ []) opened ≡ some (entries two_entries, l'))
    × (log_end l' ≡ true)
reread_example = reread 4096 0 two_entries refl two_entries-Fits (omega arith)
