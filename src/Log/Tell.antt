-- ===== src/Log/Tell.antt =====
-- log.c and log.h: where in the file the next entry goes.
use mem_order.Base.{
  ℕ, ap, ◌∙◌, ltb, List, length, ◌+◌, ◌-◌, ◌%◌, ◌≤◌, ◌<◌, ◌≡◌, some, arith, Bool-cases, inl, inr,
  ◌==◌, refl, ◌≢◌,
}
use mem_order.Log.{
  make_room, append_entry, next_log_entry, store, remap, place, page_size, MappedLog,
  new_mapped_log_path, enlarge_mapped_log,
}

-- The file offset of `buf`.
abbrev pub tell : MappedLog → ℕ
tell log = log.offset + (log.buf - log.start)

-- The mapping is page-aligned and reaches the end of the file, and `buf` is inside it.
pub record IsMapped (log : MappedLog) : Type 0 where
  pub start_page : log.start % page_size ≡ 0
  pub offset_page : log.offset % page_size ≡ 0
  pub size_page : log.size % page_size ≡ 0
  pub nonempty : page_size ≤ log.size
  pub from_start : log.start ≤ log.buf
  pub to_end : log.buf ≤ log.end
  pub whole : log.offset + (log.end - log.start) ≡ log.size

pub new_mapped_log_path-IsMapped :
    (addr : ℕ) → addr % page_size ≡ 0 → IsMapped (new_mapped_log_path addr)
unfolding new_mapped_log_path
new_mapped_log_path-IsMapped addr a = record {
  start_page = a;
  offset_page = refl;
  size_page = refl;
  nonempty = omega arith;
  from_start = omega arith;
  to_end = omega arith;
  whole = omega arith;
}

end_page : (log : MappedLog) → IsMapped log → log.end % page_size ≡ 0
end_page log m =
    omega (arith, m.start_page, m.offset_page, m.size_page, m.from_start, m.to_end, m.whole)

place-last_page :
    (buf end : ℕ)
    → end % page_size ≡ 0
    → buf ≤ end
    → end < buf + page_size
    → place buf + end ≡ buf + page_size
unfolding place
place-last_page buf end a le short = elim (Bool-cases (buf % page_size == 0)) [
  | inl p ↦ let z : buf % page_size ≡ 0 = ground arith in rw (p, place) (omega arith)
  | inr p ↦ let z : buf % page_size ≢ 0 = ground arith in rw (p, place) (omega arith)
]

module _ (addr : ℕ) (log : MappedLog) (aligned : addr % page_size ≡ 0) (m : IsMapped log)
    (short : log.end < log.buf + page_size) where
  enlarge_mapped_log_lem : enlarge_mapped_log addr log ≡ some (remap addr log)
  unfolding enlarge_mapped_log
  enlarge_mapped_log_lem = ground (arith, m.size_page)

  moved : place log.buf + log.end ≡ log.buf + page_size
  moved = place-last_page log.buf log.end (end_page log m) m.to_end short

  remap-IsMapped : IsMapped (remap addr log)
  remap-IsMapped = record {
    start_page = aligned;
    offset_page = omega (arith, m.size_page);
    size_page = omega (arith, m.size_page);
    nonempty = omega arith;
    from_start = omega arith;
    to_end = omega (arith, moved, m.to_end);
    whole = omega (arith, m.nonempty);
  }

  tell-remap : tell (remap addr log) ≡ tell log
  tell-remap = omega (arith, moved, m.nonempty, m.whole, m.to_end, m.from_start)

  remap-room : (remap addr log).buf + page_size ≤ (remap addr log).end
  remap-room = omega (arith, moved, m.to_end)

-- The log has a place for `n` more bytes, and is otherwise as it was.
pub record HasRoom (n : ℕ) (log l : MappedLog) : Type 0 where
  pub mapped : IsMapped l
  pub same_place : tell l ≡ tell log
  pub room : l.buf + n ≤ l.end
  pub same_bytes : l.bytes ≡ log.bytes

make_room-HasRoom :
    (addr n : ℕ) (log : MappedLog)
    → addr % page_size ≡ 0
    → IsMapped log
    → n ≤ page_size
    → (l : MappedLog) × (make_room addr n log ≡ some l) × HasRoom n log l
unfolding make_room
make_room-HasRoom addr n log aligned m small = elim (Bool-cases (ltb log.end (log.buf + n))) [
  | inl over ↦
      let short : log.end < log.buf + page_size = ground arith in
      (
        remap addr log,
        rw over (enlarge_mapped_log_lem addr log aligned m short),
        record {
          mapped = remap-IsMapped addr log aligned m short;
          same_place = tell-remap addr log aligned m short;
          room = omega (arith, remap-room addr log aligned m short);
          same_bytes = refl;
        },
      )
  | inr fits ↦ (
    log,
    rw fits,
    record { mapped = m; same_place = refl; room = ground arith; same_bytes = refl },
  )
]

-- The entry's bytes are stored at the place of the next entry, and the log is past them.
pub record Appended (entry : List ℕ) (log l : MappedLog) : Type 0 where
  pub mapped : IsMapped l
  pub past : tell l ≡ tell log + length entry
  pub stored : l.bytes ≡ store (tell log) entry log.bytes

-- From a mapped log, `next_log_entry` gives an entry of at most a page a place that directly
-- follows the last one in the file, whether or not the log is enlarged for it, and the log stays
-- mapped. A new mapping is page-aligned.
pub append_entry-Appended :
    (addr : ℕ) (entry : List ℕ) (log : MappedLog)
    → addr % page_size ≡ 0
    → IsMapped log
    → length entry ≤ page_size
    → (l : MappedLog) × (append_entry addr entry log ≡ some l) × Appended entry log l
unfolding append_entry next_log_entry
append_entry-Appended addr entry log aligned m small =
    let (l, e, h) = make_room-HasRoom addr (length entry) log aligned m small in
    (
      record l {
        buf = l.buf + length entry;
        bytes = store (l.offset + (l.buf - l.start)) entry l.bytes;
      },
      rw (e, append_entry, next_log_entry),
      record {
        mapped = record {
          start_page = h.mapped.start_page;
          offset_page = h.mapped.offset_page;
          size_page = h.mapped.size_page;
          nonempty = h.mapped.nonempty;
          from_start = omega (arith, h.mapped.from_start);
          to_end = h.room;
          whole = h.mapped.whole;
        };
        past = omega (arith, h.same_place, h.mapped.from_start);
        stored =
            ap (λ f. store (tell l) entry f) h.same_bytes
            ∙ ap (λ at. store at entry log.bytes) h.same_place;
      },
    )
