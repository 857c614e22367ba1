-- ===== src/Log.antt =====
-- log.c and log.h: a log file that is written through a mapping of its end. The system's part is
-- the file (its size and bytes), the file offset of the mapping, and the address that `mmap`
-- chooses, which is an argument.
pub mod Tell
pub mod File
pub mod Reread
use mem_order.Base.{
  ℕ, Bool, leb, zero, suc, ◌+◌, ◌-◌, ◌%◌, ◌==◌, ltb, if◌then◌else◌, List, [], ◌∷◌, Option, some,
  none, length, update,
}

abbrev pub page_size : ℕ
page_size = 4096

abbrev pub log_buffer_size : ℕ
log_buffer_size = 4096

-- `struct mapped_log`, and the open file: `offset` is the file offset mapped at `start`, and
-- `bytes` are the file's contents.
pub record MappedLog : Type 0 where
  pub start : ℕ
  pub buf : ℕ
  pub end : ℕ
  pub offset : ℕ
  pub size : ℕ
  pub bytes : ℕ → ℕ

unfoldable pub new_mapped_log_path : ℕ → MappedLog
new_mapped_log_path addr = record {
  start = addr;
  buf = addr;
  end = addr + log_buffer_size;
  offset = 0;
  size = log_buffer_size;
  bytes = λ _. 0;
}

-- Where `buf` goes after `start` in the new mapping, whose first page is the old one's last.
unfoldable pub place : ℕ → ℕ
place buf = if buf % page_size == 0 then page_size else buf % page_size

-- The new mapping: the file's last page and the added ones.
abbrev pub remap : ℕ → MappedLog → MappedLog
remap addr log = record {
  start = addr;
  buf = addr + place log.buf;
  end = addr + (log_buffer_size + page_size);
  offset = log.size - page_size;
  size = log.size + log_buffer_size;
  bytes = log.bytes;
}

-- The assertion is that the size is a multiple of the buffer's.
unfoldable pub enlarge_mapped_log : ℕ → MappedLog → Option MappedLog
unfolding place
enlarge_mapped_log addr log =
    if log.size % log_buffer_size == 0 then some (remap addr log) else none

-- The test of `next_log_entry`.
unfoldable pub make_room : ℕ → ℕ → MappedLog → Option MappedLog
unfolding enlarge_mapped_log
make_room addr entry_size log =
    if ltb log.end (log.buf + entry_size) then enlarge_mapped_log addr log else some log

-- `next_log_entry`: the address for the entry, and the log after it.
unfoldable pub next_log_entry : ℕ → ℕ → MappedLog → Option (ℕ × MappedLog)
unfolding make_room
next_log_entry addr entry_size log = elim (make_room addr entry_size log) [
  | none ↦ none
  | some l ↦ some (l.buf, record l { buf = l.buf + entry_size })
]

-- Bytes stored from a file offset on.
unfoldable pub store : ℕ → List ℕ → (ℕ → ℕ) → ℕ → ℕ
store at [] bytes = bytes
store at (x ∷ xs) bytes = store (suc at) xs (update bytes at x)

-- A log entry taken and filled, as the callers of `next_log_entry` do.
unfoldable pub append_entry : ℕ → List ℕ → MappedLog → Option MappedLog
unfolding next_log_entry store
append_entry addr entry log = elim (next_log_entry addr (length entry) log) [
  | none ↦ none
  | some (p, l) ↦ some (record l { bytes = store (l.offset + (p - l.start)) entry l.bytes })
]

-- The entries of a log, each with the address that a new mapping would get.
unfoldable pub append_entries : List (ℕ × List ℕ) → MappedLog → Option MappedLog
unfolding append_entry
append_entries [] log = some log
append_entries ((addr, entry) ∷ rest) log = elim (append_entry addr entry log) [
  | none ↦ none
  | some l ↦ append_entries rest l
]

-- `unmap_truncate_log`: the file's size is what has been used.
unfoldable pub unmap_truncate_log : MappedLog → ℕ
unmap_truncate_log log = log.size - (log.end - log.buf)

-- `open_mapped_log_path` on a file that exists; a mapping of no bytes is refused by `mmap`.
unfoldable pub open_mapped_log_path : ℕ → ℕ → (ℕ → ℕ) → Option MappedLog
open_mapped_log_path addr size bytes =
    if size == 0
    then none
    else some (record {
      start = addr;
      buf = addr;
      end = addr + size;
      offset = 0;
      size = size;
      bytes = bytes;
    })

-- `read_log_entry`: the address of the entry, and the log after it; `none` is `NULL`.
unfoldable pub read_log_entry : ℕ → MappedLog → Option (ℕ × MappedLog)
read_log_entry entry_size log =
    if ltb log.end (log.buf + entry_size)
    then none
    else some (log.buf, record log { buf = log.buf + entry_size })

abbrev pub log_end : MappedLog → Bool
log_end log = leb log.end log.buf

-- The bytes from a file offset on.
unfoldable pub load : ℕ → ℕ → (ℕ → ℕ) → List ℕ
load at zero bytes = []
load at (suc n) bytes = bytes at ∷ load (suc at) n bytes

-- Entries of the given sizes, read as the callers of `read_log_entry` do.
unfoldable pub read_entries : List ℕ → MappedLog → Option (List (List ℕ) × MappedLog)
unfolding read_log_entry load
read_entries [] log = some ([], log)
read_entries (n ∷ sizes) log = elim (read_log_entry n log) [
  | none ↦ none
  | some (p, l) ↦ elim (read_entries sizes l) [
    | none ↦ none
    | some (entries, l') ↦ some (load (log.offset + (p - log.start)) n log.bytes ∷ entries, l')
  ]
]
