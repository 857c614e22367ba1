-- ===== src/Record/Pending.antt =====
-- The entries that the rest of a run adds to the logs, and that a thread's logs consist of them.
use mem_order.Base.{
  Bool-cases, inl, inr, append-grow, ℕ, ◌≡◌, refl, List, [], ◌∷◌, ◌++◌, minus_one, is_neg, arith,
  zero, suc, append-nil, sym, ap, ◌∙◌,
}
use mem_order.Mem.{WaitMemop, WaitVersion}
use mem_order.Trace.{Access}
use mem_order.Record.{
  LastObjinfo, Recorder, mem_init_thr, note_access, note_all, finish_from, log_last_read,
  record_thread,
}
use mem_order.Record.Emit.{
  version_entries, memop_entries, read_entry, versions-note_access, memops-note_access,
}

-- The version log entries of the accesses `xs`, taken from the state `r` on.
unfoldable pub pending_versions : List Access → Recorder → List WaitVersion
pending_versions [] r = []
pending_versions (a ∷ xs) r = version_entries a r ++ pending_versions xs (note_access a r)

-- The entries of `mem_finish_thr` for the objects from `i` on, `n` of them.
unfoldable pub finish_entries : ℕ → ℕ → (ℕ → LastObjinfo) → List WaitMemop
finish_entries i zero last = []
finish_entries i (suc n) last = read_entry i (last i) ++ finish_entries (suc i) n last

-- The memop log entries of the accesses `xs` and of the end of the thread.
unfoldable pub pending_memops : ℕ → List Access → Recorder → List WaitMemop
pending_memops nobj [] r = finish_entries 0 nobj r.last
pending_memops nobj (a ∷ xs) r = memop_entries a r ++ pending_memops nobj xs (note_access a r)

abbrev pub version_end : WaitVersion
version_end = record { memop = minus_one; version = minus_one }

abbrev pub memop_end : WaitMemop
memop_end = record { objid = minus_one; version = minus_one; memop = minus_one }

memops-log_last_read :
    (i : ℕ) (r : Recorder)
    → (log_last_read i (r.last i) r).memops ≡ r.memops ++ read_entry i (r.last i)
unfolding read_entry
memops-log_last_read i r = ground (arith, append-nil r.memops)

last-log_last_read : (i : ℕ) (r : Recorder) → (log_last_read i (r.last i) r).last ≡ r.last
last-log_last_read i r = elim (Bool-cases (is_neg (r.last i).memop)) [ inl e ↦ rw e | inr e ↦ rw e ]

pub memops-finish_from :
    (i n : ℕ) (r : Recorder) → (finish_from i n r).memops ≡ r.memops ++ finish_entries i n r.last
unfolding finish_from finish_entries
memops-finish_from i zero r = sym (append-nil r.memops)
memops-finish_from i (suc n) r =
    append-grow r.memops (read_entry i (r.last i)) (finish_entries (suc i) n r.last)
      (memops-finish_from (suc i) n (log_last_read i (r.last i) r)
        ∙ ap (λ l. (log_last_read i (r.last i) r).memops ++ finish_entries (suc i) n l)
            (last-log_last_read i r))
      (memops-log_last_read i r)

versions-log_last_read :
    (i : ℕ) (r : Recorder) → (log_last_read i (r.last i) r).versions ≡ r.versions
versions-log_last_read i r = ground arith

pub versions-finish_from : (i n : ℕ) (r : Recorder) → (finish_from i n r).versions ≡ r.versions
unfolding finish_from
versions-finish_from i zero r = refl
versions-finish_from i (suc n) r =
    versions-finish_from (suc i) n (log_last_read i (r.last i) r) ∙ versions-log_last_read i r

versions-note_all :
    (xs : List Access) (r : Recorder)
    → (note_all xs r).versions ≡ r.versions ++ pending_versions xs r
unfolding note_all pending_versions
versions-note_all [] r = sym (append-nil r.versions)
versions-note_all (a ∷ xs) r =
    append-grow r.versions (version_entries a r) (pending_versions xs (note_access a r))
      (versions-note_all xs (note_access a r)) (versions-note_access a r)

memops-run :
    (nobj : ℕ) (xs : List Access) (r : Recorder)
    → (finish_from 0 nobj (note_all xs r)).memops ≡ r.memops ++ pending_memops nobj xs r
unfolding note_all pending_memops
memops-run nobj [] r = memops-finish_from 0 nobj r
memops-run nobj (a ∷ xs) r =
    append-grow r.memops (memop_entries a r) (pending_memops nobj xs (note_access a r))
      (memops-run nobj xs (note_access a r)) (memops-note_access a r)

-- A thread's logs are the entries of its accesses, those of `mem_finish_thr`, and an end mark.
pub versions-record_thread :
    (nobj : ℕ) (xs : List Access)
    → (record_thread nobj xs).versions ≡ pending_versions xs mem_init_thr ++ (version_end ∷ [])
unfolding record_thread
versions-record_thread nobj xs =
    ap (λ l. l ++ (version_end ∷ []))
      (versions-finish_from 0 nobj (note_all xs mem_init_thr) ∙ versions-note_all xs mem_init_thr)

pub memops-record_thread :
    (nobj : ℕ) (xs : List Access)
    → (record_thread nobj xs).memops ≡ pending_memops nobj xs mem_init_thr ++ (memop_end ∷ [])
unfolding record_thread
memops-record_thread nobj xs = ap (λ l. l ++ (memop_end ∷ [])) (memops-run nobj xs mem_init_thr)
