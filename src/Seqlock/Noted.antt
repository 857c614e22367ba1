-- ===== src/Seqlock/Noted.antt =====
-- What the threads of mem-record-seqlock.c and mem-record-rtmseq.c note of the versions.
use mem_order.Base.{
  ℕ, ◌<◌, ◌≡◌, Bool, List, [], ◌∷◌, some, get_elem?, get_elem?-append, sym, ap, ◌∙◌,
}
use mem_order.Trace.{rd, wr, Access, access}
use mem_order.Trace.Order.{view-write_once, view-read_first}
use mem_order.Replay.Defs.{Program}
use mem_order.Atomic.{AtomicState, finish_write, atomic_run, atomic_start}
use mem_order.Atomic.History.{History, accesses, atomic_run-History, atomic_start-History}
use mem_order.Seqlock.{
  RecordPc, outside, reading, version_read, value_read, locking, locked, write_version, odd_version,
  stored, unlocking, RecordState, RecorderKind, run_recorders, start_recorders,
}
use mem_order.Seqlock.Refines.{At}
use mem_order.Seqlock.Run.{run_recorders-Refines}

-- What a thread has noted, it has noted in the run of atomic calls.
noted-At :
    (prog : Program) (s : RecordState) (a : AtomicState) (t : ℕ) (p : RecordPc) (m : ℕ) (x : Access)
    → At prog s a t p
    → get_elem? (s.client t).noted m ≡ some x
    → get_elem? (a.client t).noted m ≡ some x
unfolding At finish_write
noted-At prog s a t outside m x h g = ap (λ c. get_elem? c.noted m) h ∙ g
noted-At prog s a t (reading o) m x h g = ap (λ c. get_elem? c.noted m) h.0 ∙ g
noted-At prog s a t (version_read o v) m x h g = ap (λ c. get_elem? c.noted m) h.0.0 ∙ g
noted-At prog s a t (value_read o v y) m x h g = ap (λ c. get_elem? c.noted m) h.0.0 ∙ g
noted-At prog s a t (locking o y) m x h g = ap (λ c. get_elem? c.noted m) h.0 ∙ g
noted-At prog s a t (locked o y) m x h g = ap (λ c. get_elem? c.noted m) h.0.0 ∙ g
noted-At prog s a t (write_version o y v) m x h g = ap (λ c. get_elem? c.noted m) h.0.0 ∙ g
noted-At prog s a t (odd_version o y v) m x h g = ap (λ c. get_elem? c.noted m) h.0.0 ∙ g
noted-At prog s a t (stored o y v) m x h g = ap (λ c. get_elem? c.noted m) h.0.0 ∙ g
noted-At prog s a t (unlocking o y v) m x h g =
    ap (λ c. get_elem? c.noted m) h.0 ∙ get_elem?-append (s.client t).noted (access wr o v ∷ []) m g

module _ (kind : RecorderKind) (prog : Program) (ts : List (ℕ × Bool)) (memory : ℕ → ℕ) where
  abbrev recorded : RecordState
  recorded = run_recorders kind prog ts (start_recorders memory)

  abbrev calls : AtomicState
  calls = atomic_run prog (run_recorders-Refines kind prog ts memory).0 (atomic_start memory)

  calls-History : History prog memory calls
  calls-History = atomic_run-History _ (atomic_start memory) atomic_start-History

  noted-accesses :
      (t m : ℕ) (x : Access)
      → get_elem? (recorded.client t).noted m ≡ some x
      → get_elem? (accesses t calls) m ≡ some x
  noted-accesses t m x g =
      ap (λ l. get_elem? l m) (sym (calls-History.noted t))
      ∙ noted-At prog recorded calls t (recorded.pc t) m x
          ((run_recorders-Refines kind prog ts memory).1.thread t) g

  -- The recorders with the seqlock or with transactions run in any interleaving, whichever
  -- transactions the hardware aborts. No two writes that the threads have noted, by one thread or by
  -- two, read the same version of an object.
  pub run_recorders-write_once :
      (t u m k o v : ℕ)
      → get_elem? (recorded.client t).noted m ≡ some (access wr o v)
      → get_elem? (recorded.client u).noted k ≡ some (access wr o v)
      → (t ≡ u) × (m ≡ k)
  run_recorders-write_once t u m k o v p q =
      view-write_once t u (λ _. 0) calls.trace m k o v (noted-accesses t m _ p)
        (noted-accesses u k _ q)

  -- The same runs: where a thread has noted a read and a write of one object at the same version,
  -- the read is the earlier of the two.
  pub run_recorders-read_first :
      (t m k o v : ℕ)
      → get_elem? (recorded.client t).noted m ≡ some (access wr o v)
      → get_elem? (recorded.client t).noted k ≡ some (access rd o v)
      → k < m
  run_recorders-read_first t m k o v p q =
      view-read_first t (λ _. 0) calls.trace m k o v (noted-accesses t m _ p)
        (noted-accesses t k _ q)
