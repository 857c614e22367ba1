-- ===== src/Atomic/Complete.antt =====
-- A run of atomic calls to the program's end is a recorded run of the program.
use mem_order.Base.{
  ℕ, zero, suc, ◌+◌, ◌-◌, ◌≤◌, ◌≡◌, arith, refl, sym, ap, ◌∙◌, some, none, take, length,
  lt-get_elem?, take-all, dec_lt, List,
}
use mem_order.Trace.{wr}
use mem_order.Trace.Order.{recording}
use mem_order.Record.{mem_init_thr}
use mem_order.Replay.Defs.{Call, write, Program}
use mem_order.Replay.Values.{reads_of, ProgramRun}
use mem_order.Atomic.{AtomicState, issue}
use mem_order.Atomic.History.{accesses, History, memop-note_all}

-- A thread that has ended makes no further call.
abbrev pub Stops : Program → Type 0
Stops prog = (t m : ℕ) (reads : List ℕ) → prog t m reads ≡ none → prog t (suc m) reads ≡ none

module _ {prog : Program} {start : ℕ → ℕ} (a : AtomicState) (h : History prog start a) where
  pub memop-accesses : (t : ℕ) → (a.client t).recorder.memop ≡ length (accesses t a)
  memop-accesses t =
      omega (arith, ap (λ r. r.memop) (h.recorder t), memop-note_all (accesses t a) mem_init_thr)

  module _ (ended : (t : ℕ) → issue prog t (a.client t) ≡ none) (stops : Stops prog) where
    none_after : (t k : ℕ) → prog t (k + (a.client t).recorder.memop) (a.client t).reads ≡ none
    none_after t zero =
        let e : 0 + (a.client t).recorder.memop ≡ (a.client t).recorder.memop = omega arith in
        ap (λ n. prog t n (a.client t).reads) e ∙ ended t
    none_after t (suc k) =
        let e : suc k + (a.client t).recorder.memop ≡ suc (k + (a.client t).recorder.memop) =
          omega arith in
        ap (λ n. prog t n (a.client t).reads) e ∙ stops t _ _ (none_after t k)

    no_more :
        (t m : ℕ) (call : Call)
        → length (accesses t a) ≤ m
        → prog t m (reads_of a.content (take m (accesses t a))) ≡ some call
        → ⊥
    no_more t m call le p =
        let e : m ≡ (m - (a.client t).recorder.memop) + (a.client t).recorder.memop =
          omega (arith, memop-accesses t) in
        let q : prog t m (a.client t).reads ≡ none =
          ap (λ n. prog t n (a.client t).reads) e
          ∙ none_after t (m - (a.client t).recorder.memop) in
        let r = h.reads t in
        let l = ap (reads_of a.content) (take-all (accesses t a) m le) in
        let same = ap (prog t m) (l ∙ sym r) in cc

    pub History-ProgramRun : ProgramRun prog (recording a.trace) a.content start
    unfolding recording
    History-ProgramRun = record {
      follows = λ t m call p. elim (dec_lt m (length (accesses t a))) [
        | yes lt ↦
            let (x, q) = lt-get_elem? (accesses t a) m lt in
            let (call', i, eo, ei, _) = h.issued t m x.op x.objid x.version q in
            let same : call ≡ call' = cc in (x.version, q ∙ rw (same, eo, ei) refl)
        | no ge ↦ absurd (no_more t m call (omega (arith, ge)) p)
      ];
      written = λ t m o x v p q.
          let (call', i, _, _, w) = h.issued t m wr o v q in
          let same : call' ≡ write o x = cc in w x same;
      initial = h.initial;
    }
