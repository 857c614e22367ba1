-- ===== src/Atomic/History.antt =====
-- The calls so far, as a trace: what the recorders noted, and what the program read and wrote.
use mem_order.Base.{
  ℕ, zero, suc, ◌+◌, ◌%◌, ◌≤◌, ◌==◌, ◌≡◌, List, [], ◌∷◌, ◌++◌, arith, refl, sym, ap, ◌∙◌,
  Bool-cases, inl, inr, ◌⊎◌, true, false, some, get_elem?, take, length, update, subst,
  get_elem?-snoc, get_elem?-take, take-append, take-all, Option-cases, if◌then◌else◌, append-nil,
}
use mem_order.Trace.{Op, Op-cases, wr, is_write, Event, Access, access, next_version, view}
use mem_order.Trace.Append.{after, after-append, view-append}
use mem_order.Record.{Recorder, mem_init_thr, note_access, note_all}
use mem_order.Record.Emit.{memop-note_access}
use mem_order.Replay.Defs.{Call, read, write, Program, op_of, objid}
use mem_order.Replay.Values.{reads_of}
use mem_order.Atomic.{
  AtomicState, finish_read, finish_write, issue, perform, atomic_step, atomic_run, atomic_start,
}

-- The accesses of a thread so far.
abbrev pub accesses : ℕ → AtomicState → List Access
accesses t a = view t (λ _. 0) a.trace

pub record History (prog : Program) (start : ℕ → ℕ) (a : AtomicState) : Type 0 where
  pub versions : (o : ℕ) → after (λ _. 0) a.trace o ≡ a.version o
  pub even : (o : ℕ) → a.version o % 2 ≡ 0
  pub recorder : (t : ℕ) → (a.client t).recorder ≡ note_all (accesses t a) mem_init_thr
  pub noted : (t : ℕ) → (a.client t).noted ≡ accesses t a
  pub reads : (t : ℕ) → (a.client t).reads ≡ reads_of a.content (accesses t a)
  pub current : (o : ℕ) → a.memory o ≡ a.content o (a.version o)
  pub initial : (o : ℕ) → a.content o 0 ≡ start o
  pub seen :
      (t m : ℕ) (op : Op) (o v : ℕ)
      → get_elem? (accesses t a) m ≡ some (access op o v)
      → next_version op v ≤ a.version o
  pub issued :
      (t m : ℕ) (op : Op) (o v : ℕ)
      → get_elem? (accesses t a) m ≡ some (access op o v)
      → (call : Call) × (prog t m (reads_of a.content (take m (accesses t a))) ≡ some call)
        × (op_of call ≡ op)
        × (objid call ≡ o)
        × ((x : ℕ) → call ≡ write o x → a.content o (v + 2) ≡ x)

note_all-append :
    (xs ys : List Access) (r : Recorder) → note_all (xs ++ ys) r ≡ note_all ys (note_all xs r)
unfolding note_all
note_all-append [] ys r = refl
note_all-append (x ∷ xs) ys r = note_all-append xs ys (note_access x r)

pub memop-note_all : (xs : List Access) (r : Recorder) → (note_all xs r).memop ≡ length xs + r.memop
unfolding note_all
memop-note_all [] r = omega arith
memop-note_all (x ∷ xs) r =
    omega (arith, memop-note_all xs (note_access x r), memop-note_access x r)

pub reads_of-append :
    (c : ℕ → ℕ → ℕ) (xs ys : List Access) → reads_of c (xs ++ ys) ≡ reads_of c xs ++ reads_of c ys
unfolding reads_of
reads_of-append c [] ys = refl
reads_of-append c (x ∷ xs) ys = elim (Bool-cases (is_write x.op)) [
  | inl w ↦ rw w (reads_of-append c xs ys)
  | inr w ↦ rw w (ap (λ l. c x.objid x.version ∷ l) (reads_of-append c xs ys))
]

reads_of-same :
    (c d : ℕ → ℕ → ℕ) (xs : List Access)
    → ((m : ℕ) (op : Op) (o v : ℕ) → get_elem? xs m ≡ some (access op o v) → d o v ≡ c o v)
    → reads_of d xs ≡ reads_of c xs
unfolding reads_of
reads_of-same c d [] h = refl
reads_of-same c d (x ∷ xs) h =
    let ih = reads_of-same c d xs (λ m op o v p. h (suc m) op o v p) in
    elim (Bool-cases (is_write x.op)) [
      | inl w ↦ rw w ih
      | inr w ↦ rw (w, h zero x.op x.objid x.version refl, ih)
    ]

-- What the call `c` of thread `t` changes.
record Performed (t : ℕ) (c : Call) (a b : AtomicState) : Type 0 where
  trace : b.trace ≡ a.trace ++ (record { tid = t; op = op_of c; objid = objid c } ∷ [])
  version :
      (o : ℕ)
      → b.version o ≡ update a.version (objid c) (next_version (op_of c) (a.version (objid c))) o
  own :
      (b.client t).recorder
      ≡ note_access (access (op_of c) (objid c) (a.version (objid c))) (a.client t).recorder
  own_noted :
      (b.client t).noted
      ≡ (a.client t).noted ++ (access (op_of c) (objid c) (a.version (objid c)) ∷ [])
  own_reads :
      (b.client t).reads
      ≡ (a.client t).reads ++ (if is_write (op_of c) then [] else a.memory (objid c) ∷ [])
  others : (u : ℕ) → (t == u) ≡ false → b.client u ≡ a.client u
  kept : (o v : ℕ) → v ≤ a.version o → b.content o v ≡ a.content o v
  stored : (x : ℕ) → c ≡ write (objid c) x → b.content (objid c) (a.version (objid c) + 2) ≡ x
  current : (o : ℕ) → b.memory o ≡ b.content o (b.version o)

perform-Performed :
    (t : ℕ) (c : Call) (a : AtomicState)
    → ((o : ℕ) → a.memory o ≡ a.content o (a.version o))
    → Performed t c a (perform t c a)
unfolding perform finish_read finish_write note_access
perform-Performed t (read o) a cur = record {
  trace = refl;
  version = λ i. ground arith;
  own = ground arith;
  own_noted = ground arith;
  own_reads = ground arith;
  others = λ u q. rw q refl;
  kept = λ i v le. refl;
  stored = λ x e. absurd cc;
  current = cur;
}
perform-Performed t (write o x) a cur = record {
  trace = refl;
  version = λ i. refl;
  own = ground arith;
  own_noted = ground arith;
  own_reads = ground (arith, append-nil (a.client t).reads);
  others = λ u q. rw q refl;
  kept = λ i v le. ground arith;
  stored = λ y e. let same : x ≡ y = cc in ground arith;
  current = λ i. ground (arith, cur i);
}

module _ {prog : Program} {start : ℕ → ℕ} (t : ℕ) (c : Call) (a b : AtomicState)
    (h : History prog start a) (issues : issue prog t (a.client t) ≡ some c)
    (p : Performed t c a b) where
  abbrev noted : Access
  noted = access (op_of c) (objid c) (a.version (objid c))

  abbrev event : Event
  event = record { tid = t; op = op_of c; objid = objid c }

  accesses-own : accesses t b ≡ accesses t a ++ (noted ∷ [])
  unfolding view
  accesses-own =
      let own : (t == t) ≡ true = ground arith in
      ap (view t (λ _. 0)) p.trace
      ∙ view-append t (λ _. 0) a.trace (event ∷ [])
      ∙ rw (own, h.versions (objid c)) refl

  accesses-other : (u : ℕ) → (t == u) ≡ false → accesses u b ≡ accesses u a
  unfolding view
  accesses-other u other =
      ap (view u (λ _. 0)) p.trace
      ∙ view-append u (λ _. 0) a.trace (event ∷ [])
      ∙ rw (other, append-nil) refl

  -- Either an access of before, or the new one.
  accesses-cases :
      (u m : ℕ) {x : Access}
      → get_elem? (accesses u b) m ≡ some x
      → ((get_elem? (accesses u a) m ≡ some x) × (take m (accesses u b) ≡ take m (accesses u a)))
        ⊎ ((t ≡ u)
            × (x ≡ noted)
            × (m ≡ length (accesses t a))
            × (take m (accesses u b) ≡ accesses t a))
  accesses-cases u m {x} q = elim (Bool-cases (t == u)) [
    | inl own ↦
        let same : t ≡ u = ground arith in
        let e : accesses u b ≡ accesses t a ++ (noted ∷ []) =
          subst (λ w. accesses w b ≡ accesses t a ++ (noted ∷ [])) same accesses-own in
        elim (get_elem?-snoc (accesses t a) noted m (rw e at q)) [
          | inl (r, lt) ↦
              let l =
                ap (take m) e ∙ take-append (accesses t a) (noted ∷ []) m (omega (arith, lt)) in
              inl (
                subst (λ w. get_elem? (accesses w a) m ≡ some x) same r,
                subst (λ w. take m (accesses u b) ≡ take m (accesses w a)) same l,
              )
          | inr (i, z) ↦ inr (
            same,
            z,
            i,
            ap (take m) e
                ∙ take-append (accesses t a) (noted ∷ []) m (omega (arith, i))
                ∙ take-all (accesses t a) m (omega (arith, i)),
          )
        ]
    | inr other ↦ let e = accesses-other u other in inl (rw e at q, ap (take m) e)
  ]

  -- The accesses of before read what they read.
  reads_of-kept :
      (u n : ℕ)
      → reads_of b.content (take n (accesses u a)) ≡ reads_of a.content (take n (accesses u a))
  reads_of-kept u n = reads_of-same a.content b.content (take n (accesses u a)) (λ m op o v q.
      let bound = h.seen u m op o v (get_elem?-take n (accesses u a) m q) in
      p.kept o v (elim (Op-cases op) [ inl e ↦ ground arith | inr e ↦ ground arith ]))

  reads_of-all : (u : ℕ) → reads_of b.content (accesses u a) ≡ reads_of a.content (accesses u a)
  reads_of-all u =
      subst (λ l. reads_of b.content l ≡ reads_of a.content l)
        (take-all (accesses u a) (length (accesses u a)) (omega arith))
        (reads_of-kept u (length (accesses u a)))

  version-le : (o : ℕ) → a.version o ≤ b.version o
  version-le o =
      let e = p.version o in
      elim (Op-cases (op_of c)) [ inl q ↦ ground arith | inr q ↦ ground arith ]

  versions-b : (o : ℕ) → after (λ _. 0) b.trace o ≡ b.version o
  unfolding after
  versions-b o =
      let e = p.version o in
      let one = h.versions o in
      let two = h.versions (objid c) in
      ap (λ l. after (λ _. 0) l o) p.trace
      ∙ ap (λ f. f o) (after-append (λ _. 0) a.trace (event ∷ []))
      ∙ ground arith

  even-b : (o : ℕ) → b.version o % 2 ≡ 0
  even-b o =
      let e = p.version o in
      let one = h.even o in
      let two = h.even (objid c) in
      elim (Op-cases (op_of c)) [ inl q ↦ ground arith | inr q ↦ ground arith ]

  recorder-b : (u : ℕ) → (b.client u).recorder ≡ note_all (accesses u b) mem_init_thr
  unfolding note_all
  recorder-b u = elim (Bool-cases (t == u)) [
    | inl own ↦
        let same : t ≡ u = ground arith in
        subst (λ w. (b.client w).recorder ≡ note_all (accesses w b) mem_init_thr) same
          (p.own
            ∙ ap (note_access noted) (h.recorder t)
            ∙ sym (note_all-append (accesses t a) (noted ∷ []) mem_init_thr)
            ∙ ap (λ l. note_all l mem_init_thr) (sym accesses-own))
    | inr other ↦
        ap (λ k. k.recorder) (p.others u other)
        ∙ h.recorder u
        ∙ ap (λ l. note_all l mem_init_thr) (sym (accesses-other u other))
  ]

  noted-b : (u : ℕ) → (b.client u).noted ≡ accesses u b
  noted-b u = elim (Bool-cases (t == u)) [
    | inl own ↦
        let same : t ≡ u = ground arith in
        subst (λ w. (b.client w).noted ≡ accesses w b) same
          (p.own_noted ∙ ap (λ l. l ++ (noted ∷ [])) (h.noted t) ∙ sym accesses-own)
    | inr other ↦ ap (λ k. k.noted) (p.others u other) ∙ h.noted u ∙ sym (accesses-other u other)
  ]

  reads-noted :
      (if is_write (op_of c) then [] else a.memory (objid c) ∷ []) ≡ reads_of b.content (noted ∷ [])
  unfolding reads_of
  reads-noted =
      let e = h.current (objid c) in
      let k = p.kept (objid c) (a.version (objid c)) (omega arith) in rw (e, k) refl

  reads-b : (u : ℕ) → (b.client u).reads ≡ reads_of b.content (accesses u b)
  reads-b u = elim (Bool-cases (t == u)) [
    | inl own ↦
        let same : t ≡ u = ground arith in
        subst (λ w. (b.client w).reads ≡ reads_of b.content (accesses w b)) same
          (p.own_reads
            ∙ ap (λ l. l ++ (if is_write (op_of c) then [] else a.memory (objid c) ∷ []))
                (h.reads t ∙ sym (reads_of-all t))
            ∙ ap (λ l. reads_of b.content (accesses t a) ++ l) reads-noted
            ∙ sym (reads_of-append b.content (accesses t a) (noted ∷ []))
            ∙ ap (reads_of b.content) (sym accesses-own))
    | inr other ↦
        ap (λ k. k.reads) (p.others u other)
        ∙ h.reads u
        ∙ sym (reads_of-all u)
        ∙ ap (reads_of b.content) (sym (accesses-other u other))
  ]

  seen-b :
      (u m : ℕ) (op : Op) (o v : ℕ)
      → get_elem? (accesses u b) m ≡ some (access op o v)
      → next_version op v ≤ b.version o
  seen-b u m op o v q = elim (accesses-cases u m q) [
    | inl (r, _) ↦ omega (arith, h.seen u m op o v r, version-le o)
    | inr (_, z, _, _) ↦
        let e = p.version o in
        let eo : o ≡ objid c = cc in
        let ev : v ≡ a.version (objid c) = cc in let ek : op ≡ op_of c = cc in ground arith
  ]

  memop-length : (a.client t).recorder.memop ≡ length (accesses t a)
  memop-length =
      omega (arith, ap (λ r. r.memop) (h.recorder t), memop-note_all (accesses t a) mem_init_thr)

  issued-b :
      (u m : ℕ) (op : Op) (o v : ℕ)
      → get_elem? (accesses u b) m ≡ some (access op o v)
      → (call : Call) × (prog u m (reads_of b.content (take m (accesses u b))) ≡ some call)
        × (op_of call ≡ op)
        × (objid call ≡ o)
        × ((x : ℕ) → call ≡ write o x → b.content o (v + 2) ≡ x)
  issued-b u m op o v q = elim (accesses-cases u m q) [
    | inl (r, l) ↦
        let (call, i, eo, ei, w) = h.issued u m op o v r in
        (
          call,
          ap (prog u m) (ap (reads_of b.content) l ∙ reads_of-kept u m) ∙ i,
          eo,
          ei,
          λ x e.
              let wrote : op ≡ wr = sym eo ∙ ap op_of e in
              let bound = h.seen u m op o v r in p.kept o (v + 2) (ground arith) ∙ w x e,
        )
    | inr (same, z, i, l) ↦
        let eo : o ≡ objid c = cc in
        let ev : v ≡ a.version (objid c) = cc in
        let ek : op ≡ op_of c = cc in
        (
          c,
          subst (λ w. prog w m (reads_of b.content (take m (accesses u b))) ≡ some c) same
              (ap (prog t m) (ap (reads_of b.content) l ∙ reads_of-all t ∙ sym (h.reads t))
                ∙ ap (λ n. prog t n (a.client t).reads) (i ∙ sym memop-length)
                ∙ issues),
          sym ek,
          sym eo,
          λ x e. rw (eo, ev) (p.stored x (e ∙ ap (λ k. write k x) eo)),
        )
  ]

  Performed-History : History prog start b
  Performed-History = record {
    versions = versions-b;
    even = even-b;
    recorder = recorder-b;
    noted = noted-b;
    reads = reads-b;
    current = p.current;
    initial = λ o. p.kept o 0 (omega arith) ∙ h.initial o;
    seen = seen-b;
    issued = issued-b;
  }

module _ {prog : Program} {start : ℕ → ℕ} where
  pub atomic_step-History :
      (t : ℕ) (a : AtomicState) → History prog start a → History prog start (atomic_step prog t a)
  unfolding atomic_step
  atomic_step-History t a h = elim (Option-cases (issue prog t (a.client t))) [
    | inl e ↦ rw (e, atomic_step) h
    | inr (c, e) ↦
        rw (e, atomic_step)
          (Performed-History t c a (perform t c a) h e (perform-Performed t c a h.current))
  ]

  pub atomic_run-History :
      (ts : List ℕ) (a : AtomicState)
      → History prog start a
      → History prog start (atomic_run prog ts a)
  unfolding atomic_run
  atomic_run-History [] a h = h
  atomic_run-History (t ∷ ts) a h =
      atomic_run-History ts (atomic_step prog t a) (atomic_step-History t a h)

  pub atomic_start-History : History prog start (atomic_start start)
  unfolding after view note_all reads_of
  atomic_start-History = record {
    versions = λ o. refl;
    even = λ o. refl;
    recorder = λ t. refl;
    noted = λ t. refl;
    reads = λ t. refl;
    current = λ o. refl;
    initial = λ o. refl;
    seen = λ t m op o v q. absurd cc;
    issued = λ t m op o v q. absurd cc;
  }
