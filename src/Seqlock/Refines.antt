-- ===== src/Seqlock/Refines.antt =====
-- How the state of the recorders stands to that of atomic calls.
use mem_order.Base.{
  ℕ, ◌+◌, ◌%◌, ◌≤◌, ◌==◌, ◌≡◌, Bool, true, false, arith, refl, sym, ap, ◌∙◌, inl, ◌⊎◌, some,
}
use mem_order.Replay.Defs.{Call, read, write, Program}
use mem_order.Atomic.{AtomicState, finish_write, issue, atomic_start}
use mem_order.Seqlock.{
  RecordPc, outside, reading, version_read, value_read, locking, locked, write_version, odd_version,
  stored, unlocking, RecordState, start_recorders,
}

-- The thread holds the object's lock.
abbrev pub holds : ℕ → RecordPc → Bool
holds o (locked i x) = o == i
holds o (write_version i x v) = o == i
holds o (odd_version i x v) = o == i
holds o (stored i x v) = o == i
holds o (unlocking i x v) = o == i
holds o _ = false

-- The thread has made as many atomic calls as it has returned from, and the next is `call`.
abbrev Calling : Program → RecordState → AtomicState → ℕ → Call → Type 0
Calling prog s a t call = (a.client t ≡ s.client t) × (issue prog t (s.client t) ≡ some call)

-- What holds of a thread at each place. A write is made at its second `info->version++`, and a read
-- where it finds the version that it has read.
unfoldable pub At : Program → RecordState → AtomicState → ℕ → RecordPc → Type 0
At prog s a t outside = a.client t ≡ s.client t
At prog s a t (reading o) = Calling prog s a t (read o)
At prog s a t (version_read o v) = Calling prog s a t (read o) × (v % 2 ≡ 0) × (v ≤ s.version o)
At prog s a t (value_read o v x) =
    Calling prog s a t (read o)
    × (v % 2 ≡ 0)
    × (v ≤ s.version o)
    × (s.version o ≡ v → x ≡ a.memory o)
At prog s a t (locking o x) = Calling prog s a t (write o x)
At prog s a t (locked o x) = Calling prog s a t (write o x) × (s.version o ≡ a.version o)
At prog s a t (write_version o x v) =
    Calling prog s a t (write o x) × (s.version o ≡ a.version o) × (v ≡ a.version o)
At prog s a t (odd_version o x v) =
    Calling prog s a t (write o x) × (s.version o ≡ a.version o + 1) × (v ≡ a.version o)
At prog s a t (stored o x v) =
    Calling prog s a t (write o x)
    × (s.version o ≡ a.version o + 1)
    × (v ≡ a.version o)
    × (s.memory o ≡ x)
At prog s a t (unlocking o x v) =
    (a.client t ≡ finish_write o v (s.client t))
    × (s.version o ≡ a.version o)
    × (issue prog t (s.client t) ≡ some (write o x))

pub record Refines (prog : Program) (s : RecordState) (a : AtomicState) : Type 0 where
  pub even : (o : ℕ) → a.version o % 2 ≡ 0
  pub object :
      (o : ℕ)
      → ((s.version o ≡ a.version o) × (s.memory o ≡ a.memory o))
        ⊎ ((s.version o ≡ a.version o + 1) × (s.write_lock o ≡ true))
  pub thread : (t : ℕ) → At prog s a t (s.pc t)
  pub exclusive : (t u o : ℕ) → holds o (s.pc t) ≡ true → holds o (s.pc u) ≡ true → t ≡ u
  pub taken : (t o : ℕ) → holds o (s.pc t) ≡ true → s.write_lock o ≡ true

-- A step that leaves `u` at its place, and what its place is about as it was.
pub record Leaves (u : ℕ) (s : RecordState) (a : AtomicState) (s' : RecordState) (a' : AtomicState)
    : Type 0 where
  pub client : s'.client u ≡ s.client u
  pub atomic : a'.client u ≡ a.client u
  pub grows : (o : ℕ) → s.version o ≤ s'.version o
  pub stays : (o : ℕ) → s'.version o ≡ s.version o → a'.memory o ≡ a.memory o
  pub held :
      (o : ℕ)
      → holds o (s.pc u) ≡ true
      → (s'.version o ≡ s.version o) × (s'.memory o ≡ s.memory o) × (a'.version o ≡ a.version o)

module _ (prog : Program) (u : ℕ) (s : RecordState) (a : AtomicState) (s' : RecordState)
    (a' : AtomicState) (l : Leaves u s a s' a') where
  Calling-Leaves : (call : Call) → Calling prog s a u call → Calling prog s' a' u call
  Calling-Leaves call (same, i) = (l.atomic ∙ same ∙ sym l.client, ap (issue prog u) l.client ∙ i)

  held_at :
      (o : ℕ) (p : RecordPc)
      → s.pc u ≡ p
      → holds o p ≡ true
      → (s'.version o ≡ s.version o) × (s'.memory o ≡ s.memory o) × (a'.version o ≡ a.version o)
  held_at o p e h = l.held o (ap (holds o) e ∙ h)

  pub At-Leaves : (p : RecordPc) → s.pc u ≡ p → At prog s a u p → At prog s' a' u p
  unfolding At
  At-Leaves outside e h = l.atomic ∙ h ∙ sym l.client
  At-Leaves (reading o) e h = Calling-Leaves (read o) h
  At-Leaves (version_read o v) e (c, even, le) =
      (Calling-Leaves (read o) c, even, omega (arith, le, l.grows o))
  At-Leaves (value_read o v x) e (c, even, le, same) = (
    Calling-Leaves (read o) c,
    even,
    omega (arith, le, l.grows o),
    λ q.
        let g = l.grows o in
        let before : s.version o ≡ v = omega (arith, q, g, le) in
        same before ∙ sym (l.stays o (q ∙ sym before)),
  )
  At-Leaves (locking o x) e h = Calling-Leaves (write o x) h
  At-Leaves (locked o x) e (c, f) =
      let (k1, k2, k3) = held_at o _ e (ground arith) in
      (Calling-Leaves (write o x) c, k1 ∙ f ∙ sym k3)
  At-Leaves (write_version o x v) e (c, f, g) =
      let (k1, k2, k3) = held_at o _ e (ground arith) in
      (Calling-Leaves (write o x) c, k1 ∙ f ∙ sym k3, g ∙ sym k3)
  At-Leaves (odd_version o x v) e (c, f, g) =
      let (k1, k2, k3) = held_at o _ e (ground arith) in
      (Calling-Leaves (write o x) c, k1 ∙ f ∙ ap (λ n. n + 1) (sym k3), g ∙ sym k3)
  At-Leaves (stored o x v) e (c, f, g, m) =
      let (k1, k2, k3) = held_at o _ e (ground arith) in
      (Calling-Leaves (write o x) c, k1 ∙ f ∙ ap (λ n. n + 1) (sym k3), g ∙ sym k3, k2 ∙ m)
  At-Leaves (unlocking o x v) e (c, f, i) =
      let (k1, k2, k3) = held_at o _ e (ground arith) in
      (
        l.atomic ∙ c ∙ ap (finish_write o v) (sym l.client),
        k1 ∙ f ∙ sym k3,
        ap (issue prog u) l.client ∙ i,
      )

pub start-Refines :
    (prog : Program) (memory : ℕ → ℕ) → Refines prog (start_recorders memory) (atomic_start memory)
unfolding At
start-Refines prog memory = record {
  even = λ o. refl;
  object = λ o. inl (refl, refl);
  thread = λ t. refl;
  exclusive = λ t u o h g. absurd cc;
  taken = λ t o h. absurd cc;
}
