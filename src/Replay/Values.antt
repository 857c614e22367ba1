-- ===== src/Replay/Values.antt =====
-- mem-replay.c: the values that a replay reads and stores, next to those of the recorded run.
pub mod Steps
pub mod Touch
use mem_order.Base.{
  ℕ, zero, suc, ◌+◌, ◌≡◌, ◌⊎◌, inl, inr, Bool, true, false, List, [], ◌∷◌, ◌++◌, some, get_elem?,
  take, arith, refl, if◌then◌else◌, update, ap, ◌∙◌,
}
use mem_order.Trace.{Op, rd, wr, is_write, Access, access}
use mem_order.Trace.Order.{Recording}
use mem_order.Replay.Defs.{Pc, loaded, stored, Player, Call, write, Program, op_of, objid}
use mem_order.Replay.Invariant.Defs.{Current}

-- The values that the accesses read, where `content o v` is the value of object `o` at version `v`.
unfoldable pub reads_of : (ℕ → ℕ → ℕ) → List Access → List ℕ
reads_of content [] = []
reads_of content (a ∷ xs) =
    let rest = reads_of content xs in
    if is_write a.op then rest else content a.objid a.version ∷ rest

-- The program ran as recorded: with the values of its first `m` reads, thread `t` issues the
-- recorded access `m`, and a write leaves its value in the object's next version. The recorded
-- run is complete: there is an access wherever the program issues one.
pub record ProgramRun (prog : Program) (r : Recording) (content : ℕ → ℕ → ℕ) (memory : ℕ → ℕ)
    : Type 0 where
  pub follows :
      (t m : ℕ) (call : Call)
      → prog t m (reads_of content (take m (r.accesses t))) ≡ some call
      → (v : ℕ) × (get_elem? (r.accesses t) m ≡ some (access (op_of call) (objid call) v))
  pub written :
      (t m o x v : ℕ)
      → prog t m (reads_of content (take m (r.accesses t))) ≡ some (write o x)
      → get_elem? (r.accesses t) m ≡ some (access wr o v)
      → content o (v + 2) ≡ x
  pub initial : (o : ℕ) → content o 0 ≡ memory o

-- A thread has stored a value in `o` and has not raised the version yet.
abbrev pub Storing : Recording → (ℕ → Player) → ℕ → Type 0
Storing r thread o = (t : ℕ) × (v : ℕ) × ((thread t).pc ≡ stored) × Current r t (thread t) wr o v

pub record ValInv (r : Recording) (content : ℕ → ℕ → ℕ) (memory ver : ℕ → ℕ) (thread : ℕ → Player)
    : Type 0 where
  pub reads : (t : ℕ) → (thread t).reads ≡ reads_of content (take (thread t).memop (r.accesses t))
  pub in_flight :
      (t x o v : ℕ) → (thread t).pc ≡ loaded x → Current r t (thread t) rd o v → x ≡ content o v
  pub in_store :
      (t o v : ℕ)
      → (thread t).pc ≡ stored
      → Current r t (thread t) wr o v
      → memory o ≡ content o (v + 2)
  pub in_memory : (o : ℕ) → (memory o ≡ content o (ver o)) ⊎ Storing r thread o

module _ (content : ℕ → ℕ → ℕ) where
  pub reads_of-read :
      (xs : List Access) (m : ℕ) {o v : ℕ}
      → get_elem? xs m ≡ some (access rd o v)
      → reads_of content (take (suc m) xs) ≡ reads_of content (take m xs) ++ (content o v ∷ [])
  unfolding reads_of
  reads_of-read [] m h = ground arith
  reads_of-read (a ∷ xs) zero h = ground arith
  reads_of-read (a ∷ xs) (suc m) {o} {v} h = ground (arith, reads_of-read xs m {o = o} {v = v})

  pub reads_of-write :
      (xs : List Access) (m : ℕ) {o v : ℕ}
      → get_elem? xs m ≡ some (access wr o v)
      → reads_of content (take (suc m) xs) ≡ reads_of content (take m xs)
  unfolding reads_of
  reads_of-write [] m h = ground arith
  reads_of-write (a ∷ xs) zero h = ground arith
  reads_of-write (a ∷ xs) (suc m) {o} {v} h = ground (arith, reads_of-write xs m {o = o} {v = v})
