-- ===== src/Tests/Example.antt =====
-- A recorded run of two threads for mem-replay.c: thread 0 reads object 0 and then writes 7
-- there, and thread 1 reads it before and after.
use mathlib.Core.List.{Memᴰ}
use mathlib.Core.List.Memᴰ as MemD
use mem_order.Base.{
  inl, inr, negsuc, ℕ, zero, suc, ◌+◌, ◌≤◌, ◌<◌, ◌≡◌, List, [], ◌∷◌, some, none, get_elem?, take,
  arith, refl, ap, ◌∙◌, sym,
}
use mem_order.Mem.{ReplayWaitMemop}
use mem_order.Trace.{Op, rd, wr, Event, Access, access, view}
use mem_order.Trace.Order.{recording}
use mem_order.Record.{record_thread, note_access}
use mem_order.Record.Reads.{read_log}
use mem_order.Replay.Defs.{Call, read, write, Program, op_of, objid}
use mem_order.Replay.Logs.{MergedLogs}
use mem_order.Replay.Invariant.Readers.{Bounded}
use mem_order.Replay.Values.{reads_of, ProgramRun}
use mem_order.Replay.Completes.{Issues}

abbrev pub events : List Event
events =
    record { tid = 0; op = rd; objid = 0 }
    ∷ record { tid = 1; op = rd; objid = 0 }
    ∷ record { tid = 0; op = wr; objid = 0 }
    ∷ record { tid = 1; op = rd; objid = 0 }
    ∷ []

abbrev pub prog : Program
prog zero zero reads = some (read 0)
prog zero (suc zero) reads = some (write 0 7)
prog (suc zero) zero reads = some (read 0)
prog (suc zero) (suc zero) reads = some (read 0)
prog _ _ _ = none

-- Thread 1's first read is waited for by the write of thread 0.
abbrev pub merged : ℕ → List ReplayWaitMemop
merged zero =
    record { version = 0; memop = 0; tid = 1 } ∷ record { version = 2; memop = 1; tid = 1 } ∷ []
merged (suc o) = []

abbrev pub content : ℕ → ℕ → ℕ
content o zero = 5
content o (suc v) = 7

pub accesses_0 : (recording events).accesses 0 ≡ access rd 0 0 ∷ access wr 0 0 ∷ []
unfolding recording view
accesses_0 = refl

pub accesses_1 : (recording events).accesses 1 ≡ access rd 0 0 ∷ access rd 0 2 ∷ []
unfolding recording view
accesses_1 = refl

pub accesses_none : (t : ℕ) → (recording events).accesses (suc (suc t)) ≡ []
unfolding recording view
accesses_none t = ground arith

thread_0_memops :
    (record_thread 1 ((recording events).accesses 0)).memops
    ≡ record { objid = negsuc 0; version = negsuc 0; memop = negsuc 0 } ∷ []
unfolding record_thread recording view note_access
thread_0_memops = refl

thread_1_memops :
    (record_thread 1 ((recording events).accesses 1)).memops
    ≡ read_log 0 0 0
      ∷ read_log 0 2 1
      ∷ record { objid = negsuc 0; version = negsuc 0; memop = negsuc 0 }
      ∷ []
unfolding record_thread recording view note_access
thread_1_memops = refl

no_memops :
    (record_thread 1 []).memops
    ≡ record { objid = negsuc 0; version = negsuc 0; memop = negsuc 0 } ∷ []
unfolding record_thread
no_memops = refl

thread_none_memops :
    (t : ℕ)
    → (record_thread 1 ((recording events).accesses (suc (suc t)))).memops
      ≡ record { objid = negsuc 0; version = negsuc 0; memop = negsuc 0 } ∷ []
thread_none_memops t = ap (λ xs. (record_thread 1 xs).memops) (accesses_none t) ∙ no_memops

abbrev pub schedule : List ℕ
schedule =
    1 ∷ 0 ∷ 1 ∷ 0 ∷ 0 ∷ 0 ∷ 0 ∷ 0 ∷ 0 ∷ 1 ∷ 0 ∷ 0 ∷ 0 ∷ 0 ∷ 0 ∷ 0 ∷ 0 ∷ 0 ∷ 0 ∷ 0 ∷ 1 ∷ 1 ∷ 1 ∷ 1
    ∷ 1 ∷ []

merged_complete :
    (t o v k : ℕ)
    → Memᴰ (read_log o v k) (record_thread 1 ((recording events).accesses t)).memops
    → (i : ℕ) × (get_elem? (merged o) i ≡ some (record { version = v; memop = k; tid = t }))
merged_complete zero o v k m = absurd (let e = MemD.eq_of_singleton (rw thread_0_memops at m) in cc)
merged_complete (suc zero) o v k m = elim (MemD.cases_cons (rw thread_1_memops at m)) [
  | inl e ↦ (0, ground arith)
  | inr m' ↦ elim (MemD.cases_cons m') [
    | inl e ↦ (1, ground arith)
    | inr m'' ↦ absurd (let e = MemD.eq_of_singleton m'' in cc)
  ]
]
merged_complete (suc (suc t)) o v k m =
    absurd (let e = MemD.eq_of_singleton (rw (thread_none_memops t) at m) in cc)

merged_origin :
    (o i : ℕ) (e : ReplayWaitMemop)
    → get_elem? (merged o) i ≡ some e
    → Memᴰ
        (read_log o e.version e.memop)
        (record_thread 1 ((recording events).accesses e.tid)).memops
merged_origin zero zero e h =
    let q : e ≡ record { version = 0; memop = 0; tid = 1 } = ground arith in
    rw (q, thread_1_memops) (Memᴰ.head refl)
merged_origin zero (suc zero) e h =
    let q : e ≡ record { version = 2; memop = 1; tid = 1 } = ground arith in
    rw (q, thread_1_memops) (Memᴰ.tail (Memᴰ.head refl))
merged_origin zero (suc (suc i)) e h = cc
merged_origin (suc o) i e h = cc

merged_sorted :
    (o i j : ℕ) (e f : ReplayWaitMemop)
    → i ≤ j
    → get_elem? (merged o) i ≡ some e
    → get_elem? (merged o) j ≡ some f
    → e.version ≤ f.version
merged_sorted zero zero zero e f le p q = ground arith
merged_sorted zero zero (suc j) e f le p q = ground arith
merged_sorted zero (suc i) zero e f le p q = absurd (omega arith)
merged_sorted zero (suc zero) (suc zero) e f le p q = ground arith
merged_sorted zero (suc zero) (suc (suc j)) e f le p q = cc
merged_sorted zero (suc (suc i)) (suc j) e f le p q = cc
merged_sorted (suc o) i j e f le p q = cc

pub merged_logs : MergedLogs (recording events) 1 merged
merged_logs = record { complete = merged_complete; origin = merged_origin; sorted = merged_sorted }

-- In thread `t`, whose accesses are `xs`, the access `m`.
accesses_at :
    (t : ℕ) {xs : List Access}
    → (recording events).accesses t ≡ xs
    → (m : ℕ) {a : Access} → get_elem? ((recording events).accesses t) m ≡ some a
    → get_elem? xs m ≡ some a
accesses_at t e m h = sym (ap (λ xs. get_elem? xs m) e) ∙ h

bounded_two :
    (a b : Op) (v w m : ℕ) (op : Op) (o u : ℕ)
    → get_elem? (access a 0 v ∷ access b 0 w ∷ []) m ≡ some (access op o u)
    → o < 1
bounded_two a b v w zero op o u h = ground arith
bounded_two a b v w (suc zero) op o u h = ground arith
bounded_two a b v w (suc (suc m)) op o u h = absurd cc

pub bounded : Bounded (recording events) 1
bounded zero m op o v h = bounded_two rd wr 0 0 m op o v (accesses_at 0 accesses_0 m h)
bounded (suc zero) m op o v h = bounded_two rd rd 0 2 m op o v (accesses_at 1 accesses_1 m h)
bounded (suc (suc t)) m op o v h =
    absurd (let q = accesses_at (suc (suc t)) (accesses_none t) m h in cc)

ran_follows :
    (t m : ℕ) (call : Call)
    → prog t m (reads_of content (take m ((recording events).accesses t))) ≡ some call
    → (v : ℕ) × (get_elem? ((recording events).accesses t) m
        ≡ some (access (op_of call) (objid call) v))
unfolding recording view
ran_follows zero zero call h = (0, ground arith)
ran_follows zero (suc zero) call h = (0, ground arith)
ran_follows zero (suc (suc m)) call h = absurd cc
ran_follows (suc zero) zero call h = (0, ground arith)
ran_follows (suc zero) (suc zero) call h = (2, ground arith)
ran_follows (suc zero) (suc (suc m)) call h = absurd cc
ran_follows (suc (suc t)) m call h = absurd cc

ran_written :
    (t m o x v : ℕ)
    → prog t m (reads_of content (take m ((recording events).accesses t))) ≡ some (write o x)
    → get_elem? ((recording events).accesses t) m ≡ some (access wr o v)
    → content o (v + 2) ≡ x
ran_written zero zero o x v h g = absurd cc
ran_written zero (suc zero) o x v h g = let q = accesses_at 0 accesses_0 1 g in ground arith
ran_written zero (suc (suc m)) o x v h g = absurd cc
ran_written (suc zero) zero o x v h g = absurd cc
ran_written (suc zero) (suc zero) o x v h g = absurd cc
ran_written (suc zero) (suc (suc m)) o x v h g = absurd cc
ran_written (suc (suc t)) m o x v h g = absurd cc

pub ran : ProgramRun prog (recording events) content (λ _. 5)
ran = record { follows = ran_follows; written = ran_written; initial = λ o. refl }

pub prog-Issues : Issues prog (recording events) content
unfolding recording view
prog-Issues zero zero x h = (read 0, refl)
prog-Issues zero (suc zero) x h = (write 0 7, refl)
prog-Issues zero (suc (suc m)) x h = absurd cc
prog-Issues (suc zero) zero x h = (read 0, refl)
prog-Issues (suc zero) (suc zero) x h = (read 0, refl)
prog-Issues (suc zero) (suc (suc m)) x h = absurd cc
prog-Issues (suc (suc t)) m x h =
    absurd (let q = accesses_at (suc (suc t)) (accesses_none t) m h in cc)
