-- ===== src/Replay/Values/Steps.antt =====
-- mem-replay.c: each step keeps the values of the replay those of the recorded run.
use mem_order.Base.{
  ℕ, ◌+◌, ◌≡◌, ◌≢◌, inl, inr, Bool, true, false, get_elem?, take, arith, refl, update, ℕ_discrete,
  Bool-cases, Option-cases, eq_ℤ, ltb_ℤ, leb, ◌==◌, pos,
}
use mem_order.Mem.{ReplayWaitMemop}
use mem_order.Trace.{rd, wr}
use mem_order.Trace.Order.{Recording}
use mem_order.Replay.Defs.{
  Pc, arrived, scan, searching, wait_for, ready, loaded, stored, aborted, Player, State, Call, read,
  write, after_wait, objid, goto, wait_object_version, assert_version, lock_reader_log,
  next_reader_memop, wait_reader, next_wait_version_log,
}
use mem_order.Replay.Invariant.Defs.{Current}
use mem_order.Replay.Invariant.Steps.{update_all}
use mem_order.Replay.Values.{reads_of, ValInv, Storing}

abbrev pub is_plain : Pc → Bool
is_plain (loaded x) = false
is_plain stored = false
is_plain _ = true

-- Another thread's store stays in flight.
pub Storing-update :
    (r : Recording) (thread : ℕ → Player) (t : ℕ) (p : Player) (o : ℕ)
    → ((v : ℕ) → (thread t).pc ≡ stored → ¬ Current r t (thread t) wr o v)
    → Storing r thread o
    → Storing r (update thread t p) o
Storing-update r thread t p o before (u, v, pc, cur) = elim (ℕ_discrete t u) [
  | yes same ↦ absurd (before v (rw same pc) (rw same cur))
  | no other ↦ (u, v, ground arith, ground arith)
]

module _ {r : Recording} {content : ℕ → ℕ → ℕ} (s : State)
    (val : ValInv r content s.memory s.obj_version s.thread) (t : ℕ) where
  -- A step that stores nothing.
  pub plain_step :
      (p : Player)
      → (s.thread t).pc ≢ stored
      → is_plain p.pc ≡ true
      → p.reads ≡ reads_of content (take p.memop (r.accesses t))
      → ValInv r content s.memory s.obj_version (update s.thread t p)
  plain_step p before after reads = record {
    reads =
        update_all (λ u q. q.reads ≡ reads_of content (take q.memop (r.accesses u))) s.thread t p
          reads (λ u ne. val.reads u);
    in_flight =
        update_all (λ u q. (x o v : ℕ) → q.pc ≡ loaded x → Current r u q rd o v → x ≡ content o v)
          s.thread t p (λ x o v h. absurd (ground arith)) (λ u ne. val.in_flight u);
    in_store =
        update_all
          (λ u q. (o v : ℕ) → q.pc ≡ stored → Current r u q wr o v → s.memory o ≡ content o (v + 2))
          s.thread t p (λ o v h. absurd (ground arith)) (λ u ne. val.in_store u);
    in_memory = λ o. elim (val.in_memory o) [
      | inl e ↦ inl e
      | inr st ↦ inr (Storing-update r s.thread t p o (λ v h c. before h) st)
    ];
  }

-- The same, of a state.
abbrev pub Values : Recording → (ℕ → ℕ → ℕ) → State → Type 0
Values r content s = ValInv r content s.memory s.obj_version s.thread

after_wait-plain : (call : Call) → is_plain (after_wait call) ≡ true
after_wait-plain (read o) = refl
after_wait-plain (write o x) = refl

module _ {r : Recording} {content : ℕ → ℕ → ℕ} (s : State) (val : Values r content s) (t : ℕ)
    (plain : is_plain (s.thread t).pc ≡ true) where
  not_stored : (s.thread t).pc ≢ stored
  not_stored q = let h : is_plain (s.thread t).pc ≡ false = rw q in cc

  goto_plain : (pc : Pc) → is_plain pc ≡ true → Values r content (goto s t pc)
  goto_plain pc h = plain_step s val t (record (s.thread t) { pc = pc }) not_stored h (val.reads t)

  pub wait_object_version-Values : (call : Call) → Values r content (wait_object_version s t call)
  unfolding wait_object_version
  wait_object_version-Values call =
      let p = s.thread t in
      elim (Bool-cases (eq_ℤ (pos p.memop) p.wait_version.memop)) [
        | inl now ↦
            elim (Bool-cases (ltb_ℤ (pos (s.obj_version (objid call))) p.wait_version.version)) [
              | inl below ↦ rw (now, below) val
              | inr reached ↦ rw (now, reached) (goto_plain arrived refl)
            ]
        | inr other ↦ rw other (goto_plain (after_wait call) (after_wait-plain call))
      ]

  pub assert_version-Values : (call : Call) → Values r content (assert_version s t call)
  unfolding assert_version
  assert_version-Values call =
      let p = s.thread t in
      elim (Bool-cases (eq_ℤ (pos (s.obj_version (objid call))) p.wait_version.version)) [
        | inl held ↦ elim (Option-cases (next_wait_version_log p.wait_version p.wait_version_log)) [
          | inl over ↦ rw (held, over) (goto_plain aborted refl)
          | inr (w, found) ↦
              rw (held, found)
                (plain_step s val t _ not_stored (after_wait-plain call) (val.reads t))
        ]
        | inr failed ↦ rw failed (goto_plain aborted refl)
      ]

  pub lock_reader_log-Values : (call : Call) → Values r content (lock_reader_log s t call)
  unfolding lock_reader_log
  lock_reader_log-Values call = elim (Bool-cases (s.wait_reader_log (objid call)).mutex) [
    | inl held ↦ rw held (goto_plain aborted refl)
    | inr free ↦ rw free (goto_plain searching refl)
  ]

  pub next_reader_memop-Values : (call : Call) → Values r content (next_reader_memop s t call)
  unfolding next_reader_memop
  next_reader_memop-Values call =
      let l = s.wait_reader_log (objid call) in
      elim (Bool-cases (ltb_ℤ (pos l.n) l.size)) [
        | inr over ↦ rw over (goto_plain ready refl)
        | inl room ↦ elim (Option-cases (get_elem? l.log l.n)) [
          | inl out ↦ rw (room, out) (goto_plain aborted refl)
          | inr (e, found) ↦ elim (Bool-cases (leb (s.obj_version (objid call)) e.version)) [
            | inr passed ↦ rw (room, found, passed) (goto_plain aborted refl)
            | inl le ↦ elim (Bool-cases (s.obj_version (objid call) == e.version)) [
              | inl now ↦ rw (room, found, le, now) (goto_plain (wait_for e) refl)
              | inr later ↦ rw (room, found, le, later) (goto_plain ready refl)
            ]
          ]
        ]
      ]

  pub wait_reader-Values :
      (call : Call) (e : ReplayWaitMemop) → Values r content (wait_reader s t call e)
  unfolding wait_reader
  wait_reader-Values call e = elim (Bool-cases (leb (s.thread e.tid).memop e.memop)) [
    | inl wait ↦ rw wait val
    | inr past ↦ rw past (goto_plain scan refl)
  ]
