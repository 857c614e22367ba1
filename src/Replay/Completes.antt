-- ===== src/Replay/Completes.antt =====
-- mem-replay.c: a replay is never stuck: from where it stands, the threads make the accesses that
-- are left in the order of the recorded run.
use mem_order.Base.{
  ℕ, zero, suc, ◌≤◌, ◌<◌, ◌≡◌, inl, inr, List, [], ◌∷◌, ◌++◌, some, get_elem?, length, take, arith,
  refl, sym, ap, ◌∙◌, subst, Option-cases, dec_lt, append-nil, append_assoc, take-all, get_elem?-lt,
  get_elem?-append,
}
use mem_order.Mem.{ReplayWaitMemop}
use mem_order.Trace.{rd, wr, Event, Access, access, view}
use mem_order.Trace.Order.{Recording, recording}
use mem_order.Trace.Append.{after, view-append}
use mem_order.Trace.Prefix.{view-next, length-view-snoc, after-cases, view-read_before}
use mem_order.Record.Origin.{logged-LogsRead}
use mem_order.Record.Reads.{read_log}
use mem_order.Replay.Defs.{
  Pc, start, arrived, scan, searching, wait_for, ready, loaded, stored, bumped, aborted, State,
  Call, Program, op_of, objid, step, run,
}
use mem_order.Replay.Logs.{MergedLogs}
use mem_order.Replay.Invariant.Defs.{finished, Current}
use mem_order.Replay.Invariant.Readers.{Bounded}
use mem_order.Replay.Values.{reads_of, ProgramRun}
use mem_order.Replay.Step.{Good, step-Good}
use mem_order.Replay.Start.{replay_start, start-Good, start-Done}
use mem_order.Replay.Done.{Done, turn-Done}
use mem_order.Replay.Moves.{budget, Moved, turn-Moved}

-- The program issues every recorded access.
abbrev pub Issues : Program → Recording → (ℕ → ℕ → ℕ) → Type 0
Issues prog r content =
    (t m : ℕ) (x : Access)
    → get_elem? (r.accesses t) m ≡ some x
    → (call : Call) × (prog t m (reads_of content (take m (r.accesses t))) ≡ some call)

-- The replay is where the recorded run was, and its versions are past the writes that are done.
abbrev Sound : Recording → (ℕ → List ReplayWaitMemop) → (ℕ → ℕ → ℕ) → State → Type 0
Sound r merged content s = Good r merged content s × Done r merged s

-- The threads have made the accesses of `pre`.
abbrev Covers : List Event → State → Type 0
Covers pre s = (t : ℕ) → length (view t (λ _. 0) pre) ≤ (s.thread t).memop

finished-ge : (pc : Pc) (m : ℕ) → m ≤ finished pc m
finished-ge start m = omega arith
finished-ge arrived m = omega arith
finished-ge scan m = omega arith
finished-ge searching m = omega arith
finished-ge (wait_for e) m = omega arith
finished-ge ready m = omega arith
finished-ge (loaded x) m = omega arith
finished-ge stored m = omega arith
finished-ge bumped m = omega arith
finished-ge aborted m = omega arith

run-append :
    (prog : Program) (ts us : List ℕ) (s : State)
    → run prog (ts ++ us) s ≡ run prog us (run prog ts s)
unfolding run
run-append prog [] us s = refl
run-append prog (t ∷ ts) us s = run-append prog ts us (step prog t s)

module _ {prog : Program} {r : Recording} {nobj : ℕ} {merged : ℕ → List ReplayWaitMemop}
    {content : ℕ → ℕ → ℕ} {memory : ℕ → ℕ} (logs : MergedLogs r nobj merged)
    (bounded : Bounded r nobj) (ran : ProgramRun prog r content memory) where
  step-Sound :
      (t : ℕ) (s : State) → Sound r merged content s → Sound r merged content (step prog t s)
  unfolding step
  step-Sound t s (good, done) = (
    step-Good logs bounded ran t s good,
    elim (Option-cases (prog t (s.thread t).memop (s.thread t).reads)) [
      | inl ended ↦ rw (ended, step) done
      | inr (call, issued) ↦
          let at : prog t (s.thread t).memop
                (reads_of content (take (s.thread t).memop (r.accesses t)))
              ≡ some call =
            subst (λ l. prog t (s.thread t).memop l ≡ some call) (good.1.reads t) issued in
          let (v, cur) = ran.follows t (s.thread t).memop call at in
          rw (issued, step) (turn-Done s good.0 done t call v cur (s.thread t).pc refl)
    ],
  )

  run-Sound :
      (ts : List ℕ) (s : State) → Sound r merged content s → Sound r merged content (run prog ts s)
  unfolding run
  run-Sound [] s h = h
  run-Sound (t ∷ ts) s h = run-Sound ts (step prog t s) (step-Sound t s h)

  start-Sound : Sound r merged content (replay_start r nobj merged memory)
  start-Sound = (start-Good nobj merged ran, start-Done r nobj merged memory)

module _ {prog : Program} (es : List Event) {nobj : ℕ} {merged : ℕ → List ReplayWaitMemop}
    {content : ℕ → ℕ → ℕ} {memory : ℕ → ℕ} (logs : MergedLogs (recording es) nobj merged)
    (bounded : Bounded (recording es) nobj) (ran : ProgramRun prog (recording es) content memory)
    (issues : Issues prog (recording es) content) where
  module _ (pre : List Event) (e : Event) (post : List Event) (here : es ≡ pre ++ (e ∷ post)) where
    view-here :
        get_elem? (view e.tid (λ _. 0) es) (length (view e.tid (λ _. 0) pre))
        ≡ some (access e.op e.objid (after (λ _. 0) pre e.objid))
    view-here =
        ap (λ l. get_elem? (view e.tid (λ _. 0) l) (length (view e.tid (λ _. 0) pre))) here
        ∙ view-next (λ _. 0) pre e post

    view-parts :
        (u : ℕ) → view u (λ _. 0) es ≡ view u (λ _. 0) pre ++ view u (after (λ _. 0) pre) (e ∷ post)
    view-parts u = ap (view u (λ _. 0)) here ∙ view-append u (λ _. 0) pre (e ∷ post)

    -- The event's object has reached the version that the event reads.
    reached :
        (s : State)
        → Done (recording es) merged s
        → Covers pre s
        → after (λ _. 0) pre e.objid ≤ s.obj_version e.objid
    unfolding recording
    reached s done covers = elim (after-cases (λ _. 0) pre e.objid) [
      | inl zeroed ↦ omega (arith, zeroed)
      | inr (u, m, w, g, q) ↦
          let g' : get_elem? (view u (λ _. 0) es) m ≡ some (access wr e.objid w) =
            ap (λ l. get_elem? l m) (view-parts u)
            ∙ get_elem?-append (view u (λ _. 0) pre) (view u (after (λ _. 0) pre) (e ∷ post)) m g in
          omega (
            arith,
            q,
            done.wrote u m e.objid w
                (omega (
                  arith,
                  get_elem?-lt (view u (λ _. 0) pre) m g,
                  covers u,
                  finished-ge (s.thread u).pc (s.thread u).memop,
                ))
                g',
          )
    ]

    -- The read that the event waits for is past.
    past :
        (s : State)
        → Done (recording es) merged s
        → Covers pre s
        → (s.thread e.tid).memop ≡ length (view e.tid (λ _. 0) pre)
        → e.op ≡ wr
        → (f : ReplayWaitMemop) → (s.thread e.tid).pc ≡ wait_for f
        → f.memop < (s.thread f.tid).memop
    unfolding recording
    past s done covers now is_wr f q =
        let cur : Current (recording es) e.tid (s.thread e.tid) wr e.objid
            (after (λ _. 0) pre e.objid) =
          ap (get_elem? (view e.tid (λ _. 0) es)) now ∙ rw view-here (rw is_wr refl) in
        let (same, i, g) = done.waits e.tid e.objid (after (λ _. 0) pre e.objid) f q cur in
        elim (logged-LogsRead nobj ((recording es).accesses f.tid)
          (read_log e.objid f.version f.memop) (logs.origin e.objid i f g)) [
            | inl (o, w, k, eq, h) ↦
                let mk : f.memop ≡ k = ground arith in
                let mw : f.version ≡ w = ground arith in
                let eo : e.objid ≡ o = ground arith in
                let ew : after (λ _. 0) pre e.objid ≡ w = sym same ∙ mw in
                let at : get_elem? (view f.tid (λ _. 0) (pre ++ (e ∷ post))) f.memop
                    ≡ some (access rd e.objid (after (λ _. 0) pre e.objid)) =
                  ap (λ l. get_elem? (view f.tid (λ _. 0) l) f.memop) (sym here)
                  ∙ rw (mk, ew, eo) h in
                omega
                  (arith, covers f.tid, view-read_before f.tid (λ _. 0) pre e post f.memop is_wr at)
            | inr last ↦ absurd cc
          ]

    event-Moved :
        (s : State)
        → Sound (recording es) merged content s
        → Covers pre s
        → (s.thread e.tid).memop ≡ length (view e.tid (λ _. 0) pre)
        → Moved e.tid e.objid s (step prog e.tid s)
    unfolding recording step
    event-Moved s (good, done) covers now =
        let seen : get_elem? (view e.tid (λ _. 0) es) (s.thread e.tid).memop
            ≡ some (access e.op e.objid (after (λ _. 0) pre e.objid)) =
          ap (get_elem? (view e.tid (λ _. 0) es)) now ∙ view-here in
        let (call, at) = issues e.tid (s.thread e.tid).memop _ seen in
        let (v, cur) = ran.follows e.tid (s.thread e.tid).memop call at in
        let issued : prog e.tid (s.thread e.tid).memop (s.thread e.tid).reads ≡ some call =
          ap (prog e.tid (s.thread e.tid).memop) (good.1.reads e.tid) ∙ at in
        let eo : objid call ≡ e.objid = cc in
        let ev : after (λ _. 0) pre e.objid ≡ v = cc in
        let ek : op_of call ≡ e.op = cc in
        subst (λ o. Moved e.tid o s (step prog e.tid s)) eo
          (rw (issued, step)
            (turn-Moved s good.0 e.tid call v cur (rw eo (omega (arith, reached s done covers, ev)))
              (λ f q.
                past s done covers now
                  (sym ek ∙ (good.0.threads e.tid).writing (op_of call) (objid call) v cur (rw q)) f
                  q)
              (s.thread e.tid).pc refl))

    -- Steps of the event's thread make its access.
    event_made :
        (fuel : ℕ) (s : State)
        → Sound (recording es) merged content s
        → Covers pre s
        → (s.thread e.tid).memop ≡ length (view e.tid (λ _. 0) pre)
        → budget e.tid e.objid s < fuel
        → (ts : List ℕ) × Sound (recording es) merged content (run prog ts s)
          × Covers pre (run prog ts s)
          × (length (view e.tid (λ _. 0) pre) < ((run prog ts s).thread e.tid).memop)
    unfolding run
    event_made zero s sound covers now lt = absurd (omega arith)
    event_made (suc fuel) s sound covers now lt =
        let m = event-Moved s sound covers now in
        let s' = step prog e.tid s in
        let sound' : Sound (recording es) merged content s' =
          step-Sound logs bounded ran e.tid s sound in
        let covers' : Covers pre s' = λ u. omega (arith, covers u, m.kept u) in
        elim m.own [
          | inl made ↦ (e.tid ∷ [], sound', covers', omega (arith, made, now))
          | inr (same, less) ↦
              let (ts, h, c, l) =
                event_made fuel s' sound' covers' (same ∙ now) (omega (arith, less)) in
              (e.tid ∷ ts, h, c, l)
        ]

  Covers-snoc :
      (pre : List Event) (e : Event) (s : State)
      → Covers pre s
      → length (view e.tid (λ _. 0) pre) < (s.thread e.tid).memop
      → Covers (pre ++ (e ∷ [])) s
  Covers-snoc pre e s covers lt t = elim (length-view-snoc t (λ _. 0) pre e) [
    | inl (same, n) ↦
        let at : length (view t (λ _. 0) pre) < (s.thread t).memop =
          subst (λ u. length (view u (λ _. 0) pre) < (s.thread u).memop) same lt in
        omega (arith, n, at)
    | inr n ↦ omega (arith, n, covers t)
  ]

  rest_made :
      (post pre : List Event) (s : State)
      → es ≡ pre ++ post
      → Sound (recording es) merged content s
      → Covers pre s
      → (ts : List ℕ) × Covers es (run prog ts s)
        × Sound (recording es) merged content (run prog ts s)
  unfolding run
  rest_made [] pre s here sound covers =
      let whole : pre ≡ es = sym (append-nil pre) ∙ sym here in
      ([], subst (λ l. Covers l s) whole covers, sound)
  rest_made (e ∷ post) pre s here sound covers =
      let after_e : es ≡ (pre ++ (e ∷ [])) ++ post = here ∙ sym (append_assoc pre (e ∷ []) post) in
      elim (dec_lt (length (view e.tid (λ _. 0) pre)) (s.thread e.tid).memop) [
        | yes lt ↦ rest_made post (pre ++ (e ∷ [])) s after_e sound (Covers-snoc pre e s covers lt)
        | no ge ↦
            let (ts, sound', covers', lt) =
              event_made pre e post here (suc (budget e.tid e.objid s)) s sound covers
                (omega (arith, ge, covers e.tid)) (omega arith) in
            let (us, all, h) =
              rest_made post (pre ++ (e ∷ [])) (run prog ts s) after_e sound'
                (Covers-snoc pre e (run prog ts s) covers' lt) in
            (ts ++ us, rw (run-append prog ts us s) all, rw (run-append prog ts us s) h)
      ]

  -- Given the run's merged logs, its objects below `nobj` and the program that ran, which issues
  -- every recorded access: from wherever a replay stands, whatever its schedule so far, some further
  -- steps make every access of the recorded run, and each thread has then read all that it read when
  -- it was recorded.
  pub replay-completes :
      (ts : List ℕ)
      → (us : List ℕ) × ((t : ℕ)
          → let s = run prog (ts ++ us) (replay_start (recording es) nobj merged memory) in
            (length ((recording es).accesses t) ≤ (s.thread t).memop)
            × ((s.thread t).reads ≡ reads_of content ((recording es).accesses t)))
  unfolding recording view
  replay-completes ts =
      let (us, covers, (good, _)) =
        rest_made es [] (run prog ts (replay_start (recording es) nobj merged memory)) refl
          (run-Sound logs bounded ran ts _ (start-Sound logs bounded ran)) (λ t. omega arith) in
      (
        us,
        λ t. rw (run-append prog ts us (replay_start (recording es) nobj merged memory)) (
          covers t,
          good.1.reads t ∙ ap (reads_of content) (take-all (view t (λ _. 0) es) _ (covers t)),
        ),
      )
