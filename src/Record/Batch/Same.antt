-- ===== src/Record/Batch/Same.antt =====
-- mem-record-seqbatch.c: batched log taking stores the version after a write and direct log taking
-- does not, which no later access of the thread can tell.
use mem_order.Base.{
  ℕ, suc, ◌+◌, ◌==◌, ◌≤◌, ◌≡◌, List, ◌∷◌, minus_one, arith, refl, inl, inr, ◌⊎◌, ap, ◌∙◌, sym,
  ℕ_discrete, true, false, subst,
}
use mem_order.Trace.{Op-cases, Access, next_version}
use mem_order.Trace.Growing.{FromVersion}
use mem_order.Record.{LastObjinfo, Recorder, note_access}
use mem_order.Record.Emit.{
  version_entries, memop_entries, read_entry, last_after, memop-note_access, versions-note_access,
  memops-note_access, last-note_access,
}
use mem_order.Record.Batch.{process_1log}
use mem_order.Record.Batch.Effect.{
  queued, last_processed, memop-process_1log, versions-process_1log, memops-process_1log,
  last-process_1log,
}

-- The entries agree, or both stand for a write before a larger version.
abbrev pub SameLast : ℕ → List Access → LastObjinfo → LastObjinfo → Type 0
SameLast o xs l k =
    ((l ≡ k) × FromVersion o l.version xs)
    ⊎ ((l.memop ≡ minus_one)
        × (k.memop ≡ minus_one)
        × FromVersion o (suc l.version) xs
        × FromVersion o (suc k.version) xs)

pub record Same (xs : List Access) (r b : Recorder) : Type 0 where
  pub memop : r.memop ≡ b.memop
  pub versions : r.versions ≡ b.versions
  pub memops : r.memops ≡ b.memops
  pub last : (o : ℕ) → SameLast o xs (r.last o) (b.last o)

SameLast-tail :
    (a : Access) (xs : List Access) (o : ℕ) (l k : LastObjinfo)
    → SameLast o (a ∷ xs) l k
    → SameLast o xs l k
SameLast-tail a xs o l k (inl (e, h)) = inl (e, λ i v op p. h (suc i) v op p)
SameLast-tail a xs o l k (inr (p, q, h, g)) =
    inr (p, q, λ i v op e. h (suc i) v op e, λ i v op e. g (suc i) v op e)

module _ (a : Access) (xs : List Access) (r b : Recorder)
    (later : FromVersion a.objid (next_version a.op a.version) xs) (s : Same (a ∷ xs) r b) where
  same_versions : version_entries a r ≡ version_entries a b
  unfolding version_entries
  same_versions = elim (s.last a.objid) [
    | inl (e, h) ↦ ground (arith, s.memop)
    | inr (p, q, h, g) ↦
        let lo = h 0 a.version a.op refl in
        let lo' = g 0 a.version a.op refl in ground (arith, s.memop)
  ]

  same_memops : memop_entries a r ≡ memop_entries a b
  unfolding memop_entries read_entry
  same_memops = elim (s.last a.objid) [
    | inl (e, h) ↦ rw e
    | inr (p, q, h, g) ↦
        let lo = h 0 a.version a.op refl in let lo' = g 0 a.version a.op refl in ground arith
  ]

  low : (r.last a.objid).version ≤ a.version
  low = elim (s.last a.objid) [
    | inl (e, h) ↦ h 0 a.version a.op refl
    | inr (p, q, h, g) ↦ omega (arith, h 0 a.version a.op refl)
  ]

  same_after : SameLast a.objid xs (last_after a r) (last_processed a b)
  unfolding last_after last_processed
  same_after = elim (Op-cases a.op) [
    | inl e ↦ inl (ground (arith, s.memop), λ k v op p. let h = later k v op p in ground arith)
    | inr e ↦ inr (
      ground arith,
      ground arith,
      λ k v op p. let h = later k v op p in ground (arith, low),
      λ k v op p. let h = later k v op p in ground arith,
    )
  ]

  same_last :
      (o : ℕ) → SameLast o xs ((note_access a r).last o) ((process_1log (queued a) b).last o)
  same_last o = elim (ℕ_discrete a.objid o) [
    | yes e ↦
        let t : (a.objid == o) ≡ true = ground arith in
        rw (last-note_access a r o, last-process_1log a b o, t)
          (subst (λ n. SameLast n xs (last_after a r) (last_processed a b)) e same_after)
    | no e ↦
        let t : (a.objid == o) ≡ false = ground arith in
        rw (last-note_access a r o, last-process_1log a b o, t)
          (SameLast-tail a xs o (r.last o) (b.last o) (s.last o))
  ]

  pub note_access-Same : Same xs (note_access a r) (process_1log (queued a) b)
  note_access-Same = record {
    memop = memop-note_access a r ∙ ap (λ n. n + 1) s.memop ∙ sym (memop-process_1log a b);
    versions = rw (versions-note_access a r, versions-process_1log a b, same_versions, s.versions);
    memops = rw (memops-note_access a r, memops-process_1log a b, same_memops, s.memops);
    last = same_last;
  }
