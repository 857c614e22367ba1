-- ===== src/Merge/Skip.antt =====
-- merge-memop.cpp: the entries of the index for objects without a log.

use mem_order.Base.{
  ℕ, zero, suc, ◌+◌, ◌*◌, ◌<◌, ◌≤◌, ◌≡◌, arith, refl, ◌∙◌, pos, minus_one, ℕ_discrete,
}
use mem_order.Merge.{MergeFiles, put, skip_objects}

-- `n` objects without a log are written from an object's place on, and nothing else changes.
pub record Skipped (a n : ℕ) (m m' : MergeFiles) : Type 0 where
  pub at : m'.at ≡ m.at + 2 * n
  pub before : (i : ℕ) → i < m.at → m'.index i ≡ m.index i
  pub absent :
      (u : ℕ) → a ≤ u → u < a + n → (m'.index (2 * u) ≡ minus_one) × (m'.index (2 * u + 1) ≡ pos 0)
  pub same :
      (m'.memop_log ≡ m.memop_log)
      × (m'.cnt ≡ m.cnt)
      × (m'.prev_cnt ≡ m.prev_cnt)
      × (m'.prev_id ≡ m.prev_id)

pub skip_objects-Skipped :
    (a n : ℕ) (m : MergeFiles) → m.at ≡ 2 * a → Skipped a n m (skip_objects n m)
unfolding skip_objects
skip_objects-Skipped a zero m p = record {
  at = omega arith;
  before = λ i lt. refl;
  absent = λ u lo hi. absurd (omega arith);
  same = (refl, refl, refl, refl);
}
skip_objects-Skipped a (suc n) m p =
    let next = put (pos 0) (put minus_one m) in
    let s = skip_objects-Skipped (suc a) n next (omega (arith, p)) in
    record {
      at = omega (arith, s.at);
      before = λ i lt. s.before i (omega arith) ∙ (ground arith);
      absent = λ u lo hi. elim (ℕ_discrete a u) [
        | yes e ↦ (
          s.before (2 * u) (omega (arith, e)) ∙ (ground (arith, p, e)),
          s.before (2 * u + 1) (omega (arith, e)) ∙ (ground (arith, p, e)),
        )
        | no e ↦ s.absent u (omega (arith, e)) (omega arith)
      ];
      same = s.same;
    }
