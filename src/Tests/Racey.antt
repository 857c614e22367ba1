-- ===== src/Tests/Racey.antt =====
-- racey.c: one thread that runs one round.

use mathlib.Core.List.Memᴰ as MemD
use mem_order.Base.{
  ℕ, zero, suc, ◌+◌, ◌*◌, ◌<◌, ◌≤◌, ◌≡◌, length, List, [], ◌∷◌, some, arith, refl, pos,
}
use mem_order.Trace.{rd, wr, Event, access, view}
use mem_order.Trace.Order.{recording}
use mem_order.Replay.Defs.{write, objid}
use mem_order.Racey.{calc_objid_racey, mix, thread_body, mix_sig, max_elem, initial_value}
use mem_order.Racey.Bounds.{IsMixed, thread_body-InBounds, calc_objid_racey-word}
use mem_order.Racey.Signature.{mix_sig-written}

-- The thread reads word 0 twice and writes it.
abbrev events : List Event
events =
    record { tid = 0; op = rd; objid = 0 }
    ∷ record { tid = 0; op = rd; objid = 0 }
    ∷ record { tid = 0; op = wr; objid = 0 }
    ∷ []

abbrev content : ℕ → ℕ → ℕ
content o zero = initial_value o
content o (suc v) = 0

mix_3_5 : mix 3 5 ≡ 4615823
unfolding mix
mix_3_5 = refl

accesses_0 : (recording events).accesses 0 ≡ access rd 0 0 ∷ access rd 0 0 ∷ access wr 0 0 ∷ []
unfolding recording view
accesses_0 = refl

thread_body-InBounds_example : (0 < max_elem) × IsMixed (write 0 0)
unfolding thread_body mix
thread_body-InBounds_example = thread_body-InBounds 1 1 0 2 (0 ∷ 0 ∷ []) (write 0 0) refl

-- Two threads, a round each.
abbrev two_reads : ℕ → List ℕ
two_reads zero = 3 ∷ 5 ∷ []
two_reads (suc t) = 7 ∷ 9 ∷ []

two_reads-enough : (t : ℕ) → t < 2 → 2 ≤ length (two_reads t)
two_reads-enough zero lt = omega arith
two_reads-enough (suc t) lt = omega arith

mix_sig-written_example :
    (last : ℕ → ℕ) × ((t : ℕ)
      → t < 2
      → (o : ℕ) × (thread_body 2 1 t 2 (two_reads t) ≡ some (write o (last t))))
    × (mix_sig 1 1 two_reads ≡ last 0)
    × ((t : ℕ)
        → t < 1
        → mix_sig (suc (suc t)) 1 two_reads ≡ mix (last (suc t)) (mix_sig (suc t) 1 two_reads))
mix_sig-written_example = mix_sig-written 1 0 two_reads two_reads-enough

calc_objid_racey-word_example : calc_objid_racey 4096 (4096 + 2 * 64 + 3) ≡ some (pos 2)
calc_objid_racey-word_example =
    calc_objid_racey-word 4096 2 3 (omega arith) (omega arith) (omega arith)
