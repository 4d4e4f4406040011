-- ===== src/XorBitant/Tests.antt =====
-- The generator from its own seed, and from small ones.
use quickstructs.Prelude.{◌^◌, ◌<◌, ◌≡◌, ◌≢◌, refl, arith}
use quickstructs.XorBitant.{next_state, state_after}
use quickstructs.XorBitant.Injective.{state_after_inj}

small-state : state_after 1 1 ≡ 272481
unfolding state_after next_state
small-state = refl

state_after_inj_example : (state_after 3 1 ≢ state_after 3 2) × (state_after 3 1 < 2 ^ 64)
state_after_inj_example = state_after_inj 3 1 2 (omega arith) (omega arith) (λ e. omega (arith, e))
