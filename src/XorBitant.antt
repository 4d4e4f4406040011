-- ===== src/XorBitant.antt =====
-- include/quick/utils/XorBitant.hh. Words of 64 bits are numbers below 2^64.
pub mod Xor
pub mod Injective
mod Tests
use Prim.Native.Nat.{bit_xor}
use quickstructs.Prelude.{ℕ, zero, suc, ◌+◌, ◌-◌, ◌*◌, ◌/◌, ◌%◌, ◌^◌}

-- `XorBitant`, by its state, and its two constants.
abbrev pub XorBitant : Type 0
XorBitant = ℕ

abbrev pub magic_multiplier : ℕ
magic_multiplier = 0x9E3779B97F4A7C15

abbrev pub magic_seed : ℕ
magic_seed = 0xDEADBEEFBABECAFE

-- `min` and `max`
abbrev pub min_result : ℕ
min_result = 0

abbrev pub max_result : ℕ
max_result = 2 ^ 32 - 1

-- `x ^= x << k` and `x ^= x >> k` on 64 bits.
abbrev pub xor_left : ℕ → ℕ → ℕ
xor_left k x = bit_xor x (x * 2 ^ k % 2 ^ 64)

abbrev pub xor_right : ℕ → ℕ → ℕ
xor_right k x = bit_xor x (x / 2 ^ k)

-- `operator()`: the new state, and the result.
unfoldable pub next_state : XorBitant → XorBitant
next_state state = xor_left 5 (xor_right 7 (xor_left 13 state))

pub generate : XorBitant → ℕ × XorBitant
generate state = let x = next_state state in (x * magic_multiplier % 2 ^ 64 % 2 ^ 32, x)

-- The states and the results of so many calls.
unfoldable pub state_after : ℕ → XorBitant → XorBitant
state_after zero state = state
state_after (suc n) state = state_after n (next_state state)
