-- ===== src/XorBitant/Injective.antt =====
-- No two states have the same next state.
use Prim.Native.Nat.{bit_xor}
use native.Mathlib.Nat.{mod-lt}
use quickstructs.Prelude.{
  ℕ, zero, suc, ◌*◌, ◌/◌, ◌%◌, ◌^◌, ◌<◌, ◌≡◌, ◌≢◌, refl, sym, ap, ◌∙◌, pow_pos, arith,
}
use quickstructs.XorBitant.{xor_left, xor_right, next_state, generate, state_after}
use quickstructs.XorBitant.Xor.{
  bit_xor-eq-zero, bit_xor_self, bit_xor_exchange, bit_xor_shift, bit_xor_mod, bit_xor-lt,
  bit_xor_right,
}

-- A map of words that goes through `bit_xor`, and that no word but 0 is left alone by.
record Shift (f : ℕ → ℕ) : Type 0 where
  additive : (a b : ℕ) → f (bit_xor a b) ≡ bit_xor (f a) (f b)
  bounded : (a : ℕ) → a < 2 ^ 64 → f a < 2 ^ 64
  moves : (a : ℕ) → a < 2 ^ 64 → a ≡ f a → a ≡ 0

abbrev with_shift : (ℕ → ℕ) → ℕ → ℕ
with_shift f a = bit_xor a (f a)

with_shift_inj :
    (f : ℕ → ℕ) (a b : ℕ)
    → Shift f
    → a < 2 ^ 64
    → b < 2 ^ 64
    → with_shift f a ≡ with_shift f b
    → a ≡ b
with_shift_inj f a b s la lb e =
    let z = bit_xor a b in
    let together : bit_xor z (f z) ≡ 0 =
      ap (bit_xor z) (s.additive a b)
      ∙ bit_xor_exchange a b (f a) (f b)
      ∙ ap (λ t. bit_xor t (with_shift f b)) e
      ∙ bit_xor_self (with_shift f b) in
    bit_xor-eq-zero a b (s.moves z (bit_xor-lt 64 a b la lb) (bit_xor-eq-zero z (f z) together))

left_additive :
    (k a b : ℕ) → bit_xor a b * 2 ^ k % 2 ^ 64 ≡ bit_xor (a * 2 ^ k % 2 ^ 64) (b * 2 ^ k % 2 ^ 64)
left_additive k a b =
    ap (λ t. t % 2 ^ 64) (sym (bit_xor_shift k a b)) ∙ sym (bit_xor_mod 64 (a * 2 ^ k) (b * 2 ^ k))

left_13 : Shift (λ a. a * 2 ^ 13 % 2 ^ 64)
left_13 = record {
  additive = left_additive 13;
  bounded = λ a l. mod-lt (a * 2 ^ 13) (pow_pos 64);
  moves = λ a l e. omega (arith, e);
}

left_5 : Shift (λ a. a * 2 ^ 5 % 2 ^ 64)
left_5 = record {
  additive = left_additive 5;
  bounded = λ a l. mod-lt (a * 2 ^ 5) (pow_pos 64);
  moves = λ a l e. omega (arith, e);
}

right_7 : Shift (λ a. a / 2 ^ 7)
right_7 = record {
  additive = λ a b. sym (bit_xor_right 7 a b);
  bounded = λ a l. omega arith;
  moves = λ a l e. omega (arith, e);
}

with_shift-lt : (f : ℕ → ℕ) (a : ℕ) → Shift f → a < 2 ^ 64 → with_shift f a < 2 ^ 64
with_shift-lt f a s l = bit_xor-lt 64 a (f a) l (s.bounded a l)

pub next_state-lt : (a : ℕ) → a < 2 ^ 64 → next_state a < 2 ^ 64
unfolding next_state
next_state-lt a l =
    with_shift-lt (λ t. t * 2 ^ 5 % 2 ^ 64) (xor_right 7 (xor_left 13 a)) left_5
      (with_shift-lt (λ t. t / 2 ^ 7) (xor_left 13 a) right_7
        (with_shift-lt (λ t. t * 2 ^ 13 % 2 ^ 64) a left_13 l))

next_state_inj : (a b : ℕ) → a < 2 ^ 64 → b < 2 ^ 64 → next_state a ≡ next_state b → a ≡ b
unfolding next_state
next_state_inj a b la lb e =
    let a1 = with_shift-lt (λ t. t * 2 ^ 13 % 2 ^ 64) a left_13 la in
    let b1 = with_shift-lt (λ t. t * 2 ^ 13 % 2 ^ 64) b left_13 lb in
    let a2 = with_shift-lt (λ t. t / 2 ^ 7) (xor_left 13 a) right_7 a1 in
    let b2 = with_shift-lt (λ t. t / 2 ^ 7) (xor_left 13 b) right_7 b1 in
    with_shift_inj (λ t. t * 2 ^ 13 % 2 ^ 64) a b left_13 la lb
      (with_shift_inj (λ t. t / 2 ^ 7) (xor_left 13 a) (xor_left 13 b) right_7 a1 b1
        (with_shift_inj (λ t. t * 2 ^ 5 % 2 ^ 64) (xor_right 7 (xor_left 13 a))
          (xor_right 7 (xor_left 13 b)) left_5 a2 b2 e))

-- Generators with different seeds of 64 bits have different states of 64 bits after the same number
-- of calls.
pub state_after_inj :
    (n a b : ℕ)
    → a < 2 ^ 64
    → b < 2 ^ 64
    → a ≢ b
    → (state_after n a ≢ state_after n b) × (state_after n a < 2 ^ 64)
unfolding state_after
state_after_inj zero a b la lb d = (d, la)
state_after_inj (suc n) a b la lb d =
    state_after_inj n (next_state a) (next_state b) (next_state-lt a la) (next_state-lt b lb)
      (λ e. d (next_state_inj a b la lb e))

next_state-zero : next_state 0 ≡ 0
unfolding next_state
next_state-zero = refl

state_after-zero : (n : ℕ) → state_after n 0 ≡ 0
unfolding state_after
state_after-zero zero = refl
state_after-zero (suc n) = ap (state_after n) next_state-zero ∙ state_after-zero n

state_after_last : (n a : ℕ) → next_state (state_after n a) ≡ state_after (suc n) a
unfolding state_after
state_after_last zero a = refl
state_after_last (suc n) a = state_after_last n (next_state a)

-- A generator never reaches the state 0, where it would stay, from a seed that is not 0; and each of
-- its results is an unsigned number of 32 bits.
pub generate_states :
    (n seed : ℕ)
    → seed < 2 ^ 64
    → seed ≢ 0
    → (state_after n seed ≢ 0)
      × ((generate (state_after n seed)).0 < 2 ^ 32)
      × ((generate (state_after n seed)).1 ≡ state_after (suc n) seed)
unfolding generate
generate_states n seed l d = (
  λ e. (state_after_inj n seed 0 l (omega arith) d).0 (e ∙ sym (state_after-zero n)),
  omega arith,
  state_after_last n seed,
)
