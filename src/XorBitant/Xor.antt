-- ===== src/XorBitant/Xor.antt =====
-- The laws of `bit_xor`, from the digit recursion that it stands for.
use Prim.Native.Nat.{bit_xor, digits, differ, bit_xor-bitwise}
use native.Mathlib.Nat.{pow-suc, mod-lt, mod-eq_of_lt, div-div-eq-div-mul}
use quickstructs.Prelude.{
  ℕ, zero, suc, ◌+◌, ◌*◌, ◌/◌, ◌%◌, ◌^◌, ◌≤◌, ◌<◌, ◌≡◌, refl, sym, ap, ap₂, ◌∙◌, pow_pos, mod_twice,
  arith,
}

abbrev xor_digits : ℕ → ℕ → ℕ → ℕ
xor_digits n a b = digits (λ b. b) differ n a b

xor_digits_fuel : (n m a b : ℕ) → a ≤ n → a ≤ m → xor_digits n a b ≡ xor_digits m a b
xor_digits_fuel zero zero a b p q = refl
xor_digits_fuel zero (suc m) zero b p q = refl
xor_digits_fuel zero (suc m) (suc a) b p q = absurd (omega arith)
xor_digits_fuel (suc n) zero zero b p q = refl
xor_digits_fuel (suc n) zero (suc a) b p q = absurd (omega arith)
xor_digits_fuel (suc n) (suc m) zero b p q = refl
xor_digits_fuel (suc n) (suc m) (suc a) b p q =
    omega (arith, xor_digits_fuel n m (suc a / 2) (b / 2) (omega arith) (omega arith))

differ_sum : (x y : ℕ) → x < 2 → y < 2 → differ x y ≡ (x + y) % 2
differ_sum zero y p q = omega arith
differ_sum (suc zero) zero p q = refl
differ_sum (suc zero) (suc zero) p q = refl
differ_sum (suc zero) (suc (suc y)) p q = absurd (omega arith)
differ_sum (suc (suc x)) y p q = absurd (omega arith)

pub zero-bit_xor : (b : ℕ) → bit_xor 0 b ≡ b
zero-bit_xor b = bit_xor-bitwise 0 b

-- The lowest digit and the others.
pub bit_xor_step : (a b : ℕ) → bit_xor a b ≡ bit_xor (a / 2) (b / 2) * 2 + (a + b) % 2
bit_xor_step zero b = omega (arith, zero-bit_xor b, zero-bit_xor (b / 2))
bit_xor_step (suc a) b = omega (
  arith,
  bit_xor-bitwise (suc a) b,
  bit_xor-bitwise (suc a / 2) (b / 2),
  xor_digits_fuel a (suc a / 2) (suc a / 2) (b / 2) (omega arith) (omega arith),
  differ_sum (suc a % 2) (b % 2) (omega arith) (omega arith),
)

pub bit_xor_half : (a b : ℕ) → bit_xor a b / 2 ≡ bit_xor (a / 2) (b / 2)
bit_xor_half a b = omega (arith, bit_xor_step a b)

bit_xor_digit : (a b : ℕ) → bit_xor a b % 2 ≡ (a + b) % 2
bit_xor_digit a b = omega (arith, bit_xor_step a b)

-- Numbers with the same lowest digit and the same others are the same.
same_digits : (a b : ℕ) → a / 2 ≡ b / 2 → a % 2 ≡ b % 2 → a ≡ b
same_digits a b p q = omega arith

assoc_fuel : (n a b c : ℕ) → a + b + c ≤ n → bit_xor (bit_xor a b) c ≡ bit_xor a (bit_xor b c)
assoc_fuel zero zero b c h =
    ap (λ t. bit_xor t c) (zero-bit_xor b) ∙ sym (zero-bit_xor (bit_xor b c))
assoc_fuel zero (suc a) b c h = absurd (omega arith)
assoc_fuel (suc n) zero b c h =
    ap (λ t. bit_xor t c) (zero-bit_xor b) ∙ sym (zero-bit_xor (bit_xor b c))
assoc_fuel (suc n) (suc a) b c h =
    same_digits (bit_xor (bit_xor (suc a) b) c) (bit_xor (suc a) (bit_xor b c))
      (bit_xor_half (bit_xor (suc a) b) c
        ∙ ap (λ t. bit_xor t (c / 2)) (bit_xor_half (suc a) b)
        ∙ assoc_fuel n (suc a / 2) (b / 2) (c / 2) (omega arith)
        ∙ sym (bit_xor_half (suc a) (bit_xor b c) ∙ ap (bit_xor (suc a / 2)) (bit_xor_half b c)))
      (omega (
        arith,
        bit_xor_digit (bit_xor (suc a) b) c,
        bit_xor_digit (suc a) b,
        bit_xor_digit (suc a) (bit_xor b c),
        bit_xor_digit b c,
      ))

pub bit_xor_assoc : (a b c : ℕ) → bit_xor (bit_xor a b) c ≡ bit_xor a (bit_xor b c)
bit_xor_assoc a b c = assoc_fuel (a + b + c) a b c (omega arith)

comm_fuel : (n a b : ℕ) → a + b ≤ n → bit_xor a b ≡ bit_xor b a
comm_fuel zero a b h = let p : a ≡ b = omega arith in ap₂ bit_xor p (sym p)
comm_fuel (suc n) zero zero h = refl
comm_fuel (suc n) (suc a) b h =
    same_digits (bit_xor (suc a) b) (bit_xor b (suc a))
      (bit_xor_half (suc a) b
        ∙ comm_fuel n (suc a / 2) (b / 2) (omega arith)
        ∙ sym (bit_xor_half b (suc a)))
      (omega (arith, bit_xor_digit (suc a) b, bit_xor_digit b (suc a)))
comm_fuel (suc n) zero (suc b) h =
    same_digits (bit_xor 0 (suc b)) (bit_xor (suc b) 0)
      (bit_xor_half 0 (suc b)
        ∙ comm_fuel n 0 (suc b / 2) (omega arith)
        ∙ sym (bit_xor_half (suc b) 0))
      (omega (arith, bit_xor_digit 0 (suc b), bit_xor_digit (suc b) 0))

pub bit_xor_comm : (a b : ℕ) → bit_xor a b ≡ bit_xor b a
bit_xor_comm a b = comm_fuel (a + b) a b (omega arith)

pub bit_xor-zero : (a : ℕ) → bit_xor a 0 ≡ a
bit_xor-zero a = bit_xor_comm a 0 ∙ zero-bit_xor a

self_fuel : (n a : ℕ) → a ≤ n → bit_xor a a ≡ 0
self_fuel n zero h = zero-bit_xor 0
self_fuel zero (suc a) h = absurd (omega arith)
self_fuel (suc n) (suc a) h =
    omega (arith, bit_xor_step (suc a) (suc a), self_fuel n (suc a / 2) (omega arith))

pub bit_xor_self : (a : ℕ) → bit_xor a a ≡ 0
bit_xor_self a = self_fuel a a (omega arith)

pub bit_xor-eq-zero : (a b : ℕ) → bit_xor a b ≡ 0 → a ≡ b
bit_xor-eq-zero a b e =
    sym (bit_xor-zero a)
    ∙ ap (bit_xor a) (sym (bit_xor_self b))
    ∙ sym (bit_xor_assoc a b b)
    ∙ ap (λ t. bit_xor t b) e
    ∙ zero-bit_xor b

-- Pairs are exchanged.
pub bit_xor_exchange :
    (a b c d : ℕ) → bit_xor (bit_xor a b) (bit_xor c d) ≡ bit_xor (bit_xor a c) (bit_xor b d)
bit_xor_exchange a b c d =
    bit_xor_assoc a b (bit_xor c d)
    ∙ ap (bit_xor a)
        (sym (bit_xor_assoc b c d) ∙ ap (λ t. bit_xor t d) (bit_xor_comm b c) ∙ bit_xor_assoc c b d)
    ∙ sym (bit_xor_assoc a c (bit_xor b d))

-- Shifts, and remainders by powers of two, go through.
bit_xor_double : (a b : ℕ) → bit_xor (a * 2) (b * 2) ≡ bit_xor a b * 2
bit_xor_double a b =
    let p : a * 2 / 2 ≡ a = omega arith in
    let q : b * 2 / 2 ≡ b = omega arith in
    omega (arith, bit_xor_step (a * 2) (b * 2), ap₂ bit_xor p q)

pub bit_xor_shift : (k a b : ℕ) → bit_xor (a * 2 ^ k) (b * 2 ^ k) ≡ bit_xor a b * 2 ^ k
bit_xor_shift zero a b = ap₂ bit_xor (once a) (once b) ∙ sym (once (bit_xor a b))
  where
    once : (x : ℕ) → x * 2 ^ 0 ≡ x
    once x = omega arith
bit_xor_shift (suc k) a b =
    ap₂ bit_xor (twice a) (twice b)
    ∙ bit_xor_double (a * 2 ^ k) (b * 2 ^ k)
    ∙ ap (λ t. t * 2) (bit_xor_shift k a b)
    ∙ sym (twice (bit_xor a b))
  where
    twice : (x : ℕ) → x * 2 ^ suc k ≡ x * 2 ^ k * 2
    twice x = ap (λ t. x * t) (pow-suc 2 k) ∙ grind arith

-- The halves of a remainder, and its lowest digit.
mod_half : (a k : ℕ) → (a % 2 ^ suc k / 2 ≡ a / 2 % 2 ^ k) × (a % 2 ^ suc k % 2 ≡ a % 2)
mod_half a k =
    let m : a % 2 ^ suc k ≡ a / 2 % 2 ^ k * 2 + a % 2 =
      ap (λ t. a % t) (pow-suc 2 k ∙ grind arith) ∙ sym (mod_twice a (2 ^ k) (pow_pos k)) in
    (omega (arith, m), omega (arith, m))

pub bit_xor_mod : (k a b : ℕ) → bit_xor (a % 2 ^ k) (b % 2 ^ k) ≡ bit_xor a b % 2 ^ k
bit_xor_mod zero a b = ap₂ bit_xor (none_left a) (none_left b) ∙ sym (none_left (bit_xor a b))
  where
    none_left : (x : ℕ) → x % 2 ^ 0 ≡ 0
    none_left x = omega arith
bit_xor_mod (suc k) a b =
    let ma = mod_half a k in
    let mb = mod_half b k in
    let mx = mod_half (bit_xor a b) k in
    same_digits (bit_xor (a % 2 ^ suc k) (b % 2 ^ suc k)) (bit_xor a b % 2 ^ suc k)
      (bit_xor_half (a % 2 ^ suc k) (b % 2 ^ suc k)
        ∙ ap₂ bit_xor ma.0 mb.0
        ∙ bit_xor_mod k (a / 2) (b / 2)
        ∙ sym (mx.0 ∙ ap (λ t. t % 2 ^ k) (bit_xor_half a b)))
      (omega
        (arith, bit_xor_digit (a % 2 ^ suc k) (b % 2 ^ suc k), ma.1, mb.1, mx.1, bit_xor_digit a b))

pub bit_xor-lt : (k a b : ℕ) → a < 2 ^ k → b < 2 ^ k → bit_xor a b < 2 ^ k
bit_xor-lt k a b p q =
    let e : bit_xor a b % 2 ^ k ≡ bit_xor a b =
      sym (bit_xor_mod k a b) ∙ ap₂ bit_xor (mod-eq_of_lt p) (mod-eq_of_lt q) in
    omega (arith, e, mod-lt (bit_xor a b) (pow_pos k))

half_power : (a k : ℕ) → a / 2 ^ suc k ≡ a / 2 / 2 ^ k
half_power a k =
    let twice : 2 ^ suc k ≡ 2 * 2 ^ k = pow-suc 2 k ∙ grind arith in
    ap (λ t. a / t) twice ∙ sym (div-div-eq-div-mul a 2 (2 ^ k))

pub bit_xor_right : (k a b : ℕ) → bit_xor (a / 2 ^ k) (b / 2 ^ k) ≡ bit_xor a b / 2 ^ k
bit_xor_right zero a b = ap₂ bit_xor (whole a) (whole b) ∙ sym (whole (bit_xor a b))
  where
    whole : (x : ℕ) → x / 2 ^ 0 ≡ x
    whole x = omega arith
bit_xor_right (suc k) a b =
    ap₂ bit_xor (half_power a k) (half_power b k)
    ∙ bit_xor_right k (a / 2) (b / 2)
    ∙ sym (half_power (bit_xor a b) k ∙ ap (λ t. t / 2 ^ k) (bit_xor_half a b))
