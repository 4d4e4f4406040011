-- ===== src/Prelude/Bits.antt =====
-- A mask of the low bits is a remainder, at every width.
use Prim.Native.Nat.{
  ℕ, zero, suc, ◌+◌, ◌-◌, ◌*◌, ◌/◌, ◌%◌, ◌^◌, ◌≤◌, ◌<◌, min, bit_and, digits, bit_and-bitwise,
}
use mathlib.Core.Path.{◌≡◌, refl, ◌∙◌, sym, ap}
use native.Mathlib.Nat.{pow-suc, mod-lt, div-add-mod, add-mul-mod_self_left, mod-eq_of_lt}
use native.Mathlib.Omega.{arith}

-- The digit recursion that `bit_and` stands for, on fuel.
abbrev meet : ℕ → ℕ → ℕ → ℕ
meet n a b = digits (λ c. zero) min n a b

pub pow_pos : (k : ℕ) → 0 < 2 ^ k
pow_pos zero = omega arith
pow_pos (suc k) = omega (arith, pow-suc 2 k, pow_pos k)

-- A remainder by twice `p` has the lowest digit and the remainder of the rest.
pub mod_twice : (a p : ℕ) → 0 < p → a / 2 % p * 2 + a % 2 ≡ a % (p * 2)
mod_twice a p h =
    let r = a / 2 % p * 2 + a % 2 in
    let q = a / 2 / p in
    let split : a ≡ r + p * 2 * q = omega (arith, div-add-mod (a / 2) p) in
    let small : r < p * 2 = omega (arith, mod-lt (a / 2) h) in
    sym (ap (λ t. t % (p * 2)) split ∙ add-mul-mod_self_left r (p * 2) q ∙ mod-eq_of_lt small)

meet-zero : (n a : ℕ) → a ≤ n → meet n a 0 ≡ 0
meet-zero zero a h = refl
meet-zero (suc n) zero h = refl
meet-zero (suc n) (suc a) h = omega (arith, meet-zero n (suc a / 2) (omega arith))

meet_mask : (n a k : ℕ) → a ≤ n → meet n a (2 ^ k - 1) ≡ a % 2 ^ k
meet_mask n a zero h = omega (arith, meet-zero n a h)
meet_mask zero zero (suc k) h = sym (mod-eq_of_lt (pow_pos (suc k)))
meet_mask zero (suc a) (suc k) h = absurd (omega arith)
meet_mask (suc n) zero (suc k) h = sym (mod-eq_of_lt (pow_pos (suc k)))
meet_mask (suc n) (suc a) (suc k) h =
    let half : (2 ^ suc k - 1) / 2 ≡ 2 ^ k - 1 = omega (arith, pow-suc 2 k, pow_pos k) in
    let odd : (2 ^ suc k - 1) % 2 ≡ 1 = omega (arith, pow-suc 2 k, pow_pos k) in
    let rest = meet_mask n (suc a / 2) k (omega arith) in
    rw (half, odd, rest) (rw pow-suc (omega (arith, mod_twice (suc a) (2 ^ k) (pow_pos k))))

-- `x & (2^k - 1)` is `x % 2^k`.
pub bit_and_mask : (a k : ℕ) → bit_and a (2 ^ k - 1) ≡ a % 2 ^ k
bit_and_mask a k = bit_and-bitwise a (2 ^ k - 1) ∙ meet_mask a a k (omega arith)
