-- ===== src/SpscQueue/Words.antt =====
-- The counters of the queue wrap, and its indices do not notice.
use native.Mathlib.Nat.{
  add-mul-mod_self_left, pow-suc, div-add-mod, zero-add, suc-add, mul-one, mul-suc, mul-le-mul_left,
  mul_assoc,
}
use native.Mathlib.Decide.{dec_le}
use quickstructs.Prelude.{
  ℕ, zero, suc, ◌+◌, ◌-◌, ◌*◌, ◌/◌, ◌%◌, ◌^◌, ◌≤◌, ◌<◌, ◌≡◌, ◌≢◌, sym, ap, ◌∙◌, arith, bit_and_mask,
  pow_pos,
}
use quickstructs.SpscQueue.{word, inc, diff, capacity, slot_index}

pow_add : (k j : ℕ) → 2 ^ (j + k) ≡ 2 ^ k * 2 ^ j
pow_add k zero = rw zero-add (omega arith)
pow_add k (suc j) = rw (suc-add, pow-suc, pow-suc, pow_add k j) (omega arith)

-- The unwrapped difference of the counters is recovered.
pub diff-word : (h t c : ℕ) → t ≤ h → h ≤ t + c → c < word → diff (h % word) (t % word) ≡ h - t
diff-word h t c a b d = omega arith

pub inc-word : (n : ℕ) → inc (n % word) ≡ (n + 1) % word
inc-word n = omega arith

rounds : (c p q r : ℕ) → c * p + r < c * q + r → c * q + r < c * p + r + c → ⊥
rounds c p q r a b = elim (dec_le q p) [
  | yes h ↦ absurd (omega (arith, mul-le-mul_left c h))
  | no h ↦
      let more : suc p ≤ q = omega arith in
      absurd (omega (arith, mul-le-mul_left c more, mul-suc c p))
]

-- Places less than a round apart are different.
pub places_ne : (c i j : ℕ) → i < j → j < i + c → i % c ≢ j % c
places_ne c i j a b e =
    rounds c (i / c) (j / c) (i % c) (omega (arith, div-add-mod i c, div-add-mod j c))
      (omega (arith, div-add-mod i c, div-add-mod j c))

pub place_again : (c i : ℕ) → (i + c) % c ≡ i % c
place_again c i = ap (λ n. (i + n) % c) (sym (mul-one c)) ∙ add-mul-mod_self_left i c 1

module _ (k : ℕ) (small : k < 64) where
  word_split : word ≡ capacity k * 2 ^ (64 - k)
  word_split = ap (λ n. 2 ^ n) (let e : 64 ≡ 64 - k + k = omega arith in e) ∙ pow_add k (64 - k)

  twice : 2 ^ (64 - k) ≡ 2 ^ (63 - k) * 2
  twice = ap (λ n. 2 ^ n) (let e : 64 - k ≡ suc (63 - k) = omega arith in e) ∙ pow-suc 2 (63 - k)

  pub capacity-lt-word : capacity k < word
  capacity-lt-word = omega (
    arith,
    word_split,
    ap (λ n. capacity k * n) twice,
    mul-le-mul_left (capacity k) (pow_pos (63 - k)),
    pow_pos k,
  )

  -- A wrapped counter names the same slot as the counter.
  pub slot_index-word : (i : ℕ) → slot_index k (i % word) ≡ i % capacity k
  unfolding slot_index
  slot_index-word i =
      bit_and_mask (i % word) k
      ∙ sym (add-mul-mod_self_left (i % word) (capacity k) (2 ^ (64 - k) * (i / word)))
      ∙ ap (λ n. n % capacity k) split
    where
      split : i % word + capacity k * (2 ^ (64 - k) * (i / word)) ≡ i
      split =
          ap (λ n. i % word + n)
            (sym (mul_assoc (capacity k) (2 ^ (64 - k)) (i / word))
              ∙ ap (λ n. n * (i / word)) (sym word_split))
          ∙ omega arith
