-- ===== src/Text/Numbers.antt =====
-- `stoi` reads a number back from its decimal digits.
use quickstructs.Prelude.{
  ℕ, zero, suc, ◌+◌, ◌-◌, ◌*◌, ◌/◌, ◌%◌, ◌≤◌, ◌<◌, ◌≡◌, refl, ap, ◌∙◌, true, false, Option, none,
  some, [], ◌∷◌, ◌++◌, back?, All, All-append, ltb, ◌==◌, arith, Bool-cases, inl, inr,
}
use quickstructs.Text.{
  Text, equal, strip_quotes, strip_between, are_quotes, is_digit, is_space, skip_spaces,
  read_digits, starts_with_digit, int_of, read_sign, stoi,
}

unfoldable pub digits_of : ℕ → ℕ → Text
digits_of zero n = []
digits_of (suc f) n = elim (ltb n 10) [
  | true ↦ (b'0' + n) ∷ []
  | false ↦ digits_of f (n / 10) ++ (b'0' + n % 10) ∷ []
]

-- A number in decimal digits.
unfoldable pub decimal : ℕ → Text
unfolding digits_of
decimal n = digits_of (suc n) n

unfoldable pub AreDigits : Text → Type 0
AreDigits s = All (λ c. is_digit c ≡ true) s

digit : (n : ℕ) → n < 10 → is_digit (b'0' + n) ≡ true
digit n l = ground arith

digits_of-AreDigits : (f n : ℕ) → AreDigits (digits_of f n)
unfolding digits_of AreDigits
digits_of-AreDigits zero n = record {}
digits_of-AreDigits (suc f) n = elim (Bool-cases (ltb n 10)) [
  | inl e ↦ rw (e, digits_of) (digit n (ground arith), record {})
  | inr e ↦
      rw (e, digits_of)
        (All-append (λ c. is_digit c ≡ true) (digits_of f (n / 10)) ((b'0' + n % 10) ∷ [])
          (digits_of-AreDigits f (n / 10)) (digit (n % 10) (omega arith), record {}))
]

read_digits-concat :
    (a c : ℕ) (xs : Text)
    → AreDigits xs
    → is_digit c ≡ true
    → read_digits a (xs ++ c ∷ []) ≡ read_digits a xs * 10 + (c - b'0')
unfolding read_digits AreDigits
read_digits-concat a c [] h e = rw e refl
read_digits-concat a c (x ∷ xs) (h, hs) e =
    rw (h, read_digits-concat (a * 10 + (x - b'0')) c xs hs e) refl

read_digits-digits_of : (f n : ℕ) → n < f → read_digits 0 (digits_of f n) ≡ n
unfolding digits_of read_digits
read_digits-digits_of zero n l = absurd (omega arith)
read_digits-digits_of (suc f) n l = elim (Bool-cases (ltb n 10)) [
  | inl e ↦ let d = digit n (ground arith) in rw (e, digits_of) (rw (d, read_digits) (omega arith))
  | inr e ↦
      let big : 10 ≤ n = ground arith in
      rw (e, digits_of)
        (read_digits-concat 0 (b'0' + n % 10) (digits_of f (n / 10))
            (digits_of-AreDigits f (n / 10)) (digit (n % 10) (omega arith))
          ∙ omega (arith, read_digits-digits_of f (n / 10) (omega arith)))
]

-- Digits are no spaces and no signs.
read_number :
    (s : Text)
    → AreDigits s
    → starts_with_digit s ≡ true
    → read_sign (skip_spaces s) ≡ int_of false (read_digits 0 s)
unfolding read_sign skip_spaces AreDigits
read_number [] h e = ground (arith, e)
read_number (c ∷ cs) (h, hs) e =
    let space : is_space c ≡ false = ground arith in
    let minus : (c == b'-') ≡ false = ground arith in
    let plus : (c == b'+') ≡ false = ground arith in rw space (rw (minus, plus) (rw h refl))

starts_with_digit-concat :
    (xs : Text) (c : ℕ) → AreDigits xs → is_digit c ≡ true → starts_with_digit (xs ++ c ∷ []) ≡ true
unfolding AreDigits
starts_with_digit-concat [] c h e = e
starts_with_digit-concat (x ∷ xs) c (h, hs) e = h

starts_with_digit-decimal : (n : ℕ) → starts_with_digit (decimal n) ≡ true
unfolding decimal digits_of
starts_with_digit-decimal n = elim (Bool-cases (ltb n 10)) [
  | inl e ↦ rw (e, digits_of) (digit n (ground arith))
  | inr e ↦
      rw (e, digits_of)
        (starts_with_digit-concat (digits_of n (n / 10)) (b'0' + n % 10)
          (digits_of-AreDigits n (n / 10)) (digit (n % 10) (omega arith)))
]

-- The decimal digits of a number are read as the number if it is an `int`, and else throw.
pub stoi-decimal : (n : ℕ) → stoi (decimal n) ≡ int_of false n
unfolding stoi decimal
stoi-decimal n =
    read_number (decimal n) (digits_of-AreDigits (suc n) n) (starts_with_digit-decimal n)
    ∙ ap (int_of false) (read_digits-digits_of (suc n) n (omega arith))

pub decimal-some : (n : ℕ) → equal (decimal n) [] ≡ false
unfolding equal
decimal-some n = some_digits (decimal n) (starts_with_digit-decimal n)
  where
    some_digits : (s : Text) → starts_with_digit s ≡ true → equal s [] ≡ false
    some_digits [] e = ground (arith, e)
    some_digits (c ∷ cs) e = refl

-- No digit is a quote.
strip_between-digit :
    (c : ℕ) (r : Text) (o : Option ℕ) → is_digit c ≡ true → strip_between c r o ≡ c ∷ r
strip_between-digit c r none e = refl
strip_between-digit c r (some q) e =
    let no_quotes : are_quotes c q ≡ false = ground arith in rw no_quotes refl

pub strip_quotes-decimal : (n : ℕ) → strip_quotes (decimal n) ≡ decimal n
unfolding strip_quotes
strip_quotes-decimal n = not_quoted (decimal n) (starts_with_digit-decimal n)
  where
    not_quoted : (s : Text) → starts_with_digit s ≡ true → strip_quotes s ≡ s
    not_quoted [] e = ground (arith, e)
    not_quoted (c ∷ cs) e = strip_between-digit c cs (back? cs) e

pub decimal-AreDigits : (n : ℕ) → AreDigits (decimal n)
unfolding decimal
decimal-AreDigits n = digits_of-AreDigits (suc n) n

pub read_digits-decimal : (n : ℕ) → read_digits 0 (decimal n) ≡ n
unfolding decimal
read_digits-decimal n = read_digits-digits_of (suc n) n (omega arith)
