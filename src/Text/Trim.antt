-- ===== src/Text/Trim.antt =====
-- What trimming removes, and what it leaves alone.
use quickstructs.Prelude.{
  ℕ, ◌≤◌, ◌≡◌, ◌≢◌, refl, sym, ap, ◌∙◌, true, false, [], ◌∷◌, ◌++◌, length, arith, Bool-cases, inl,
  inr,
}
use quickstructs.Text.{Text, is_blank, trim_left, trim_right, cons_unless_blank}

-- No blank at either end.
pub record IsTrimmed (s : Text) : Type 0 where
  pub left : trim_left s ≡ s
  pub right : trim_right s ≡ s

trim_left-length : (s : Text) → length (trim_left s) ≤ length s
unfolding trim_left
trim_left-length [] = omega arith
trim_left-length (c ∷ cs) = ground (arith, trim_left-length cs)

pub trim_left-solid : (c : ℕ) (cs : Text) → is_blank c ≡ false → trim_left (c ∷ cs) ≡ c ∷ cs
unfolding trim_left
trim_left-solid c cs e = rw e refl

pub trim_left-blank : (c : ℕ) (cs : Text) → is_blank c ≡ true → trim_left (c ∷ cs) ≡ trim_left cs
unfolding trim_left
trim_left-blank c cs e = rw e refl

pub head_not_blank : (c : ℕ) (cs : Text) → trim_left (c ∷ cs) ≡ c ∷ cs → is_blank c ≡ false
unfolding trim_left
head_not_blank c cs e = elim (Bool-cases (is_blank c)) [
  | inl b ↦
      let shorter : trim_left cs ≡ c ∷ cs = rw b at e in
      absurd (omega (arith, ap length shorter, trim_left-length cs))
  | inr b ↦ b
]

-- A text without a blank in front keeps its front, whatever stands behind it.
pub trim_left-append : (s rest : Text) → IsTrimmed s → s ≢ [] → trim_left (s ++ rest) ≡ s ++ rest
trim_left-append [] rest t n = absurd (n refl)
trim_left-append (c ∷ cs) rest t n = trim_left-solid c (cs ++ rest) (head_not_blank c cs t.left)

cons_unless_blank-concat :
    (x : ℕ) (ys : Text) (c : ℕ) → cons_unless_blank x (ys ++ c ∷ []) ≡ x ∷ (ys ++ c ∷ [])
cons_unless_blank-concat x [] c = refl
cons_unless_blank-concat x (y ∷ ys) c = refl

pub trim_right-solid :
    (xs : Text) (c : ℕ) → is_blank c ≡ false → trim_right (xs ++ c ∷ []) ≡ xs ++ c ∷ []
unfolding trim_right
trim_right-solid [] c e = rw e refl
trim_right-solid (x ∷ xs) c e =
    ap (cons_unless_blank x) (trim_right-solid xs c e) ∙ cons_unless_blank-concat x xs c

pub trim_right-blank :
    (xs : Text) (c : ℕ) → is_blank c ≡ true → trim_right (xs ++ c ∷ []) ≡ trim_right xs
unfolding trim_right
trim_right-blank [] c e = rw e refl
trim_right-blank (x ∷ xs) c e = ap (cons_unless_blank x) (trim_right-blank xs c e)

trim_right-cons :
    (c : ℕ) (r : Text)
    → trim_right r ≡ r
    → trim_right (cons_unless_blank c r) ≡ cons_unless_blank c r
unfolding trim_right
trim_right-cons c [] e = elim (Bool-cases (is_blank c)) [
  | inl b ↦ rw b refl
  | inr b ↦ rw (b, b) refl
]
trim_right-cons c (d ∷ ds) e = ap (cons_unless_blank c) e

trim_right_idem : (s : Text) → trim_right (trim_right s) ≡ trim_right s
unfolding trim_right
trim_right_idem [] = refl
trim_right_idem (c ∷ cs) = trim_right-cons c (trim_right cs) (trim_right_idem cs)

cons_unless_blank-solid : (c : ℕ) (r : Text) → is_blank c ≡ false → cons_unless_blank c r ≡ c ∷ r
cons_unless_blank-solid c [] e = rw e refl
cons_unless_blank-solid c (d ∷ ds) e = refl

trim_left-trim_right : (s : Text) → trim_left s ≡ s → trim_left (trim_right s) ≡ trim_right s
unfolding trim_right
trim_left-trim_right [] e = e
trim_left-trim_right (c ∷ cs) e =
    let solid = head_not_blank c cs e in
    ap trim_left (cons_unless_blank-solid c (trim_right cs) solid)
    ∙ trim_left-solid c (trim_right cs) solid
    ∙ sym (cons_unless_blank-solid c (trim_right cs) solid)

pub trim_right-IsTrimmed : (s : Text) → trim_left s ≡ s → IsTrimmed (trim_right s)
trim_right-IsTrimmed s e = record { left = trim_left-trim_right s e; right = trim_right_idem s }

pub trim_left_idem : (s : Text) → trim_left (trim_left s) ≡ trim_left s
unfolding trim_left
trim_left_idem [] = refl
trim_left_idem (c ∷ cs) = elim (Bool-cases (is_blank c)) [
  | inl b ↦ rw b (trim_left_idem cs)
  | inr b ↦ rw (b, b) refl
]

-- What is trimmed on both sides has no blank at either end.
pub trim-IsTrimmed : (s : Text) → IsTrimmed (trim_right (trim_left s))
trim-IsTrimmed s = trim_right-IsTrimmed (trim_left s) (trim_left_idem s)

pub trim_right-some : (c : ℕ) (cs : Text) → is_blank c ≡ false → trim_right (c ∷ cs) ≢ []
unfolding trim_right
trim_right-some c cs e f = ground (arith, sym (cons_unless_blank-solid c (trim_right cs) e) ∙ f)
