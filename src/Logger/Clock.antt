-- ===== src/Logger/Clock.antt =====
-- The time of a line can be read back from it.
use mathlib.Core.Option.{some-injective}
use quickstructs.Prelude.{
  ℕ, ◌≡◌, refl, sym, ap, ◌∙◌, false, [], ◌∷◌, ◌++◌, ltb, arith, Bool-cases, inl, inr,
}
use quickstructs.Text.{Text, is_digit, read_digits, split_at}
use quickstructs.Text.Split.{Lacks, split_at-append}
use quickstructs.Text.Numbers.{decimal, AreDigits, decimal-AreDigits, read_digits-decimal}
use quickstructs.Logger.{Time, two_digits, time_text}

digits-Lacks : (d : ℕ) (s : Text) → is_digit d ≡ false → AreDigits s → Lacks d s
unfolding AreDigits
digits-Lacks d [] e h = record {}
digits-Lacks d (c ∷ cs) e (h, hs) = (ground arith, digits-Lacks d cs e hs)

two_digits-AreDigits : (n : ℕ) → AreDigits (two_digits n)
unfolding AreDigits
two_digits-AreDigits n = elim (Bool-cases (ltb n 10)) [
  | inl e ↦ rw e (refl, decimal-AreDigits n)
  | inr e ↦ rw e (decimal-AreDigits n)
]

-- A leading zero is no change.
read_digits-two_digits : (n : ℕ) → read_digits 0 (two_digits n) ≡ n
unfolding read_digits
read_digits-two_digits n = elim (Bool-cases (ltb n 10)) [
  | inl e ↦ rw e (read_digits-decimal n)
  | inr e ↦ rw e (read_digits-decimal n)
]

-- The text up to a byte that it lacks, and what is behind.
split_same :
    (d : ℕ) (s t x y : Text) → Lacks d s → Lacks d t → s ++ d ∷ x ≡ t ++ d ∷ y → (s ≡ t) × (x ≡ y)
split_same d s t x y hs ht e =
    let p : (s, x) ≡ (t, y) =
      some-injective (s, x) (t, y)
        (sym (split_at-append d s x hs) ∙ ap (split_at d) e ∙ split_at-append d t y ht) in
    (ap (λ (q : Text × Text). q.0) p, ap (λ (q : Text × Text). q.1) p)

two_digits_inj : (m n : ℕ) → two_digits m ≡ two_digits n → m ≡ n
two_digits_inj m n e =
    sym (read_digits-two_digits m) ∙ ap (read_digits 0) e ∙ read_digits-two_digits n

decimal_inj : (m n : ℕ) → decimal m ≡ decimal n → m ≡ n
decimal_inj m n e = sym (read_digits-decimal m) ∙ ap (read_digits 0) e ∙ read_digits-decimal n

two_digits-Lacks : (d n : ℕ) → is_digit d ≡ false → Lacks d (two_digits n)
two_digits-Lacks d n e = digits-Lacks d (two_digits n) e (two_digits-AreDigits n)

-- Times that are written alike are the same.
pub time_text_inj : (s t : Time) → time_text s ≡ time_text t → s ≡ t
unfolding time_text
time_text_inj s t e =
    let a =
      split_same b':' (two_digits s.hour) (two_digits t.hour) _ _
        (two_digits-Lacks b':' s.hour refl) (two_digits-Lacks b':' t.hour refl) e in
    let b =
      split_same b':' (two_digits s.min) (two_digits t.min) _ _ (two_digits-Lacks b':' s.min refl)
        (two_digits-Lacks b':' t.min refl) a.1 in
    let c =
      split_same b'.' (two_digits s.sec) (two_digits t.sec) _ _ (two_digits-Lacks b'.' s.sec refl)
        (two_digits-Lacks b'.' t.sec refl) b.1 in
    same_time (two_digits_inj s.hour t.hour a.0) (two_digits_inj s.min t.min b.0)
      (two_digits_inj s.sec t.sec c.0) (decimal_inj s.ms t.ms c.1)
  where
    same_time : s.hour ≡ t.hour → s.min ≡ t.min → s.sec ≡ t.sec → s.ms ≡ t.ms → s ≡ t
    same_time p q r m = λ i. record { hour = p i; min = q i; sec = r i; ms = m i }
