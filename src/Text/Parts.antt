-- ===== src/Text/Parts.antt =====
-- A byte that a text lacks is not in its parts.
use quickstructs.Prelude.{
  ℕ, ◌≡◌, subst, false, Option, none, some, [], ◌∷◌, ◌++◌, back?, pop_back, All-append_left,
  All-append_right, ◌==◌, Bool-cases, inl, inr,
}
use quickstructs.Text.{
  Text, is_blank, trim_left, trim_right, cons_unless_blank, strip_quotes, strip_between, are_quotes,
}
use quickstructs.Text.Split.{Lacks, Splits}

module _ (d : ℕ) where
  pub trim_left-Lacks : (s : Text) → Lacks d s → Lacks d (trim_left s)
  unfolding trim_left
  trim_left-Lacks [] h = h
  trim_left-Lacks (c ∷ cs) h = elim (Bool-cases (is_blank c)) [
    | inl b ↦ rw b (trim_left-Lacks cs h.1)
    | inr b ↦ rw b h
  ]

  cons_unless_blank-Lacks :
      (c : ℕ) (r : Text) → (c == d) ≡ false → Lacks d r → Lacks d (cons_unless_blank c r)
  cons_unless_blank-Lacks c [] e h = elim (Bool-cases (is_blank c)) [
    | inl b ↦ rw b h
    | inr b ↦ rw b (e, h)
  ]
  cons_unless_blank-Lacks c (x ∷ xs) e h = (e, h)

  pub trim_right-Lacks : (s : Text) → Lacks d s → Lacks d (trim_right s)
  unfolding trim_right
  trim_right-Lacks [] h = h
  trim_right-Lacks (c ∷ cs) (e, h) =
      cons_unless_blank-Lacks c (trim_right cs) e (trim_right-Lacks cs h)

  pub trim-Lacks : (s : Text) → Lacks d s → Lacks d (trim_right (trim_left s))
  trim-Lacks s h = trim_right-Lacks (trim_left s) (trim_left-Lacks s h)

  pop_back-Lacks : (s : Text) → Lacks d s → Lacks d (pop_back s)
  pop_back-Lacks [] h = h
  pop_back-Lacks (c ∷ []) h = record {}
  pop_back-Lacks (c ∷ x ∷ xs) (e, h) = (e, pop_back-Lacks (x ∷ xs) h)

  strip_between-Lacks :
      (q : ℕ) (r : Text) (o : Option ℕ) → Lacks d (q ∷ r) → Lacks d (strip_between q r o)
  strip_between-Lacks q r none h = h
  strip_between-Lacks q r (some e) h = elim (Bool-cases (are_quotes q e)) [
    | inl b ↦ rw b (pop_back-Lacks r h.1)
    | inr b ↦ rw b h
  ]

  pub strip_quotes-Lacks : (s : Text) → Lacks d s → Lacks d (strip_quotes s)
  unfolding strip_quotes
  strip_quotes-Lacks [] h = h
  strip_quotes-Lacks (q ∷ r) h = strip_between-Lacks q r (back? r) h

  -- Both parts of a split.
  pub Splits-parts :
      (e : ℕ) (s l r : Text) → Splits e s (some (l, r)) → Lacks d s → Lacks d l × Lacks d r
  Splits-parts e s l r k h =
      let whole : Lacks d (l ++ e ∷ r) = subst (Lacks d) k.0 h in
      (
        All-append_left (λ c. (c == d) ≡ false) l (e ∷ r) whole,
        (All-append_right (λ c. (c == d) ≡ false) l (e ∷ r) whole).1,
      )
