-- ===== src/Text/Split.antt =====
-- Texts split at a byte, lines, and quotes.
use quickstructs.Prelude.{
  ℕ, ◌≡◌, ◌≢◌, ◌↔◌, refl, ap, ◌∙◌, true, false, Option, none, some, [], ◌∷◌, ◌++◌, back?-concat,
  pop_back-concat, All, All-append, ◌==◌, ==_iff, arith, Bool-cases, inl, inr,
}
use quickstructs.Text.{
  Text, equal, split_at, before, left_or, cons_left, strip_quotes, strip_between, get_lines,
}

-- The byte does not occur.
abbrev pub Lacks : ℕ → Text → Type 0
Lacks d s = All (λ c. (c == d) ≡ false) s

pub Lacks-append : (d : ℕ) (xs ys : Text) → Lacks d xs → Lacks d ys → Lacks d (xs ++ ys)
Lacks-append d xs ys h k = All-append (λ c. (c == d) ≡ false) xs ys h k

pub append-cons-some : (xs ys : Text) (c : ℕ) → xs ++ c ∷ ys ≢ []
append-cons-some [] ys c e = ground (arith, e)
append-cons-some (x ∷ xs) ys c e = ground (arith, e)

pub equal_iff : (a b : Text) → (equal a b ≡ true) ↔ (a ≡ b)
unfolding equal
equal_iff (x ∷ a) (y ∷ b) = ground (arith, equal_iff a b)
equal_iff _ _ = ground arith

pub split_at-Lacks : (d : ℕ) (s : Text) → Lacks d s → split_at d s ≡ none
unfolding split_at
split_at-Lacks d [] h = refl
split_at-Lacks d (c ∷ cs) (h, hs) = rw (h, split_at-Lacks d cs hs) refl

pub split_at-append : (d : ℕ) (l r : Text) → Lacks d l → split_at d (l ++ d ∷ r) ≡ some (l, r)
unfolding split_at
split_at-append d [] r h = ground arith
split_at-append d (c ∷ cs) r (h, hs) = rw (h, split_at-append d cs r hs) refl

-- What a split gives.
abbrev pub Splits : ℕ → Text → Option (Text × Text) → Type 0
Splits d s none = Lacks d s
Splits d s (some (l, r)) = (s ≡ l ++ d ∷ r) × Lacks d l

Splits-cons :
    (d c : ℕ) (cs : Text) (o : Option (Text × Text))
    → (c == d) ≡ false
    → Splits d cs o
    → Splits d (c ∷ cs) (cons_left c o)
Splits-cons d c cs none e h = (e, h)
Splits-cons d c cs (some (l, r)) e h = (ap (◌∷◌ c) h.0, (e, h.1))

pub split_at-Splits : (d : ℕ) (s : Text) → Splits d s (split_at d s)
unfolding split_at
split_at-Splits d [] = record {}
split_at-Splits d (c ∷ cs) = elim (Bool-cases (c == d)) [
  | inl e ↦ rw e (ap (λ x. x ∷ cs) ((==_iff c d).0 e), record {})
  | inr e ↦ rw e (Splits-cons d c cs (split_at d cs) e (split_at-Splits d cs))
]

pub before-append : (d : ℕ) (l r : Text) → Lacks d l → before d (l ++ d ∷ r) ≡ l
before-append d l r h = ap (left_or (l ++ d ∷ r)) (split_at-append d l r h)

Splits-before : (d : ℕ) (s : Text) (o : Option (Text × Text)) → Splits d s o → Lacks d (left_or s o)
Splits-before d s none h = h
Splits-before d s (some (l, r)) h = h.1

pub before-Lacks : (d : ℕ) (s : Text) → Lacks d (before d s)
before-Lacks d s = Splits-before d s (split_at d s) (split_at-Splits d s)

-- A line that ends is read first.
pub get_lines-line :
    (l rest : Text) → Lacks b'\n' l → get_lines (l ++ b'\n' ∷ rest) ≡ l ∷ get_lines rest
unfolding get_lines
get_lines-line [] rest h = refl
get_lines-line (c ∷ cs) rest (h, hs) = rw (h, get_lines-line cs rest hs) refl

pub get_lines-nil : get_lines [] ≡ []
unfolding get_lines
get_lines-nil = refl

-- Quotes around a text are removed, whatever it holds.
pub strip_quotes-quoted : (v : Text) → strip_quotes (b'"' ∷ (v ++ b'"' ∷ [])) ≡ v
unfolding strip_quotes
strip_quotes-quoted v =
    ap (strip_between b'"' (v ++ b'"' ∷ [])) (back?-concat v b'"') ∙ pop_back-concat v b'"'
