-- ===== src/Text/Tests.antt =====
-- Texts at concrete inputs.
use quickstructs.Prelude.{◌≡◌, refl, none, some, [], ◌∷◌, pos, negsuc}
use quickstructs.Text.{
  codes, trim_left, trim_right, strip_quotes, get_lines, read_sign, skip_spaces, read_digits, stoi,
}

trims : trim_right (trim_left (codes " \t a b \r")) ≡ codes "a b"
unfolding trim_left trim_right
trims = refl

lines : get_lines (codes "a\n\nb") ≡ codes "a" ∷ [] ∷ codes "b" ∷ []
unfolding get_lines
lines = refl

quotes :
    (strip_quotes (codes "'a'") ≡ codes "a")
    × (strip_quotes (codes "'a\"") ≡ codes "'a\"")
    × (strip_quotes (codes "\"") ≡ codes "\"")
unfolding strip_quotes
quotes = (refl, refl, refl)

numbers :
    (stoi (codes " -12x") ≡ some (negsuc 11))
    × (stoi (codes "+7") ≡ some (pos 7))
    × (stoi (codes "x7") ≡ none)
    × (stoi (codes "2147483648") ≡ none)
unfolding stoi read_sign skip_spaces read_digits
numbers = (refl, refl, refl, refl)
