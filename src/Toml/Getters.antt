-- ===== src/Toml/Getters.antt =====
-- The getters by a dotted key.
use quickstructs.Prelude.{
  ℕ, ◌≡◌, refl, ap, ◌∙◌, false, none, some, [], ◌∷◌, ◌++◌, Option, Option-cases, inl, inr, lt→ltb,
  ◌^◌, ◌<◌, pos,
}
use quickstructs.Text.{Text, equal, strip_quotes, int_of}
use quickstructs.Text.Numbers.{decimal, stoi-decimal, strip_quotes-decimal, decimal-some}
use quickstructs.Text.Split.{Lacks, split_at-append, split_at-Lacks}
use quickstructs.Toml.{
  TomlParser, Table, get_value, get_string, string_at, string_in, find, find_in, value_or, get_int,
  int_or_zero,
}

string_in-find_in :
    (key : Text) (o : Option Table) → string_in key o ≡ strip_quotes (value_or [] (find_in key o))
unfolding strip_quotes
string_in-find_in key none = refl
string_in-find_in key (some m) = elim (Option-cases (find key m)) [
  | inl e ↦ rw e refl
  | inr (v, e) ↦ rw e refl
]

-- `get_string` of `section.key` finds what `get_value` finds, an empty text for nothing, and takes one
-- more pair of quotes from it; the section has no dot, and the key may. A text without a dot gives an
-- empty text.
pub get_string-get_value :
    (t : TomlParser) (section key word : Text)
    → Lacks b'.' section
    → Lacks b'.' word
    → (get_string t (section ++ b'.' ∷ key) ≡ strip_quotes (value_or [] (get_value t section key)))
      × (get_string t word ≡ [])
unfolding get_string get_value
get_string-get_value t section key word h w = (
  ap (string_at t) (split_at-append b'.' section key h)
      ∙ string_in-find_in key (find section t.keys),
  ap (string_at t) (split_at-Lacks b'.' word w),
)

get_int_of_string :
    (t : TomlParser) (key : Text) (n : ℕ)
    → get_string t key ≡ decimal n
    → n < 2 ^ 31
    → get_int t key ≡ pos n
unfolding get_int
get_int_of_string t key n e l =
    let fits : int_of false n ≡ some (pos n) = rw (lt→ltb n (2 ^ 31) l) refl in
    rw (e, decimal-some n) (ap int_or_zero (stoi-decimal n ∙ fits))

-- `get_int` of `section.key` gives an `int` that the file has in decimal digits, and 0 if there is no
-- such key.
pub get_int-decimal :
    (t : TomlParser) (section key : Text)
    → Lacks b'.' section
    → (get_value t section key ≡ none → get_int t (section ++ b'.' ∷ key) ≡ pos 0)
      × ((n : ℕ)
          → n < 2 ^ 31
          → get_value t section key ≡ some (decimal n)
          → get_int t (section ++ b'.' ∷ key) ≡ pos n)
unfolding get_int equal strip_quotes
get_int-decimal t section key h =
    let g = (get_string-get_value t section key [] h tt).0 in
    (
      λ e. rw (g ∙ ap (λ o. strip_quotes (value_or [] o)) e) refl,
      λ n l e.
          get_int_of_string t (section ++ b'.' ∷ key) n
            (g ∙ ap (λ o. strip_quotes (value_or [] o)) e ∙ strip_quotes-decimal n) l,
    )
