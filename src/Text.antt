-- ===== src/Text.antt =====
-- The functions of `std::string` and `std::getline` that include/quick/utils/TomlParser.hh and
-- include/quick/io/Config.hh use. A text is the list of its bytes.
pub mod Trim
pub mod Split
pub mod Parts
pub mod Numbers
mod Tests
use Prim.Native.Char.{code}
use Prim.Native.String.{String}
use quickstructs.Prelude.{
  ℕ, ◌+◌, ◌-◌, ◌*◌, ◌^◌, Bool, true, false, ◌&&◌, ◌||◌, Option, none, some, List, [], ◌∷◌, ◌++◌,
  back?, pop_back, ltb, leb, ◌==◌, if◌then◌else◌, ℤ, pos, negsuc,
}

abbrev pub Text : Type 0
Text = List ℕ

-- The bytes of a literal.
abbrev pub codes : String → Text
codes String.[] = []
codes (String.◌∷◌ c s) = code c ∷ codes s

-- `operator==`
unfoldable pub equal : Text → Text → Bool
equal [] [] = true
equal (x ∷ xs) (y ∷ ys) = x == y && equal xs ys
equal _ _ = false

-- Whether `" \t\r\n"` has the byte.
abbrev pub is_blank : ℕ → Bool
is_blank c = c == b' ' || c == b'\t' || c == b'\r' || c == b'\n'

-- `s.erase(0, s.find_first_not_of(" \t\r\n"))`; `npos` erases everything.
unfoldable pub trim_left : Text → Text
trim_left [] = []
trim_left (c ∷ cs) = if is_blank c then trim_left cs else c ∷ cs

-- `s.erase(s.find_last_not_of(" \t\r\n") + 1)`; `npos + 1` is 0.
abbrev pub cons_unless_blank : ℕ → Text → Text
cons_unless_blank c [] = if is_blank c then [] else c ∷ []
cons_unless_blank c (d ∷ ds) = c ∷ d ∷ ds

unfoldable pub trim_right : Text → Text
trim_right [] = []
trim_right (c ∷ cs) = cons_unless_blank c (trim_right cs)

-- `s.find(c)` with `s.substr(0, pos)` and `s.substr(pos + 1)`; `none` is `npos`.
abbrev pub cons_left : ℕ → Option (Text × Text) → Option (Text × Text)
cons_left c none = none
cons_left c (some (l, r)) = some (c ∷ l, r)

unfoldable pub split_at : ℕ → Text → Option (Text × Text)
split_at d [] = none
split_at d (c ∷ cs) = if c == d then some ([], cs) else cons_left c (split_at d cs)

-- `s.substr(0, s.find(c))`
abbrev pub left_or : Text → Option (Text × Text) → Text
left_or s none = s
left_or s (some (l, r)) = l

abbrev pub before : ℕ → Text → Text
before d s = left_or s (split_at d s)

-- `s.size() >= 2`, with the first and the last byte, and `s.substr(1, s.size() - 2)`.
abbrev pub are_quotes : ℕ → ℕ → Bool
are_quotes q e = (q == b'"' && e == b'"') || (q == b'\'' && e == b'\'')

abbrev pub strip_between : ℕ → Text → Option ℕ → Text
strip_between q r none = q ∷ r
strip_between q r (some e) = if are_quotes q e then pop_back r else q ∷ r

unfoldable pub strip_quotes : Text → Text
strip_quotes [] = []
strip_quotes (q ∷ r) = strip_between q r (back? r)

-- The lines that `std::getline` reads one after the other.
abbrev pub cons_line : ℕ → List Text → List Text
cons_line c [] = (c ∷ []) ∷ []
cons_line c (l ∷ ls) = (c ∷ l) ∷ ls

unfoldable pub get_lines : Text → List Text
get_lines [] = []
get_lines (c ∷ cs) = if c == b'\n' then [] ∷ get_lines cs else cons_line c (get_lines cs)

-- `std::stoi`: blanks, a sign, digits, and anything behind them. `none` is an exception: there is no
-- digit, or the number is not an `int`.
abbrev pub is_space : ℕ → Bool
is_space c = c == b' ' || (leb 9 c && leb c 13)

abbrev pub is_digit : ℕ → Bool
is_digit c = leb b'0' c && leb c b'9'

unfoldable pub skip_spaces : Text → Text
skip_spaces [] = []
skip_spaces (c ∷ cs) = if is_space c then skip_spaces cs else c ∷ cs

unfoldable pub read_digits : ℕ → Text → ℕ
read_digits n [] = n
read_digits n (c ∷ cs) =
    let rest = read_digits (n * 10 + (c - b'0')) cs in if is_digit c then rest else n

abbrev pub starts_with_digit : Text → Bool
starts_with_digit [] = false
starts_with_digit (c ∷ cs) = is_digit c

abbrev pub int_of : Bool → ℕ → Option ℤ
int_of false n = if ltb n (2 ^ 31) then some (pos n) else none
int_of true n =
    if n == 0 then some (pos 0) else if leb n (2 ^ 31) then some (negsuc (n - 1)) else none

abbrev signed_number : Bool → Text → Option ℤ
signed_number minus s = if starts_with_digit s then int_of minus (read_digits 0 s) else none

unfoldable pub read_sign : Text → Option ℤ
read_sign [] = none
read_sign (c ∷ cs) =
    if c == b'-'
    then signed_number true cs
    else if c == b'+'
    then signed_number false cs
    else signed_number false (c ∷ cs)

unfoldable pub stoi : Text → Option ℤ
unfolding read_sign skip_spaces
stoi s = read_sign (skip_spaces s)
