-- ===== src/Toml.antt =====
-- include/quick/utils/TomlParser.hh. A file is its bytes, or `none` if it cannot be opened. An
-- `unordered_map` is an association list with each key once; only `find` and `emplace` are used, so
-- its order shows nowhere. The lines for the log are left out.
pub mod Lookup
pub mod Lines
pub mod Errors
pub mod Stored
pub mod RoundTrip
pub mod Getters
mod Tests
use quickstructs.Prelude.{
  ℕ, Bool, true, false, ◌&&◌, ◌||◌, Option, none, some, List, [], ◌∷◌, ◌++◌, ◌==◌, if◌then◌else◌, ℤ,
  pos,
}
use quickstructs.Text.{
  Text, equal, trim_left, trim_right, split_at, before, left_or, strip_quotes, get_lines, stoi,
}

-- `TomlParserError`, and `std::expected<bool, TomlParserError>`.
pub data TomlParserError : Type 0 where
  file_not_found : TomlParserError
  parse_error : TomlParserError
  key_not_found : TomlParserError
  type_mismatch : TomlParserError
  invalid_toml : TomlParserError

pub data Expected : Type 0 where
  value : Bool → Expected
  unexpected : TomlParserError → Expected

abbrev pub Table : Type 0
Table = List (Text × Text)

-- `TomlParser`: `m_sections` and `m_keys`.
pub record TomlParser : Type 0 where
  pub sections : List Text
  pub keys : List (Text × Table)

abbrev pub empty_parser : TomlParser
empty_parser = record { sections = []; keys = [] }

-- `find` and `emplace` of the inner map, and `m_keys[section].emplace(key, val)`.
unfoldable pub find : {A : Type 0} → Text → List (Text × A) → Option A
find k [] = none
find k ((j, v) ∷ m) = if equal j k then some v else find k m

unfoldable pub emplace : Text → Text → Table → Table
emplace k v [] = (k, v) ∷ []
emplace k v ((j, w) ∷ m) = if equal j k then (j, w) ∷ m else (j, w) ∷ emplace k v m

unfoldable pub emplace_at : Text → Text → Text → List (Text × Table) → List (Text × Table)
emplace_at s k v [] = (s, emplace k v []) ∷ []
emplace_at s k v ((t, m) ∷ ms) =
    if equal t s then (t, emplace k v m) ∷ ms else (t, m) ∷ emplace_at s k v ms

-- `get_value`
abbrev pub find_in : Text → Option Table → Option Text
find_in k none = none
find_in k (some m) = find k m

unfoldable pub get_value : TomlParser → Text → Text → Option Text
get_value p section key = find_in key (find section p.keys)

-- The loop of `extract_keys`: the parser, and `current_section`.
pub record Parsing : Type 0 where
  pub parser : TomlParser
  pub current_section : Text

-- The name in a line with a `[`, from what stands behind the bracket.
abbrev pub section_name : Text → Text
section_name s = trim_right (trim_left (before b']' s))

abbrev pub open_section : Text → Parsing → Parsing
open_section name p = record {
  parser = record { sections = p.parser.sections ++ name ∷ []; keys = p.parser.keys };
  current_section = name;
}

-- The value, without a comment behind it and without its quotes.
abbrev pub trim : Text → Text
trim s = trim_right (trim_left s)

abbrev pub drop_comment : Text → Option (Text × Text) → Text
drop_comment val none = val
drop_comment val (some (l, r)) = trim_left (trim_right l)

unfoldable pub clean_value : Text → Text
clean_value s = let val = trim s in strip_quotes (drop_comment val (split_at b'#' val))

abbrev pub add_key : Text → Text → Parsing → Parsing
add_key key val p = record {
  parser = record {
    sections = p.parser.sections;
    keys = emplace_at p.current_section key val p.parser.keys;
  };
  current_section = p.current_section;
}

-- A line with a `=`, or without one; `none` is the `return` of `PARSE_ERROR`.
abbrev pub process_key : Option (Text × Text) → Parsing → Option Parsing
process_key none p = none
process_key (some (l, r)) p =
    if equal p.current_section [] then none else some (add_key (trim l) (clean_value r) p)

abbrev pub process_brackets : Option (Text × Text) → Text → Parsing → Option Parsing
process_brackets none line p = process_key (split_at b'=' line) p
process_brackets (some (l, r)) line p = some (open_section (section_name r) p)

-- A line without blanks around it, which is not empty.
unfoldable pub process_text : Text → Parsing → Option Parsing
process_text [] p = process_brackets none [] p
process_text (c ∷ cs) p =
    if c == b'#' then some p else process_brackets (split_at b'[' (c ∷ cs)) (c ∷ cs) p

-- One round of the loop.
abbrev pub process_trimmed : Text → Parsing → Option Parsing
process_trimmed [] p = some p
process_trimmed (c ∷ cs) p = process_text (trim_right (c ∷ cs)) p

unfoldable pub process_line : Text → Parsing → Option Parsing
process_line line p = process_trimmed (trim_left line) p

-- `extract_keys`, with the parser that it leaves.
unfoldable pub process_lines : List Text → Parsing → Expected × TomlParser
process_lines [] p = (value true, p.parser)
process_lines (line ∷ lines) p = elim (process_line line p) [
  | some p' ↦ process_lines lines p'
  | none ↦ (unexpected parse_error, p.parser)
]

unfoldable pub extract_keys : Text → TomlParser → Expected × TomlParser
extract_keys file t = process_lines (get_lines file) (record { parser = t; current_section = [] })

-- `load`; an error of `extract_keys` is reported as `PARSE_ERROR`.
abbrev load_result : Expected × TomlParser → Expected × TomlParser
load_result (value b, t) = (value true, t)
load_result (unexpected e, t) = (unexpected parse_error, t)

unfoldable pub load : Option Text → TomlParser → Expected × TomlParser
load none t = (unexpected file_not_found, t)
load (some file) t = load_result (extract_keys file t)

-- `is_valid`
pub is_valid : Text → Expected
is_valid file = unexpected invalid_toml

-- `get_string`, on the text `section.key`; an empty text if there is no dot or no such key.
abbrev pub value_or : Text → Option Text → Text
value_or d none = d
value_or d (some v) = v

abbrev pub stripped_value : Option Text → Text
stripped_value none = []
stripped_value (some v) = strip_quotes v

abbrev pub string_in : Text → Option Table → Text
string_in subkey none = []
string_in subkey (some m) = stripped_value (find subkey m)

abbrev pub string_at : TomlParser → Option (Text × Text) → Text
string_at t none = []
string_at t (some (section, subkey)) = string_in subkey (find section t.keys)

unfoldable pub get_string : TomlParser → Text → Text
get_string t key = string_at t (split_at b'.' key)

-- `get_int`; an exception of `stoi` gives 0.
abbrev pub int_or_zero : Option ℤ → ℤ
int_or_zero none = pos 0
int_or_zero (some n) = n

unfoldable pub get_int : TomlParser → Text → ℤ
get_int t key = if equal (get_string t key) [] then pos 0 else int_or_zero (stoi (get_string t key))

-- `get_double`, with `std::stod` and its number 0.0 as parameters.
abbrev number_or : {D : Type 0} → D → Option D → D
number_or zero none = zero
number_or zero (some d) = d

pub get_double : {D : Type 0} → (Text → Option D) → D → TomlParser → Text → D
get_double stod zero t key =
    if equal (get_string t key) [] then zero else number_or zero (stod (get_string t key))
