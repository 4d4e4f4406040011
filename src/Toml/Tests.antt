-- ===== src/Toml/Tests.antt =====
-- The parser on files.
use quickstructs.Prelude.{ℕ, ◌≡◌, ◌≢◌, ◌⊎◌, refl, true, none, some, List, [], ◌∷◌, pos, arith}
use quickstructs.Text.{
  Text, codes, equal, trim_left, trim_right, split_at, strip_quotes, get_lines, stoi, read_sign,
  skip_spaces, read_digits,
}
use quickstructs.Text.Trim.{IsTrimmed}
use quickstructs.Toml.{
  value_or, TomlParser, value, unexpected, parse_error, file_not_found, empty_parser, find, emplace,
  emplace_at, clean_value, process_text, process_line, process_lines, extract_keys, load, get_value,
  get_string, get_int,
}
use quickstructs.Toml.Lookup.{first_value}
use quickstructs.Toml.RoundTrip.{Section, entries, render, AreSections, load-render}
use quickstructs.Toml.Errors.{FailsAt, extract_keys-FailsAt}
use quickstructs.Toml.Stored.{IsSection, IsEntry, load-IsEntry}
use quickstructs.Toml.Getters.{get_string-get_value}

-- The parser with one key, `port` in `net`, which is 80.
abbrev one_key : TomlParser
one_key = record {
  sections = codes "net" ∷ [];
  keys = (codes "net", (codes "port", codes "80") ∷ []) ∷ [];
}

abbrev file : Text
file = codes "# ports\n[ net ]\nport = '80' # first\n\nport = 81\n"

file-run : load (some file) empty_parser ≡ (value true, one_key)
unfolding load extract_keys get_lines process_lines process_line process_text clean_value trim_left
    trim_right split_at strip_quotes emplace_at emplace equal
file-run = refl

-- A bracket in a value makes the line a section, and a `#` in quotes a comment.
bracket-run : load (some (codes "[a]\nv = [1]\nw = \"x#y\"")) empty_parser ≡ (
  value true,
  record {
    sections = codes "a" ∷ codes "1" ∷ [];
    keys = (codes "1", (codes "w", codes "\"x") ∷ []) ∷ [];
  },
)
unfolding load extract_keys get_lines process_lines process_line process_text clean_value trim_left
    trim_right split_at strip_quotes emplace_at emplace equal
bracket-run = refl

missing-run : load none empty_parser ≡ (unexpected file_not_found, empty_parser)
unfolding load
missing-run = refl

net-IsTrimmed : (IsTrimmed (codes "net")) × (IsTrimmed (codes "port"))
unfolding trim_left trim_right
net-IsTrimmed = (record { left = refl; right = refl }, record { left = refl; right = refl })

abbrev document : List Section
document = record { name = codes "net"; table = (codes "port", codes " 8'0 ") ∷ [] } ∷ []

not_nil : (c : ℕ) (s : Text) → c ∷ s ≢ []
not_nil c s e = ground (arith, e)

document-AreSections : AreSections document
document-AreSections = (
  record {
    trimmed = net-IsTrimmed.0;
    some_name = not_nil b'n' (codes "et");
    no_bracket = (refl, (refl, (refl, record {})));
    no_newline = (refl, (refl, (refl, record {})));
  },
  (
    record {
      trimmed = net-IsTrimmed.1;
      some_key = not_nil b'p' (codes "ort");
      no_equals = (refl, (refl, (refl, (refl, record {}))));
      no_bracket = (refl, (refl, (refl, (refl, record {}))));
      no_comment = (refl, (refl, (refl, (refl, record {}))));
      no_newline = (refl, (refl, (refl, (refl, record {}))));
    },
    record {
      no_bracket = (refl, (refl, (refl, (refl, (refl, record {})))));
      no_comment = (refl, (refl, (refl, (refl, (refl, record {})))));
      no_newline = (refl, (refl, (refl, (refl, (refl, record {})))));
    },
    record {},
  ),
  record {},
)

load-render_example :
    ((load (some (render document)) empty_parser).0 ≡ value true)
    × ((load (some (render document)) empty_parser).1.sections ≡ codes "net" ∷ [])
    × ((s k : Text)
        → get_value (load (some (render document)) empty_parser).1 s k
          ≡ first_value s k (entries document))
load-render_example = load-render document document-AreSections

abbrev bad_file : Text
bad_file = codes "[a]\nb"

extract_keys-FailsAt_example :
    (((extract_keys bad_file empty_parser).0 ≡ value true)
      ⊎ FailsAt (get_lines bad_file) (record { parser = empty_parser; current_section = [] }))
    × ((f : FailsAt (get_lines bad_file) (record { parser = empty_parser; current_section = [] }))
        → extract_keys bad_file empty_parser ≡ (unexpected parse_error, f.last.parser))
extract_keys-FailsAt_example = extract_keys-FailsAt bad_file empty_parser

file_value :
    get_value (load (some file) empty_parser).1 (codes "net") (codes "port") ≡ some (codes "80")
unfolding load extract_keys get_lines process_lines process_line process_text clean_value trim_left
    trim_right split_at strip_quotes emplace_at emplace equal get_value find
file_value = refl

load-IsEntry_example :
    IsSection (codes "net") × (codes "net" ≢ []) × IsEntry (codes "port") (codes "80")
load-IsEntry_example = load-IsEntry (some file) (codes "net") (codes "port") (codes "80") file_value

get_string-get_value_example :
    (get_string one_key (codes "net.port")
      ≡ strip_quotes (value_or [] (get_value one_key (codes "net") (codes "port"))))
    × (get_string one_key (codes "port") ≡ [])
get_string-get_value_example =
    get_string-get_value one_key (codes "net") (codes "port") (codes "port")
      (refl, (refl, (refl, record {}))) (refl, (refl, (refl, (refl, record {}))))

port-run : get_int one_key (codes "net.port") ≡ pos 80
unfolding get_int get_string get_value find equal split_at strip_quotes stoi read_sign skip_spaces
    read_digits
port-run = refl
