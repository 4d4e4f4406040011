-- ===== src/Toml/RoundTrip.antt =====
-- A file that is written from sections of keys and values, and read back.
use quickstructs.Prelude.{
  ◌≡◌, ◌≢◌, refl, sym, ap, ◌∙◌, true, false, some, List, [], ◌∷◌, ◌++◌, append_assoc, append-nil,
  map, All, All-append, Bool-cases, inl, inr,
}
use quickstructs.Text.{Text, equal, get_lines}
use quickstructs.Text.Split.{Lacks, Lacks-append, get_lines-line, get_lines-nil, equal_iff}
use quickstructs.Toml.{
  Table, TomlParser, empty_parser, Expected, value, Parsing, open_section, add_key, process_line,
  process_lines, extract_keys, load, load_result, get_value,
}
use quickstructs.Toml.Lookup.{Entry, first_value, emplace_all, emplace_entry, get_value-emplace_all}
use quickstructs.Toml.Lines.{
  section_line, key_line, IsName, IsKey, IsValue, process_line-section_line, process_line-key_line,
  key_line-Lacks,
}

-- A section with its keys and values, and the entries of a document.
pub record Section : Type 0 where
  pub name : Text
  pub table : Table

abbrev pub entries_in : Text → Table → List Entry
entries_in s [] = []
entries_in s ((k, v) ∷ kvs) = record { section = s; key = k; val = v } ∷ entries_in s kvs

abbrev pub entries : List Section → List Entry
entries [] = []
entries (s ∷ ss) = entries_in s.name s.table ++ entries ss

-- Its lines, and its text.
abbrev key_lines : Table → List Text
key_lines [] = []
key_lines ((k, v) ∷ kvs) = key_line k v ∷ key_lines kvs

abbrev pub document_lines : List Section → List Text
document_lines [] = []
document_lines (s ∷ ss) = section_line s.name ∷ (key_lines s.table ++ document_lines ss)

abbrev pub unlines : List Text → Text
unlines [] = []
unlines (l ∷ ls) = l ++ b'\n' ∷ unlines ls

abbrev pub render : List Section → Text
render ss = unlines (document_lines ss)

abbrev pub AreEntries : Table → Type 0
AreEntries [] = Unit
AreEntries ((k, v) ∷ kvs) = IsKey k × IsValue v × AreEntries kvs

abbrev pub AreSections : List Section → Type 0
AreSections [] = Unit
AreSections (s ∷ ss) = IsName s.name × AreEntries s.table × AreSections ss

-- No line of the text has a newline in it, so the lines are read back.
get_lines-unlines : (ls : List Text) → All (Lacks b'\n') ls → get_lines (unlines ls) ≡ ls
get_lines-unlines [] h = get_lines-nil
get_lines-unlines (l ∷ ls) (h, hs) =
    get_lines-line l (unlines ls) h ∙ ap (◌∷◌ l) (get_lines-unlines ls hs)

key_lines-Lacks : (kvs : Table) → AreEntries kvs → All (Lacks b'\n') (key_lines kvs)
key_lines-Lacks [] h = record {}
key_lines-Lacks ((k, v) ∷ kvs) (hk, hv, hs) =
    (key_line-Lacks b'\n' k v hk.no_newline hv.no_newline refl refl refl, key_lines-Lacks kvs hs)

document_lines-Lacks : (ss : List Section) → AreSections ss → All (Lacks b'\n') (document_lines ss)
document_lines-Lacks [] h = record {}
document_lines-Lacks (s ∷ ss) (n, es, hs) = (
  (refl, Lacks-append b'\n' s.name (b']' ∷ []) n.no_newline (refl, record {})),
  All-append (Lacks b'\n') (key_lines s.table) (document_lines ss) (key_lines-Lacks s.table es)
      (document_lines-Lacks ss hs),
)

not_empty : (s : Text) → s ≢ [] → equal s [] ≡ false
not_empty s n = elim (Bool-cases (equal s [])) [
  | inl e ↦ absurd (n ((equal_iff s []).0 e))
  | inr e ↦ e
]

-- The loop on the lines of a document: what it reads, and what is left to it.
abbrev add_entries : Table → Parsing → Parsing
add_entries [] p = p
add_entries ((k, v) ∷ kvs) p = add_entries kvs (add_key k v p)

process_lines_step :
    (line : Text) (lines : List Text) (p p' : Parsing)
    → process_line line p ≡ some p'
    → process_lines (line ∷ lines) p ≡ process_lines lines p'
unfolding process_lines
process_lines_step line lines p p' e = rw (e, process_lines) refl

process_lines-key_lines :
    (kvs : Table) (rest : List Text) (p : Parsing)
    → AreEntries kvs
    → p.current_section ≢ []
    → process_lines (key_lines kvs ++ rest) p ≡ process_lines rest (add_entries kvs p)
process_lines-key_lines [] rest p h n = refl
process_lines-key_lines ((k, v) ∷ kvs) rest p (hk, hv, hs) n =
    process_lines_step (key_line k v) (key_lines kvs ++ rest) p (add_key k v p)
      (process_line-key_line k v p hk hv (not_empty p.current_section n))
    ∙ process_lines-key_lines kvs rest (add_key k v p) hs n

abbrev read_section : Section → Parsing → Parsing
read_section s p = add_entries s.table (open_section s.name p)

abbrev read_sections : List Section → Parsing → Parsing
read_sections [] p = p
read_sections (s ∷ ss) p = read_sections ss (read_section s p)

process_lines-document :
    (ss : List Section) (p : Parsing)
    → AreSections ss
    → process_lines (document_lines ss) p ≡ (value true, (read_sections ss p).parser)
unfolding process_lines
process_lines-document [] p h = refl
process_lines-document (s ∷ ss) p (n, es, hs) =
    process_lines_step (section_line s.name) (key_lines s.table ++ document_lines ss) p
      (open_section s.name p) (process_line-section_line s.name p n)
    ∙ process_lines-key_lines s.table (document_lines ss) (open_section s.name p) es n.some_name
    ∙ process_lines-document ss (read_section s p) hs

-- What that state holds.
emplace_all-append :
    (xs ys : List Entry) (m : List (Text × Table))
    → emplace_all (xs ++ ys) m ≡ emplace_all ys (emplace_all xs m)
unfolding emplace_all
emplace_all-append [] ys m = refl
emplace_all-append (x ∷ xs) ys m = emplace_all-append xs ys (emplace_entry x m)

add_entries-keys :
    (kvs : Table) (p : Parsing)
    → ((add_entries kvs p).parser.keys
        ≡ emplace_all (entries_in p.current_section kvs) p.parser.keys)
      × ((add_entries kvs p).parser.sections ≡ p.parser.sections)
unfolding emplace_all
add_entries-keys [] p = (refl, refl)
add_entries-keys ((k, v) ∷ kvs) p = add_entries-keys kvs (add_key k v p)

read_sections-keys :
    (ss : List Section) (p : Parsing)
    → ((read_sections ss p).parser.keys ≡ emplace_all (entries ss) p.parser.keys)
      × ((read_sections ss p).parser.sections
          ≡ p.parser.sections ++ map (λ (s : Section). s.name) ss)
unfolding emplace_all
read_sections-keys [] p = (refl, sym (append-nil p.parser.sections))
read_sections-keys (s ∷ ss) p =
    let ih = read_sections-keys ss (read_section s p) in
    let one = add_entries-keys s.table (open_section s.name p) in
    (
      ih.0
          ∙ ap (emplace_all (entries ss)) one.0
          ∙ sym (emplace_all-append (entries_in s.name s.table) (entries ss) p.parser.keys),
      ih.1
          ∙ ap (λ xs. xs ++ map (λ (s : Section). s.name) ss) one.1
          ∙ append_assoc p.parser.sections (s.name ∷ []) (map (λ (s : Section). s.name) ss),
    )

load-document :
    (ss : List Section)
    → AreSections ss
    → load (some (render ss)) empty_parser ≡ (
      value true,
      (read_sections ss (record { parser = empty_parser; current_section = [] })).parser,
    )
unfolding load extract_keys
load-document ss h = ap load_result (
    ap (λ ls. process_lines ls (record { parser = empty_parser; current_section = [] }))
      (get_lines-unlines (document_lines ss) (document_lines-Lacks ss h))
    ∙ process_lines-document ss (record { parser = empty_parser; current_section = [] }) h)

-- A document has names and keys that are not empty and have no blanks around them, and nothing in it has
-- a line break; a name has no `]`, a key no `[`, `#` or `=`, and a value no `[` or `#`. Its file, with
-- the values in quotes, is loaded without an error; its sections are listed in order; and `get_value` gives for each section and key the first value that the document
-- has for them, and nothing if it has none.
pub load-render :
    (ss : List Section)
    → AreSections ss
    → ((load (some (render ss)) empty_parser).0 ≡ value true)
      × ((load (some (render ss)) empty_parser).1.sections ≡ map (λ (s : Section). s.name) ss)
      × ((s k : Text)
          → get_value (load (some (render ss)) empty_parser).1 s k ≡ first_value s k (entries ss))
load-render ss h =
    let e = load-document ss h in
    let r = read_sections-keys ss (record { parser = empty_parser; current_section = [] }) in
    (
      ap (λ (o : Expected × TomlParser). o.0) e,
      ap (λ (o : Expected × TomlParser). o.1.sections) e ∙ r.1,
      λ s k.
          get_value-emplace_all (entries ss) _ s k
            (ap (λ (o : Expected × TomlParser). o.1.keys) e ∙ r.0),
    )
