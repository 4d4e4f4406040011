-- ===== src/Toml/Stored.antt =====
-- What the maps can hold, whatever the file.
use mathlib.Core.Option.{some-injective}
use quickstructs.Prelude.{
  ℕ, ◌≡◌, ◌≢◌, subst, Option, none, some, List, [], ◌∷◌, ◌==◌, arith, Bool-cases, Option-cases, inl,
  inr,
}
use quickstructs.Text.{Text, equal, trim_left, trim_right, split_at, before, get_lines}
use quickstructs.Text.Trim.{IsTrimmed, trim-IsTrimmed}
use quickstructs.Text.Split.{Lacks, Splits, split_at-Splits, before-Lacks, equal_iff}
use quickstructs.Text.Parts.{
  trim-Lacks, trim_left-Lacks, trim_right-Lacks, strip_quotes-Lacks, Splits-parts,
}
use quickstructs.Toml.{
  Table, TomlParser, empty_parser, Expected, Parsing, trim, drop_comment, clean_value, process_key,
  process_brackets, process_text, process_trimmed, process_line, process_lines, extract_keys, load,
  load_result, find, emplace, emplace_at, find_in, get_value,
}

pub record IsSection (s : Text) : Type 0 where
  pub trimmed : IsTrimmed s
  pub no_bracket : Lacks b']' s

pub record IsEntry (k v : Text) : Type 0 where
  pub trimmed : IsTrimmed k
  pub no_equals : Lacks b'=' k
  pub key_no_bracket : Lacks b'[' k
  pub val_no_bracket : Lacks b'[' v
  pub val_no_comment : Lacks b'#' v

abbrev TableOk : Table → Type 0
TableOk [] = Unit
TableOk ((k, v) ∷ m) = IsEntry k v × TableOk m

abbrev KeysOk : List (Text × Table) → Type 0
KeysOk [] = Unit
KeysOk ((s, m) ∷ ms) = IsSection s × (s ≢ []) × TableOk m × KeysOk ms

record ParsingOk (p : Parsing) : Type 0 where
  current : IsSection p.current_section
  stored : KeysOk p.parser.keys

drop_comment-Lacks :
    (d : ℕ) (val : Text) (o : Option (Text × Text))
    → Splits b'#' val o
    → Lacks d val
    → Lacks d (drop_comment val o)
drop_comment-Lacks d val none k h = h
drop_comment-Lacks d val (some (l, r)) k h =
    trim_left-Lacks d (trim_right l) (trim_right-Lacks d l (Splits-parts d b'#' val l r k h).0)

drop_comment-no_comment :
    (val : Text) (o : Option (Text × Text)) → Splits b'#' val o → Lacks b'#' (drop_comment val o)
drop_comment-no_comment val none k = k
drop_comment-no_comment val (some (l, r)) k =
    trim_left-Lacks b'#' (trim_right l) (trim_right-Lacks b'#' l k.1)

clean_value-Lacks : (d : ℕ) (s : Text) → Lacks d s → Lacks d (clean_value s)
unfolding clean_value
clean_value-Lacks d s h = strip_quotes-Lacks d _ (
    drop_comment-Lacks d (trim s) (split_at b'#' (trim s)) (split_at-Splits b'#' (trim s))
      (trim-Lacks d s h))

clean_value-no_comment : (s : Text) → Lacks b'#' (clean_value s)
unfolding clean_value
clean_value-no_comment s =
    strip_quotes-Lacks b'#' _
      (drop_comment-no_comment (trim s) (split_at b'#' (trim s)) (split_at-Splits b'#' (trim s)))

emplace-TableOk : (k v : Text) (m : Table) → IsEntry k v → TableOk m → TableOk (emplace k v m)
unfolding emplace
emplace-TableOk k v [] e h = (e, record {})
emplace-TableOk k v ((j, w) ∷ m) e h = elim (Bool-cases (equal j k)) [
  | inl q ↦ rw q h
  | inr q ↦ rw q (h.0, emplace-TableOk k v m e h.1)
]

emplace_at-KeysOk :
    (s k v : Text) (ms : List (Text × Table))
    → IsSection s
    → s ≢ []
    → IsEntry k v
    → KeysOk ms
    → KeysOk (emplace_at s k v ms)
unfolding emplace_at
emplace_at-KeysOk s k v [] hs n e h = (hs, n, emplace-TableOk k v [] e (record {}), record {})
emplace_at-KeysOk s k v ((t, m) ∷ ms) hs n e (ht, nt, hm, h) = elim (Bool-cases (equal t s)) [
  | inl q ↦ rw q (ht, nt, emplace-TableOk k v m e hm, h)
  | inr q ↦ rw q (ht, nt, hm, emplace_at-KeysOk s k v ms hs n e h)
]

-- The result of a round, if there is one.
abbrev StepOk : Option Parsing → Type 0
StepOk none = Unit
StepOk (some p) = ParsingOk p

process_key-StepOk :
    (s : Text) (o : Option (Text × Text)) (p : Parsing)
    → Splits b'=' s o
    → Lacks b'[' s
    → ParsingOk p
    → StepOk (process_key o p)
process_key-StepOk s none p k b h = record {}
process_key-StepOk s (some (l, r)) p k b h = elim (Bool-cases (equal p.current_section [])) [
  | inl q ↦ rw q (record {})
  | inr q ↦
      let parts = Splits-parts b'[' b'=' s l r k b in
      rw q (record {
        current = h.current;
        stored =
            emplace_at-KeysOk p.current_section (trim l) (clean_value r) p.parser.keys h.current
              (λ e. ground (arith, q, (equal_iff p.current_section []).1 e))
              (record {
                trimmed = trim-IsTrimmed l;
                no_equals = trim-Lacks b'=' l k.1;
                key_no_bracket = trim-Lacks b'[' l parts.0;
                val_no_bracket = clean_value-Lacks b'[' r parts.1;
                val_no_comment = clean_value-no_comment r;
              })
              h.stored;
      })
]

process_brackets-StepOk :
    (s : Text) (o : Option (Text × Text)) (p : Parsing)
    → Splits b'[' s o
    → ParsingOk p
    → StepOk (process_brackets o s p)
process_brackets-StepOk s none p k h =
    process_key-StepOk s (split_at b'=' s) p (split_at-Splits b'=' s) k h
process_brackets-StepOk s (some (l, r)) p k h = record {
  current = record {
    trimmed = trim-IsTrimmed (before b']' r);
    no_bracket = trim-Lacks b']' (before b']' r) (before-Lacks b']' r);
  };
  stored = h.stored;
}

process_text-StepOk : (s : Text) (p : Parsing) → ParsingOk p → StepOk (process_text s p)
unfolding process_text
process_text-StepOk [] p h = process_brackets-StepOk [] none p (record {}) h
process_text-StepOk (c ∷ cs) p h = elim (Bool-cases (c == b'#')) [
  | inl q ↦ rw q h
  | inr q ↦ rw q (
      process_brackets-StepOk (c ∷ cs) (split_at b'[' (c ∷ cs)) p (split_at-Splits b'[' (c ∷ cs)) h)
]

process_trimmed-StepOk : (s : Text) (p : Parsing) → ParsingOk p → StepOk (process_trimmed s p)
process_trimmed-StepOk [] p h = h
process_trimmed-StepOk (c ∷ cs) p h = process_text-StepOk (trim_right (c ∷ cs)) p h

process_line-StepOk : (line : Text) (p : Parsing) → ParsingOk p → StepOk (process_line line p)
unfolding process_line
process_line-StepOk line p h = process_trimmed-StepOk (trim_left line) p h

process_lines-KeysOk :
    (lines : List Text) (p : Parsing) → ParsingOk p → KeysOk (process_lines lines p).1.keys
unfolding process_lines
process_lines-KeysOk [] p h = h.stored
process_lines-KeysOk (line ∷ lines) p h = elim (Option-cases (process_line line p)) [
  | inl e ↦ rw (e, process_lines) h.stored
  | inr (p', e) ↦
      rw (e, process_lines)
        (process_lines-KeysOk lines p' (subst StepOk e (process_line-StepOk line p h)))
]

load_result-keys : (r : Expected × TomlParser) → KeysOk r.1.keys → KeysOk (load_result r).1.keys
load_result-keys (Expected.value b, t) h = h
load_result-keys (Expected.unexpected e, t) h = h

load-KeysOk : (file : Option Text) → KeysOk (load file empty_parser).1.keys
unfolding load extract_keys trim_left trim_right
load-KeysOk none = record {}
load-KeysOk (some file) =
    load_result-keys
      (process_lines (get_lines file) (record { parser = empty_parser; current_section = [] }))
      (process_lines-KeysOk (get_lines file)
        (record { parser = empty_parser; current_section = [] })
        (record {
          current = record { trimmed = trim-IsTrimmed []; no_bracket = record {} };
          stored = record {};
        }))

find-TableOk : (k v : Text) (m : Table) → TableOk m → find k m ≡ some v → IsEntry k v
unfolding find
find-TableOk k v [] h e = ground (arith, e)
find-TableOk k v ((j, w) ∷ m) h e = elim (Bool-cases (equal j k)) [
  | inl q ↦
      subst (λ x. IsEntry x v) ((equal_iff j k).0 q)
        (subst (IsEntry j) (some-injective w v (rw q at e)) h.0)
  | inr q ↦ find-TableOk k v m h.1 (rw q at e)
]

find_in-KeysOk :
    (s k v : Text) (ms : List (Text × Table))
    → KeysOk ms
    → find_in k (find s ms) ≡ some v
    → IsSection s × (s ≢ []) × IsEntry k v
unfolding find
find_in-KeysOk s k v [] h e = ground (arith, e)
find_in-KeysOk s k v ((t, m) ∷ ms) (ht, nt, hm, h) e = elim (Bool-cases (equal t s)) [
  | inl q ↦
      subst (λ x. IsSection x × (x ≢ []) × IsEntry k v) ((equal_iff t s).0 q)
        (ht, nt, find-TableOk k v m hm (rw q at e))
  | inr q ↦ find_in-KeysOk s k v ms h (rw q at e)
]

-- Whatever the file, a value that `get_value` gives after `load` is in a section whose name is not
-- empty, has no blank at its ends and no `]`; its key has no blank at its ends, no `=` and no `[`; and
-- the value has no `#` and no `[`, in quotes or not.
pub load-IsEntry :
    (file : Option Text) (s k v : Text)
    → get_value (load file empty_parser).1 s k ≡ some v
    → IsSection s × (s ≢ []) × IsEntry k v
unfolding get_value
load-IsEntry file s k v e =
    find_in-KeysOk s k v (load file empty_parser).1.keys (load-KeysOk file) e
