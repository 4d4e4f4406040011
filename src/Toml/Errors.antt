-- ===== src/Toml/Errors.antt =====
-- Which files `extract_keys` refuses, and at which line.
use quickstructs.Prelude.{
  ℕ, ◌≡◌, ◌≢◌, ◌⊎◌, ◌↔◌, refl, ap, ◌∙◌, true, false, Option, none, some, List, [], ◌∷◌, ◌++◌, ◌==◌,
  arith, Bool-cases, Option-cases, inl, inr,
}
use quickstructs.Text.{Text, equal, trim_left, trim_right, split_at, get_lines}
use quickstructs.Text.Trim.{head_not_blank, trim_left_idem, trim_right-some}
use quickstructs.Text.Split.{Lacks, Splits, split_at-Splits, split_at-Lacks, equal_iff}
use quickstructs.Toml.{
  TomlParser, value, unexpected, parse_error, Parsing, trim, process_key, process_brackets,
  process_text, process_trimmed, process_line, process_lines, extract_keys,
}

abbrev FirstIsNot : ℕ → Text → Type 0
FirstIsNot d [] = Unit
FirstIsNot d (c ∷ cs) = (c == d) ≡ false

-- A line, trimmed, that is no comment, no section, and no key in the current section.
pub record Refused (current s : Text) : Type 0 where
  pub some_text : s ≢ []
  pub no_comment : FirstIsNot b'#' s
  pub no_bracket : Lacks b'[' s
  pub no_key : Lacks b'=' s ⊎ (current ≡ [])

some-none : {A : Type 0} (a : A) → some a ≡ none → ⊥
some-none a e = ground (arith, e)

Splits-none : (d : ℕ) (s : Text) (o : Option (Text × Text)) → Splits d s o → o ≡ none → Lacks d s
Splits-none d s none h e = h
Splits-none d s (some (l, r)) h e = absurd (some-none (l, r) e)

process_key-none :
    (s : Text) (o : Option (Text × Text)) (p : Parsing)
    → Splits b'=' s o
    → process_key o p ≡ none
    → Lacks b'=' s ⊎ (p.current_section ≡ [])
process_key-none s none p h e = inl h
process_key-none s (some (l, r)) p h e = elim (Bool-cases (equal p.current_section [])) [
  | inl q ↦ inr ((equal_iff p.current_section []).0 q)
  | inr q ↦ absurd (some-none _ (rw q at e))
]

process_brackets-none :
    (s : Text) (o : Option (Text × Text)) (p : Parsing)
    → Splits b'[' s o
    → process_brackets o s p ≡ none
    → Lacks b'[' s × (Lacks b'=' s ⊎ (p.current_section ≡ []))
process_brackets-none s none p h e =
    (h, process_key-none s (split_at b'=' s) p (split_at-Splits b'=' s) e)
process_brackets-none s (some (l, r)) p h e = absurd (some-none _ e)

process_text-none :
    (s : Text) (p : Parsing) → s ≢ [] → process_text s p ≡ none → Refused p.current_section s
unfolding process_text
process_text-none [] p n e = absurd (n refl)
process_text-none (c ∷ cs) p n e = elim (Bool-cases (c == b'#')) [
  | inl q ↦ absurd (some-none p (rw q at e))
  | inr q ↦
      let r =
        process_brackets-none (c ∷ cs) (split_at b'[' (c ∷ cs)) p (split_at-Splits b'[' (c ∷ cs))
          (rw q at e) in
      record { some_text = n; no_comment = q; no_bracket = r.0; no_key = r.1 }
]

process_key-refuses :
    (s : Text) (p : Parsing)
    → (Lacks b'=' s ⊎ (p.current_section ≡ []))
    → process_key (split_at b'=' s) p ≡ none
process_key-refuses s p (inl h) = ap (λ o. process_key o p) (split_at-Lacks b'=' s h)
process_key-refuses s p (inr e) = closed (split_at b'=' s)
  where
    now : equal p.current_section [] ≡ true
    now = (equal_iff p.current_section []).1 e

    closed : (o : Option (Text × Text)) → process_key o p ≡ none
    closed none = refl
    closed (some (l, r)) = rw now refl

process_text-Refused :
    (s : Text) (p : Parsing) → Refused p.current_section s → process_text s p ≡ none
unfolding process_text
process_text-Refused [] p h = absurd (h.some_text refl)
process_text-Refused (c ∷ cs) p h = rw h.no_comment (
    ap (λ o. process_brackets o (c ∷ cs) p) (split_at-Lacks b'[' (c ∷ cs) h.no_bracket)
    ∙ process_key-refuses (c ∷ cs) p h.no_key)

-- The line that was trimmed in front is empty, or stays not empty.
process_trimmed-none :
    (s : Text) (p : Parsing)
    → trim_left s ≡ s
    → process_trimmed s p ≡ none
    → Refused p.current_section (trim_right s)
process_trimmed-none [] p t e = absurd (some-none p e)
process_trimmed-none (c ∷ cs) p t e =
    process_text-none (trim_right (c ∷ cs)) p (trim_right-some c cs (head_not_blank c cs t)) e

process_trimmed-Refused :
    (s : Text) (p : Parsing) → Refused p.current_section (trim_right s) → process_trimmed s p ≡ none
unfolding trim_right
process_trimmed-Refused [] p h = absurd (h.some_text refl)
process_trimmed-Refused (c ∷ cs) p h = process_text-Refused (trim_right (c ∷ cs)) p h

pub process_line-Refused :
    (line : Text) (p : Parsing)
    → (process_line line p ≡ none) ↔ Refused p.current_section (trim line)
unfolding process_line
process_line-Refused line p = (
  process_trimmed-none (trim_left line) p (trim_left_idem line),
  process_trimmed-Refused (trim_left line) p,
)

-- The loop takes these lines, one after the other.
pub data Reads : Parsing → List Text → Parsing → Type 0 where
  stop : {p q : Parsing} → p ≡ q → Reads p [] q
  more :
      {p p' q : Parsing} {line : Text} {lines : List Text}
      → process_line line p ≡ some p'
      → Reads p' lines q
      → Reads p (line ∷ lines) q

-- The file splits at the first line that is refused; what was read before it stays.
pub record FailsAt (lines : List Text) (p : Parsing) : Type 0 where
  pub read : List Text
  pub line : Text
  pub unread : List Text
  pub last : Parsing
  pub splits : lines ≡ read ++ line ∷ unread
  pub reads : Reads p read last
  pub refused : Refused last.current_section (trim line)

FailsAt-here :
    (line : Text) (lines : List Text) (p : Parsing)
    → process_line line p ≡ none
    → FailsAt (line ∷ lines) p
FailsAt-here line lines p e = record {
  read = [];
  line = line;
  unread = lines;
  last = p;
  splits = refl;
  reads = stop refl;
  refused = (process_line-Refused line p).0 e;
}

FailsAt-later :
    (line : Text) (lines : List Text) (p p' : Parsing)
    → process_line line p ≡ some p'
    → FailsAt lines p'
    → FailsAt (line ∷ lines) p
FailsAt-later line lines p p' e f = record {
  read = line ∷ f.read;
  line = f.line;
  unread = f.unread;
  last = f.last;
  splits = ap (◌∷◌ line) f.splits;
  reads = more e f.reads;
  refused = f.refused;
}

process_lines-cases :
    (lines : List Text) (p : Parsing) → ((process_lines lines p).0 ≡ value true) ⊎ FailsAt lines p
unfolding process_lines
process_lines-cases [] p = inl refl
process_lines-cases (line ∷ lines) p = elim (Option-cases (process_line line p)) [
  | inl e ↦ inr (FailsAt-here line lines p e)
  | inr (p', e) ↦ elim (process_lines-cases lines p') [
    | inl v ↦ inl (rw (e, process_lines) v)
    | inr f ↦ inr (FailsAt-later line lines p p' e f)
  ]
]

process_lines-none :
    (line : Text) (unread : List Text) (p : Parsing)
    → process_line line p ≡ none
    → process_lines (line ∷ unread) p ≡ (unexpected parse_error, p.parser)
unfolding process_lines
process_lines-none line unread p e = rw (e, process_lines) refl

-- A line that is refused ends the loop behind the lines that were read.
Reads-process_lines :
    {p q : Parsing} {read : List Text} (line : Text) (unread : List Text)
    → Reads p read q
    → process_line line q ≡ none
    → process_lines (read ++ line ∷ unread) p ≡ (unexpected parse_error, q.parser)
unfolding process_lines
Reads-process_lines {p} {q} line unread (stop same) e =
    ap (process_lines (line ∷ unread)) same ∙ process_lines-none line unread q e
Reads-process_lines line unread (more e r) n =
    rw (e, process_lines) (Reads-process_lines line unread r n)

-- Either `extract_keys` returns true, or there is a line that is no comment, no section, and no key in
-- a section, and all lines before it are read. Where there is such a line, it returns `PARSE_ERROR`
-- with what the lines before it hold.
pub extract_keys-FailsAt :
    (file : Text) (t : TomlParser)
    → (((extract_keys file t).0 ≡ value true)
        ⊎ FailsAt (get_lines file) (record { parser = t; current_section = [] }))
      × ((f : FailsAt (get_lines file) (record { parser = t; current_section = [] }))
          → extract_keys file t ≡ (unexpected parse_error, f.last.parser))
unfolding extract_keys
extract_keys-FailsAt file t = (
  process_lines-cases (get_lines file) (record { parser = t; current_section = [] }),
  λ f.
      ap (λ ls. process_lines ls (record { parser = t; current_section = [] })) f.splits
      ∙ Reads-process_lines f.line f.unread f.reads
          ((process_line-Refused f.line f.last).1 f.refused),
)
