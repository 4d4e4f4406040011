-- ===== src/Toml/Lines.antt =====
-- One line of a rendered file, read by one round of the loop.
use quickstructs.Prelude.{
  ℕ, ◌≡◌, ◌≢◌, refl, sym, ap, ap₂, ◌∙◌, false, some, [], ◌∷◌, ◌++◌, append_assoc, ◌==◌,
}
use quickstructs.Text.{Text, equal, trim_left, trim_right, split_at, strip_quotes}
use quickstructs.Text.Trim.{
  IsTrimmed, trim_left-solid, trim_left-blank, trim_left-append, trim_right-solid, trim_right-blank,
}
use quickstructs.Text.Split.{
  Lacks, Lacks-append, append-cons-some, split_at-Lacks, split_at-append, before-append,
  strip_quotes-quoted,
}
use quickstructs.Toml.{
  Parsing, open_section, add_key, section_name, clean_value, drop_comment, trim, process_key,
  process_brackets, process_text, process_trimmed, process_line,
}

abbrev pub section_line : Text → Text
section_line name = b'[' ∷ (name ++ b']' ∷ [])

abbrev quoted : Text → Text
quoted v = b' ' ∷ b'"' ∷ (v ++ b'"' ∷ [])

abbrev pub key_line : Text → Text → Text
key_line k v = (k ++ b' ' ∷ []) ++ b'=' ∷ quoted v

-- What a section can be called, and what can be a key and a value in quotes.
pub record IsName (s : Text) : Type 0 where
  pub trimmed : IsTrimmed s
  pub some_name : s ≢ []
  pub no_bracket : Lacks b']' s
  pub no_newline : Lacks b'\n' s

pub record IsKey (s : Text) : Type 0 where
  pub trimmed : IsTrimmed s
  pub some_key : s ≢ []
  pub no_equals : Lacks b'=' s
  pub no_bracket : Lacks b'[' s
  pub no_comment : Lacks b'#' s
  pub no_newline : Lacks b'\n' s

pub record IsValue (s : Text) : Type 0 where
  pub no_bracket : Lacks b'[' s
  pub no_comment : Lacks b'#' s
  pub no_newline : Lacks b'\n' s

pub process_line-section_line :
    (name : Text) (p : Parsing)
    → IsName name
    → process_line (section_line name) p ≡ some (open_section name p)
unfolding process_line process_text
process_line-section_line name p n =
    let trimmed : trim_right (section_line name) ≡ section_line name =
      trim_right-solid (b'[' ∷ name) b']' refl in
    let split : split_at b'[' (section_line name) ≡ some ([], name ++ b']' ∷ []) =
      split_at-append b'[' [] (name ++ b']' ∷ []) (record {}) in
    let named : section_name (name ++ b']' ∷ []) ≡ name =
      ap (λ t. trim_right (trim_left t)) (before-append b']' name [] n.no_bracket)
      ∙ ap trim_right n.trimmed.left
      ∙ n.trimmed.right in
    ap (λ t. process_trimmed t p) (trim_left-solid b'[' (name ++ b']' ∷ []) refl)
    ∙ ap (λ t. process_text t p) trimmed
    ∙ ap (λ o. process_brackets o (section_line name) p) split
    ∙ ap (λ t. some (open_section t p)) named

quoted-Lacks :
    (d : ℕ) (v : Text) → Lacks d v → (b'"' == d) ≡ false → Lacks d (b'"' ∷ (v ++ b'"' ∷ []))
quoted-Lacks d v h q = (q, Lacks-append d v (b'"' ∷ []) h (q, record {}))

clean_value-quoted : (v : Text) → IsValue v → clean_value (quoted v) ≡ v
unfolding clean_value
clean_value-quoted v h =
    let trimmed : trim (quoted v) ≡ b'"' ∷ (v ++ b'"' ∷ []) =
      ap trim_right (
        trim_left-blank b' ' (b'"' ∷ (v ++ b'"' ∷ [])) refl
        ∙ trim_left-solid b'"' (v ++ b'"' ∷ []) refl)
      ∙ trim_right-solid (b'"' ∷ v) b'"' refl in
    let bare =
      split_at-Lacks b'#' (b'"' ∷ (v ++ b'"' ∷ [])) (quoted-Lacks b'#' v h.no_comment refl) in
    ap (λ t. strip_quotes (drop_comment t (split_at b'#' t))) trimmed
    ∙ ap (λ o. strip_quotes (drop_comment (b'"' ∷ (v ++ b'"' ∷ [])) o)) bare
    ∙ strip_quotes-quoted v

-- A key line is trimmed, has no bracket, and splits at its `=`.
key_line-trimmed : (k v : Text) → IsKey k → trim_right (trim_left (key_line k v)) ≡ key_line k v
key_line-trimmed k v h =
    let shift : key_line k v ≡ k ++ (b' ' ∷ b'=' ∷ quoted v) =
      append_assoc k (b' ' ∷ []) (b'=' ∷ quoted v) in
    let front =
      ap trim_left shift
      ∙ trim_left-append k (b' ' ∷ b'=' ∷ quoted v) h.trimmed h.some_key
      ∙ sym shift in
    let back : key_line k v ≡ ((k ++ b' ' ∷ []) ++ b'=' ∷ b' ' ∷ b'"' ∷ v) ++ b'"' ∷ [] =
      sym (append_assoc (k ++ b' ' ∷ []) (b'=' ∷ b' ' ∷ b'"' ∷ v) (b'"' ∷ [])) in
    ap trim_right (front ∙ back)
    ∙ trim_right-solid ((k ++ b' ' ∷ []) ++ b'=' ∷ b' ' ∷ b'"' ∷ v) b'"' refl
    ∙ sym back

key_space-Lacks : (d : ℕ) (k : Text) → Lacks d k → (b' ' == d) ≡ false → Lacks d (k ++ b' ' ∷ [])
key_space-Lacks d k h q = Lacks-append d k (b' ' ∷ []) h (q, record {})

pub key_line-Lacks :
    (d : ℕ) (k v : Text)
    → Lacks d k
    → Lacks d v
    → (b' ' == d) ≡ false
    → (b'=' == d) ≡ false
    → (b'"' == d) ≡ false
    → Lacks d (key_line k v)
key_line-Lacks d k v hk hv s e q =
    Lacks-append d (k ++ b' ' ∷ []) (b'=' ∷ quoted v) (key_space-Lacks d k hk s)
      (e, (s, quoted-Lacks d v hv q))

-- A text that begins with no `#` goes on to the test for brackets.
process_text-brackets :
    (s : Text) (p : Parsing)
    → Lacks b'#' s
    → process_text s p ≡ process_brackets (split_at b'[' s) s p
unfolding process_text split_at
process_text-brackets [] p h = refl
process_text-brackets (c ∷ cs) p h = rw h.0 refl

process_trimmed_text :
    (s : Text) (p : Parsing) → s ≢ [] → process_trimmed s p ≡ process_text (trim_right s) p
process_trimmed_text [] p n = absurd (n refl)
process_trimmed_text (c ∷ cs) p n = refl

pub process_line-key_line :
    (k v : Text) (p : Parsing)
    → IsKey k
    → IsValue v
    → equal p.current_section [] ≡ false
    → process_line (key_line k v) p ≡ some (add_key k v p)
unfolding process_line
process_line-key_line k v p hk hv open_now =
    let shift : key_line k v ≡ k ++ (b' ' ∷ b'=' ∷ quoted v) =
      append_assoc k (b' ' ∷ []) (b'=' ∷ quoted v) in
    let front : trim_left (key_line k v) ≡ key_line k v =
      ap trim_left shift
      ∙ trim_left-append k (b' ' ∷ b'=' ∷ quoted v) hk.trimmed hk.some_key
      ∙ sym shift in
    let trimmed : trim_right (key_line k v) ≡ key_line k v =
      sym (ap trim_right front) ∙ key_line-trimmed k v hk in
    let key : trim (k ++ b' ' ∷ []) ≡ k =
      ap trim_right (trim_left-append k (b' ' ∷ []) hk.trimmed hk.some_key)
      ∙ trim_right-blank k b' ' refl
      ∙ hk.trimmed.right in
    ap (λ t. process_trimmed t p) front
    ∙ process_trimmed_text (key_line k v) p (append-cons-some (k ++ b' ' ∷ []) (quoted v) b'=')
    ∙ ap (λ t. process_text t p) trimmed
    ∙ process_text-brackets (key_line k v) p
        (key_line-Lacks b'#' k v hk.no_comment hv.no_comment refl refl refl)
    ∙ ap (λ o. process_brackets o (key_line k v) p)
        (split_at-Lacks b'[' (key_line k v)
          (key_line-Lacks b'[' k v hk.no_bracket hv.no_bracket refl refl refl))
    ∙ ap (λ o. process_key o p)
        (split_at-append b'=' (k ++ b' ' ∷ []) (quoted v)
          (key_space-Lacks b'=' k hk.no_equals refl))
    ∙ rw open_now (ap₂ (λ x y. some (add_key x y p)) key (clean_value-quoted v hv))
