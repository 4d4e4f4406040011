-- ===== src/Toml/Lookup.antt =====
-- The maps against the list of what was put into them: the first value of a key stays.
use quickstructs.Prelude.{
  ◌≡◌, refl, sym, ap, ◌∙◌, Bool, true, false, ◌&&◌, Option, none, some, List, [], ◌∷◌, arith,
}
use quickstructs.Text.{Text, equal}
use quickstructs.Text.Split.{equal_iff}
use quickstructs.Toml.{Table, TomlParser, find, emplace, emplace_at, find_in, get_value}

abbrev pub or_else : {A : Type 0} → Option A → Option A → Option A
or_else none o = o
or_else (some a) o = some a

-- One assignment of a file.
pub record Entry : Type 0 where
  pub section : Text
  pub key : Text
  pub val : Text

abbrev pub is_for : Entry → Text → Text → Bool
is_for e s k = equal e.section s && equal e.key k

abbrev pub value_if : Bool → Text → Option Text
value_if true v = some v
value_if false v = none

-- The first of the assignments to a key.
abbrev pub first_value : Text → Text → List Entry → Option Text
first_value s k [] = none
first_value s k (e ∷ es) = or_else (value_if (is_for e s k) e.val) (first_value s k es)

-- All assignments put into the maps, in their order.
abbrev pub emplace_entry : Entry → List (Text × Table) → List (Text × Table)
emplace_entry e m = emplace_at e.section e.key e.val m

unfoldable pub emplace_all : List Entry → List (Text × Table) → List (Text × Table)
emplace_all [] m = m
emplace_all (e ∷ es) m = emplace_all es (emplace_entry e m)

or_else_assoc : {A : Type 0} (x y z : Option A) → or_else (or_else x y) z ≡ or_else x (or_else y z)
or_else_assoc none y z = refl
or_else_assoc (some a) y z = refl

equal_sym : (a b : Text) → equal a b ≡ true → equal b a ≡ true
equal_sym a b e = (equal_iff b a).1 (sym ((equal_iff a b).0 e))

equal_trans : (a b c : Text) → equal a b ≡ true → equal a c ≡ equal b c
equal_trans a b c e = ap (λ x. equal x c) ((equal_iff a b).0 e)

find-emplace :
    (k v j : Text) (m : Table)
    → find j (emplace k v m) ≡ or_else (find j m) (value_if (equal k j) v)
unfolding find emplace
find-emplace k v j [] = ground arith
find-emplace k v j ((i, w) ∷ m) =
    ground (arith, equal_iff i k, equal_iff i j, equal_iff k j, find-emplace k v j m)

find_in-emplace_at :
    (s k v t j : Text) (m : List (Text × Table))
    → find_in j (find t (emplace_at s k v m))
      ≡ or_else (find_in j (find t m)) (value_if (equal s t && equal k j) v)
unfolding find emplace_at
find_in-emplace_at s k v t j [] = ground (arith, find-emplace k v j [])
find_in-emplace_at s k v t j ((i, w) ∷ m) = ground (
  arith,
  equal_iff i s,
  equal_iff i t,
  equal_iff s t,
  find-emplace k v j w,
  find_in-emplace_at s k v t j m,
)

-- Reading after the assignments gives what was there before, or else the first of them.
find_in-emplace_all :
    (es : List Entry) (m : List (Text × Table)) (s k : Text)
    → find_in k (find s (emplace_all es m)) ≡ or_else (find_in k (find s m)) (first_value s k es)
unfolding emplace_all
find_in-emplace_all [] m s k = sym (or_else-none (find_in k (find s m)))
  where
    or_else-none : (o : Option Text) → or_else o none ≡ o
    or_else-none none = refl
    or_else-none (some v) = refl
find_in-emplace_all (e ∷ es) m s k =
    find_in-emplace_all es (emplace_entry e m) s k
    ∙ ap (λ o. or_else o (first_value s k es)) (find_in-emplace_at e.section e.key e.val s k m)
    ∙ or_else_assoc (find_in k (find s m)) (value_if (is_for e s k) e.val) (first_value s k es)

pub get_value-emplace_all :
    (es : List Entry) (t : TomlParser) (s k : Text)
    → t.keys ≡ emplace_all es []
    → get_value t s k ≡ first_value s k es
unfolding get_value find
get_value-emplace_all es t s k e = ap (λ m. find_in k (find s m)) e ∙ find_in-emplace_all es [] s k
