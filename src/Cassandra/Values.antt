-- ===== src/Cassandra/Values.antt =====
-- The values that `insert_into_basic` binds and `select_from_basic` reads. The driver, which stores
-- the row and gives it back, is a parameter, and so are the two types of floating-point numbers.
use quickstructs.Prelude.{
  ℕ, ◌≡◌, sym, Bool, true, false, none, some, List, [], ◌∷◌, ltb, ◌==◌, get_elem?, ℤ, if◌then◌else◌,
}
use quickstructs.Text.{Text, codes}

-- The names of columns by their bytes.
abbrev pub before : Text → Text → Bool
before s [] = false
before [] (d ∷ t) = true
before (c ∷ s) (d ∷ t) = if c == d then before s t else ltb c d

module _ (F D : Type 0) where
  -- `Basic`
  pub record Basic : Type 0 where
    pub bln : Bool
    pub flt : F
    pub dbl : D
    pub i32 : ℤ
    pub i64 : ℤ

  -- A value of the driver, with its type.
  pub data Value : Type 0 where
    string_value : Text → Value
    bool_value : Bool → Value
    float_value : F → Value
    double_value : D → Value
    int32_value : ℤ → Value
    int64_value : ℤ → Value

  -- A column of a row, with its name.
  pub record Column : Type 0 where
    pub name : Text
    pub value : Value

module _ {F D : Type 0} where
  -- The values that `insert_into_basic` binds, under the names that its query gives the parameters.
  unfoldable pub bound_columns : Text → Basic F D → List (Column F D)
  bound_columns key basic =
      record { name = codes "key"; value = string_value key }
      ∷ record { name = codes "bln"; value = bool_value basic.bln }
      ∷ record { name = codes "flt"; value = float_value basic.flt }
      ∷ record { name = codes "dbl"; value = double_value basic.dbl }
      ∷ record { name = codes "i32"; value = int32_value basic.i32 }
      ∷ record { name = codes "i64"; value = int64_value basic.i64 }
      ∷ []

  -- The order of the columns of a row, the key first and the others by their names.
  abbrev pub insert_column : Column F D → List (Column F D) → List (Column F D)
  insert_column c [] = c ∷ []
  insert_column c (d ∷ ds) = if before c.name d.name then c ∷ d ∷ ds else d ∷ insert_column c ds

  abbrev pub sort_columns : List (Column F D) → List (Column F D)
  sort_columns [] = []
  sort_columns (c ∷ cs) = insert_column c (sort_columns cs)

  abbrev pub key_first : List (Column F D) → List (Column F D)
  key_first [] = []
  key_first (c ∷ cs) = c ∷ sort_columns cs

  abbrev pub values_of : List (Column F D) → List (Value F D)
  values_of [] = []
  values_of (c ∷ cs) = c.value ∷ values_of cs

-- What the code calls of the driver: the row that `SELECT *` gives of the columns that were inserted,
-- and the five functions that write a value to where the caller asks.
pub record Driver (F D : Type 0) : Type 0 where
  pub row : List (Column F D) → List (Value F D)
  pub value_get_bool : Value F D → Bool → Bool
  pub value_get_float : Value F D → F → F
  pub value_get_double : Value F D → D → D
  pub value_get_int32 : Value F D → ℤ → ℤ
  pub value_get_int64 : Value F D → ℤ → ℤ

-- What its documentation says: a row has the key first and the other columns in the order of their
-- names, and a value of the type that is asked for is written.
pub record IsDocumented {F D : Type 0} (driver : Driver F D) : Type 0 where
  pub row_is : (cs : List (Column F D)) → driver.row cs ≡ values_of (key_first cs)
  pub bool_is : (b old : Bool) → driver.value_get_bool (bool_value b) old ≡ b
  pub float_is : (x old : F) → driver.value_get_float (float_value x) old ≡ x
  pub double_is : (x old : D) → driver.value_get_double (double_value x) old ≡ x
  pub int32_is : (n old : ℤ) → driver.value_get_int32 (int32_value n) old ≡ n
  pub int64_is : (n old : ℤ) → driver.value_get_int64 (int64_value n) old ≡ n

module _ {F D : Type 0} (driver : Driver F D) where
  -- `cass_row_get_column`, and a value that is written if the row has the column.
  abbrev pub get_column : {A : Type 0} → (Value F D → A → A) → List (Value F D) → ℕ → A → A
  get_column get row i old = elim (get_elem? row i) [ some v ↦ get v old | none ↦ old ]

  -- What `select_from_basic` writes to `basic` from a row.
  unfoldable pub read_row : List (Value F D) → Basic F D → Basic F D
  read_row row basic = record {
    bln = get_column driver.value_get_bool row 1 basic.bln;
    dbl = get_column driver.value_get_double row 2 basic.dbl;
    flt = get_column driver.value_get_float row 3 basic.flt;
    i32 = get_column driver.value_get_int32 row 4 basic.i32;
    i64 = get_column driver.value_get_int64 row 5 basic.i64;
  }

  -- The assertions of `init_db`.
  pub Asserts : Basic F D → Basic F D → Type 0
  Asserts input output =
      (input.bln ≡ output.bln)
      × (input.flt ≡ output.flt)
      × (input.dbl ≡ output.dbl)
      × (input.i32 ≡ output.i32)
      × (input.i64 ≡ output.i64)

  -- With a driver as documented, what `insert_into_basic` binds is what `select_from_basic` reads from
  -- the row: the assertions of `init_db` hold, whatever the output was before.
  pub read_row-bound_columns :
      (key : Text) (input output : Basic F D)
      → IsDocumented driver
      → Asserts input (read_row (driver.row (bound_columns key input)) output)
  unfolding bound_columns read_row Asserts
  read_row-bound_columns key input output h = rw h.row_is (
    sym (h.bool_is input.bln output.bln),
    sym (h.float_is input.flt output.flt),
    sym (h.double_is input.dbl output.dbl),
    sym (h.int32_is input.i32 output.i32),
    sym (h.int64_is input.i64 output.i64),
  )
