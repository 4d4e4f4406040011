-- ===== src/Cassandra/Tests.antt =====
-- A connection that is made, and one that is not.
use quickstructs.Prelude.{ℕ, ◌≡◌, refl, Bool, true, none, some, [], ◌∷◌, ltb, pos, false}
use quickstructs.Cassandra.{Ledger, returned, aborted, free, init_db}
use quickstructs.Text.{codes}
use quickstructs.Cassandra.Values.{
  Basic, bool_value, float_value, double_value, int32_value, int64_value, values_of, key_first,
  Driver, IsDocumented, read_row, bound_columns, Asserts, read_row-bound_columns,
}
use quickstructs.Cassandra.Freed.{left, init_db-freed}

abbrev empty : Ledger
empty = record { next = 0; alive = [] }

freed_twice : free 0 empty ≡ none
unfolding free
freed_twice = refl

-- The queries behind the sixth object fail.
abbrev ok_until : ℕ → Bool
ok_until n = ltb n 6

-- The assertions hold where the row was read.
init_db-freed_example :
    left (init_db ok_until ok_until (λ row. row) empty) ≡ some (aborted, 1 ∷ 0 ∷ [])
init_db-freed_example = init_db-freed ok_until ok_until (λ row. row) empty

connected : left (init_db (λ i. true) (λ i. true) (λ row. row) empty) ≡ some (returned true, [])
connected = init_db-freed (λ i. true) (λ i. true) (λ row. row) empty

-- A driver as documented, with numbers in place of floating-point numbers.
abbrev driver : Driver ℕ ℕ
driver = record {
  row = λ cs. values_of (key_first cs);
  value_get_bool = λ v old. elim v [ bool_value b ↦ b | _ ↦ old ];
  value_get_float = λ v old. elim v [ float_value x ↦ x | _ ↦ old ];
  value_get_double = λ v old. elim v [ double_value x ↦ x | _ ↦ old ];
  value_get_int32 = λ v old. elim v [ int32_value n ↦ n | _ ↦ old ];
  value_get_int64 = λ v old. elim v [ int64_value n ↦ n | _ ↦ old ];
}

driver-IsDocumented : IsDocumented driver
driver-IsDocumented = record {
  row_is = λ cs. refl;
  bool_is = λ b old. refl;
  float_is = λ x old. refl;
  double_is = λ x old. refl;
  int32_is = λ n old. refl;
  int64_is = λ n old. refl;
}

abbrev input : Basic ℕ ℕ
input = record { bln = true; flt = 3; dbl = 4; i32 = pos 1; i64 = pos 2 }

abbrev output : Basic ℕ ℕ
output = record { bln = false; flt = 0; dbl = 0; i32 = pos 0; i64 = pos 0 }

read_row-run : read_row driver (driver.row (bound_columns (codes "test2") input)) output ≡ input
unfolding read_row bound_columns
read_row-run = refl

read_row-bound_columns_example :
    Asserts driver input (read_row driver (driver.row (bound_columns (codes "test2") input)) output)
read_row-bound_columns_example =
    read_row-bound_columns driver (codes "test2") input output driver-IsDocumented
