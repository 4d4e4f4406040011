-- ===== src/SharedPtr/Main.antt =====
-- `main` of include/quick/handle/SharedPtr.hh: the counts that it prints, in order. Its two objects are
-- the handles 0 and 1, which are destroyed at the end.
use quickstructs.Prelude.{ℕ, Option, none, some, List, [], ◌∷◌, get_elem?, ◌>>=◌}
use quickstructs.SharedPtr.{World, start, construct, move_construct, reset, use_count}

abbrev pub printed_count : ℕ → World → Option ℕ
printed_count i w = elim (get_elem? w.handles i) [ some h ↦ use_count h w | none ↦ none ]

unfoldable pub main : ℕ → ℕ → Option (List ℕ × World)
main x deleter = do
  w1 ← construct x deleter start
  first ← printed_count 0 w1
  w2 ← move_construct 0 w1
  second ← printed_count 1 w2
  w3 ← reset 0 w2
  third ← printed_count 1 w3
  w4 ← reset 1 w3
  fourth ← printed_count 1 w4
  w5 ← reset 1 w4
  w6 ← reset 0 w5
  some (first ∷ second ∷ third ∷ fourth ∷ [], w6)
