-- ===== src/Orderbook/Valid.antt =====
-- The invariant of the book of Orderbook.hh.
use quickstructs.Prelude.{
  ℕ, ◌≡◌, ◌≢◌, Bool, true, false, List, [], ◌∷◌, All, AllPairs, ℤ, pos, ◌<ℤ◌, if◌then◌else◌, arith,
  ==_iff,
}
use quickstructs.Orderbook.{Order, Book, buy, sell, less, greater, any_id}

-- The two orderings that `insert_order` hands to `lower_bound` are strict weak orders.
pub record IsStrictOrder (before : ℤ → ℤ → Bool) : Type 0 where
  pub asym : (a b : ℤ) → before a b ≡ true → before b a ≡ false
  pub negative_trans : (a b c : ℤ) → before a b ≡ false → before b c ≡ false → before a c ≡ false

pub less-IsStrictOrder : IsStrictOrder less
less-IsStrictOrder = record {
  asym = λ a b h. ground arith;
  negative_trans = λ a b c h k. ground arith;
}

pub greater-IsStrictOrder : IsStrictOrder greater
greater-IsStrictOrder = record {
  asym = λ a b h. ground arith;
  negative_trans = λ a b c h k. ground arith;
}

-- No later order of the vector comes before an earlier one.
abbrev pub IsSorted : (ℤ → ℤ → Bool) → List Order → Type 0
IsSorted before = AllPairs (λ x y. before y.level x.level ≡ false)

abbrev pub OtherId : Order → Order → Type 0
OtherId x y = x.id ≢ y.id

-- An order that may rest on the side `b`: it belongs there, and some quantity of it is left.
pub record IsResting (b : Bool) (o : Order) : Type 0 where
  pub on_side : o.is_buy ≡ b
  pub side_is : o.side ≡ (if b then buy else sell)
  pub open_qty : pos 0 <ℤ o.qty

-- Bids ascend and asks descend, so that the best stand at the back; quantities are positive; ids are
-- distinct in the whole book; the book is not crossed.
pub record IsValid (b : Book) : Type 0 where
  pub bids_sorted : IsSorted less b.bids
  pub asks_sorted : IsSorted greater b.asks
  pub bids_rest : All (IsResting true) b.bids
  pub asks_rest : All (IsResting false) b.asks
  pub bids_distinct : AllPairs OtherId b.bids
  pub asks_distinct : AllPairs OtherId b.asks
  pub distinct : All (λ x. All (OtherId x) b.asks) b.bids
  pub uncrossed : All (λ x. All (λ y. x.level <ℤ y.level) b.asks) b.bids

-- `any_of` decides whether an id is in a vector.
pub any_id-eq-false : (i : ℕ) (xs : List Order) → any_id i xs ≡ false → All (λ x. x.id ≢ i) xs
any_id-eq-false i [] h = tt
any_id-eq-false i (x ∷ xs) h = (ground (arith, ==_iff x.id i), any_id-eq-false i xs (ground arith))

pub any_id_of_All : (i : ℕ) (xs : List Order) → All (λ x. x.id ≢ i) xs → any_id i xs ≡ false
any_id_of_All i [] h = ground arith
any_id_of_All i (x ∷ xs) h = ground (arith, ==_iff x.id i, any_id_of_All i xs h.1)
