-- ===== src/Orderbook.antt =====
-- include/quick/structs/Orderbook.hh: orders, trades, the two sides of the book and its operations.
-- A `std::vector` is a list in index order, so `back()` is the last element. `Price` and `Quantity`
-- are signed and stand as integers; `reserve` changes no contents and is left out.
pub mod Sweep
pub mod Valid
pub mod Shrink
pub mod Insert
pub mod Invariant
pub mod Trades
pub mod Cancel
pub mod Prices
pub mod Shares
pub mod Lifetime
pub mod Printing
mod Tests
use quickstructs.Prelude.{
  ℕ, zero, suc, Bool, true, false, not, ◌&&◌, ◌||◌, Option, none, some, List, [], ◌∷◌, ◌++◌, length,
  take, drop, back?, pop_back, set_back, ℤ, pos, ◌-ℤ◌, ltb_ℤ, leb_ℤ, eqb_ℤ, min_ℤ, ◌==◌,
  if◌then◌else◌,
}

-- `Order::Side`
pub data Side : Type 0 where
  buy sell : Side

-- `Order`
pub record Order : Type 0 where
  pub id : ℕ
  pub level : ℤ
  pub is_buy : Bool
  pub qty : ℤ
  pub side : Side

-- The constructor of `Order`, which derives the side.
abbrev pub make_order : ℕ → ℤ → Bool → ℤ → Order
make_order i l b q = record {
  id = i;
  level = l;
  is_buy = b;
  qty = q;
  side = if b then buy else sell;
}

-- `Order::set_qty`
abbrev pub set_qty : Order → ℤ → Order
set_qty o q = record o { qty = q }

-- `Trade`
pub record Trade : Type 0 where
  pub order_id_a : ℕ
  pub order_id_b : ℕ
  pub aggressor_order_id : ℕ
  pub aggressor_is_buy : Bool
  pub level : ℤ
  pub size : ℤ

-- `Orderbook`
pub record Book : Type 0 where
  pub bids : List Order
  pub asks : List Order

-- `Orderbook::Orderbook`
abbrev pub empty_book : Book
empty_book = record { bids = []; asks = [] }

-- `can_match`: the buyer's limit reaches the seller's.
abbrev pub can_match : Order → Order → Bool
can_match b s = leb_ℤ s.level b.level

-- `std::ranges::any_of` at the id test of `is_dupe`
abbrev pub any_id : ℕ → List Order → Bool
any_id i [] = false
any_id i (o ∷ os) = (o.id == i) || any_id i os

-- `is_dupe`
abbrev pub is_dupe : Book → Order → Bool
is_dupe b o = any_id o.id b.bids || any_id o.id b.asks

-- `std::ranges::lower_bound` at the projection `get_level`: on a range sorted by `before`, the index
-- of the first order whose level does not come before `l`.
pub lower_bound : (ℤ → ℤ → Bool) → List Order → ℤ → ℕ
lower_bound before [] l = 0
lower_bound before (o ∷ os) l = if before o.level l then suc (lower_bound before os l) else 0

-- `std::vector::insert`
pub insert_at : List Order → ℕ → Order → List Order
insert_at xs i o = take i xs ++ o ∷ drop i xs

-- `std::less<Price>` for bids, `std::greater<Price>` for asks
abbrev pub less : ℤ → ℤ → Bool
less a b = ltb_ℤ a b

abbrev pub greater : ℤ → ℤ → Bool
greater a b = ltb_ℤ b a

-- The insertion into one side of the book.
unfoldable pub insert_side : (ℤ → ℤ → Bool) → List Order → Order → List Order
unfolding lower_bound insert_at
insert_side before xs o = insert_at xs (lower_bound before xs o.level) o

-- `insert_order`
unfoldable pub insert_order : Book → Order → Book
insert_order b o =
    if is_dupe b o
    then b
    else if o.is_buy
    then record b { bids = insert_side less b.bids o }
    else record b { asks = insert_side greater b.asks o }

-- The locals of the loop of `AddOrder`: the opposite side, the quantity left and the trades so far.
pub record Matching : Type 0 where
  pub side : List Order
  pub remaining : ℤ
  pub trades : List Trade

-- The trade that `incoming` makes with `best`.
abbrev pub make_trade : Order → Order → ℤ → Trade
make_trade incoming best size = record {
  order_id_a = if incoming.is_buy then incoming.id else best.id;
  order_id_b = if incoming.is_buy then best.id else incoming.id;
  aggressor_order_id = incoming.id;
  aggressor_is_buy = incoming.is_buy;
  level = if incoming.is_buy then best.level else incoming.level;
  size = size;
}

-- `match`
abbrev pub matches : Order → Order → Bool
matches incoming best = if incoming.is_buy then can_match incoming best else can_match best incoming

-- The body of the loop of `AddOrder` behind its tests.
unfoldable pub fill : Order → Order → Matching → Matching
fill incoming best m =
    let size = min_ℤ best.qty m.remaining in
    let left = best.qty -ℤ size in
    record {
      side = if eqb_ℤ left (pos 0) then pop_back m.side else set_back m.side (set_qty best left);
      remaining = m.remaining -ℤ size;
      trades = m.trades ++ make_trade incoming best size ∷ [];
    }

-- One round of the loop of `AddOrder`; none where its test fails or it breaks.
unfoldable pub match_step : Order → Matching → Option Matching
match_step incoming m = elim (back? m.side) [
  | none ↦ none
  | some best ↦
      if ltb_ℤ (pos 0) m.remaining
      then (if matches incoming best then some (fill incoming best m) else none)
      else none
]

-- The loop of `AddOrder`, on fuel.
pub match_loop : ℕ → Order → Matching → Matching
match_loop zero incoming m = m
match_loop (suc fuel) incoming m = elim (match_step incoming m) [
  | none ↦ m
  | some m' ↦ match_loop fuel incoming m'
]

abbrev pub opposite_side : Book → Order → List Order
opposite_side b incoming = if incoming.is_buy then b.asks else b.bids

abbrev pub with_opposite : Book → Order → List Order → Book
with_opposite b incoming side =
    if incoming.is_buy then record b { asks = side } else record b { bids = side }

-- Each round but the last removes an order, so one more round than there are orders is enough.
unfoldable pub run_matching : Book → Order → Matching
run_matching b incoming =
    let side = opposite_side b incoming in
    match_loop (suc (length side)) incoming
      (record { side = side; remaining = incoming.qty; trades = [] })

-- The end of `AddOrder`: what was not matched rests in the book.
unfoldable pub settle : Book → Order → Matching → Book
settle b incoming m =
    let b' = with_opposite b incoming m.side in
    if ltb_ℤ (pos 0) m.remaining then insert_order b' (set_qty incoming m.remaining) else b'

-- `AddOrder`
unfoldable pub add_order : Book → Order → List Trade × Book
add_order b incoming =
    if is_dupe b incoming
    then ([], b)
    else (let m = run_matching b incoming in (m.trades, settle b incoming m))

-- `std::ranges::find_if` at the id test, followed by `erase` at its result; none if nothing is found.
unfoldable pub find_erase : ℕ → List Order → Option (List Order)
find_erase i [] = none
find_erase i (o ∷ os) =
    if o.id == i
    then some os
    else (elim (find_erase i os) [ none ↦ none | some os' ↦ some (o ∷ os') ])

-- `CancelOrder`
unfoldable pub cancel_order : Book → ℕ → Book
cancel_order b i = elim (find_erase i b.bids) [
  | some bids' ↦ record b { bids = bids' }
  | none ↦ elim (find_erase i b.asks) [ some asks' ↦ record b { asks = asks' } | none ↦ b ]
]
