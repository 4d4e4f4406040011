-- ===== src/Orderbook/Invariant.antt =====
-- Every operation of the book keeps it valid, and so does every sequence of calls.
use quickstructs.Prelude.{
  ℕ, ◌≡◌, refl, subst, ◌≢◌, Bool, true, false, ◌||◌, ||-eq-false, List, [], ◌∷◌, reverse,
  reverse-reverse, All, AllPairs, AllPairs-reverse, AllPairs-map, All-map, All-reverse, ℤ, pos,
  ◌<ℤ◌, ◌-ℤ◌, ltb_ℤ, leb_ℤ, if◌then◌else◌, arith, Bool-cases, inl, inr,
}
use quickstructs.Orderbook.{
  Order, Book, set_qty, make_order, matches, add_order, cancel_order, settle, insert_order,
  with_opposite, opposite_side, is_dupe, any_id, empty_book, less, greater,
}
use quickstructs.Orderbook.Valid.{IsValid, any_id-eq-false, any_id_of_All, IsSorted}
use quickstructs.Orderbook.Shrink.{
  Shrunk, Shrunk-refl, Shrunk-reverse, Shrunk-IsValid, Shrunk-All, sweep-Shrunk, erase_id-Shrunk,
  cancel_order-erase_id,
}
use quickstructs.Orderbook.Insert.{insert_order-new, insert_bid-IsValid, insert_ask-IsValid}
use quickstructs.Orderbook.Sweep.{sweep, run_matching-sweep}

-- If some of the incoming quantity is left, no order that is left matches.
sweep_stuck :
    (inc : Order) (q : ℤ) (xs : List Order)
    → AllPairs (λ x y. matches inc x ≡ false → matches inc y ≡ false) xs
    → pos 0 <ℤ (sweep inc q xs).remaining
    → All (λ x. matches inc x ≡ false) (sweep inc q xs).side
unfolding sweep
sweep_stuck inc q [] h = λ r. tt
sweep_stuck inc q (x ∷ xs) h = elim (Bool-cases (ltb_ℤ (pos 0) q)) [
  | inr spent ↦ rw spent (λ r. absurd (ground arith))
  | inl more ↦ elim (Bool-cases (matches inc x)) [
    | inr e ↦ rw (more, e) (λ r. (e, All-map _ _ (λ y k. k e) xs h.0))
    | inl e ↦ elim (Bool-cases (leb_ℤ x.qty q)) [
      | inl whole ↦ rw (more, e, whole) (sweep_stuck inc (q -ℤ x.qty) xs h.1)
      | inr p ↦ rw (more, e, p) (λ r. absurd (omega arith))
    ]
  ]
]

-- The side that the loop leaves, in index order.
abbrev pub left_side : Order → List Order → List Order
left_side inc xs = reverse (sweep inc inc.qty (reverse xs)).side

abbrev pub left_qty : Order → List Order → ℤ
left_qty inc xs = (sweep inc inc.qty (reverse xs)).remaining

pub left_side-Shrunk : (inc : Order) (xs : List Order) → Shrunk xs (left_side inc xs)
left_side-Shrunk inc xs =
    subst (λ ys. Shrunk ys (left_side inc xs)) (reverse-reverse xs)
      (Shrunk-reverse (sweep-Shrunk inc inc.qty (reverse xs)))

left_side_stuck :
    (inc : Order) (before : ℤ → ℤ → Bool) (xs : List Order)
    → ((x y : Order)
        → before x.level y.level ≡ false
        → matches inc x ≡ false
        → matches inc y ≡ false)
    → IsSorted before xs
    → pos 0 <ℤ left_qty inc xs
    → All (λ x. matches inc x ≡ false) (left_side inc xs)
left_side_stuck inc before xs worse h r = All-reverse _ _ (
    sweep_stuck inc inc.qty (reverse xs)
      (AllPairs-map _ _ worse (reverse xs) (AllPairs-reverse _ xs h)) r)

-- `AddOrder` of a new id, without the loop: the opposite side is swept, and what is left of a
-- positive quantity is inserted, since its id is still new.
pub add_order-eq :
    (b : Book) (inc : Order)
    → is_dupe b inc ≡ false
    → (add_order b inc).1 ≡ (
        let xs = opposite_side b inc in
        let b' = with_opposite b inc (left_side inc xs) in
        if ltb_ℤ (pos 0) (left_qty inc xs)
        then insert_order b' (set_qty inc (left_qty inc xs))
        else b')
unfolding add_order settle
add_order-eq b inc h = rw (h, run_matching-sweep)

pub add_order_trades :
    (b : Book) (inc : Order)
    → is_dupe b inc ≡ false
    → (add_order b inc).0 ≡ (sweep inc inc.qty (reverse (opposite_side b inc))).trades
unfolding add_order
add_order_trades b inc h = rw (h, run_matching-sweep)

pub add_order-dupe : (b : Book) (inc : Order) → is_dupe b inc ≡ true → add_order b inc ≡ ([], b)
unfolding add_order
add_order-dupe b inc h = rw h

-- An id that is new to a book is new to what is left of it.
module _ (b : Book) (i : ℕ) (new : (any_id i b.bids || any_id i b.asks) ≡ false) where
  no_bid : All (λ x. x.id ≢ i) b.bids
  no_bid = any_id-eq-false i b.bids (||-eq-false (any_id i b.bids) (any_id i b.asks) new).0

  no_ask : All (λ x. x.id ≢ i) b.asks
  no_ask = any_id-eq-false i b.asks (||-eq-false (any_id i b.bids) (any_id i b.asks) new).1

  pub still_new : {c : Book} → Shrunk b.bids c.bids → Shrunk b.asks c.asks → record {
    bid : All (λ x. x.id ≢ i) c.bids;
    ask : All (λ x. x.id ≢ i) c.asks;
    id : (any_id i c.bids || any_id i c.asks) ≡ false;
  }
  still_new {c} s t =
      let bid = Shrunk-All (λ x. x.id ≢ i) (λ x k p h. h) s no_bid in
      let ask = Shrunk-All (λ x. x.id ≢ i) (λ x k p h. h) t no_ask in
      record {
        bid = bid;
        ask = ask;
        id = ground (arith, any_id_of_All i c.bids bid, any_id_of_All i c.asks ask);
      }

module _ {b : Book} (v : IsValid b) (i : ℕ) (l q : ℤ) where
  module _ (new : (any_id i b.bids || any_id i b.asks) ≡ false) where
    add_bid-IsValid : IsValid (add_order b (make_order i l true q)).1
    add_bid-IsValid =
        rw (add_order-eq b inc new) (elim (Bool-cases (ltb_ℤ (pos 0) (left_qty inc b.asks))) [
          | inr done ↦ rw done kept
          | inl more ↦
              rw (more, insert_order-new c (set_qty inc (left_qty inc b.asks)) id)
                (insert_bid-IsValid kept _ bid ask
                  (record { on_side = refl; side_is = refl; open_qty = ground arith })
                  (All-map (λ x. matches inc x ≡ false) (λ y. l <ℤ y.level) (λ x e. ground arith) _
                    (left_side_stuck inc greater b.asks (λ x y g m. ground arith) v.asks_sorted
                      (ground arith))))
        ])
      where
        inc : Order
        inc = make_order i l true q

        c : Book
        c = record b { asks = left_side inc b.asks }

        kept : IsValid c
        kept = Shrunk-IsValid (Shrunk-refl b.bids) (left_side-Shrunk inc b.asks) v

        open (still_new b i new {c = c} (Shrunk-refl b.bids) (left_side-Shrunk inc b.asks)) use {
          bid, ask, id,
        }

    add_ask-IsValid : IsValid (add_order b (make_order i l false q)).1
    add_ask-IsValid =
        rw (add_order-eq b inc new) (elim (Bool-cases (ltb_ℤ (pos 0) (left_qty inc b.bids))) [
          | inr done ↦ rw done kept
          | inl more ↦
              rw (more, insert_order-new c (set_qty inc (left_qty inc b.bids)) id)
                (insert_ask-IsValid kept _ bid ask
                  (record { on_side = refl; side_is = refl; open_qty = ground arith })
                  (All-map (λ x. matches inc x ≡ false) (λ x. x.level <ℤ l) (λ x e. ground arith) _
                    (left_side_stuck inc less b.bids (λ x y g m. ground arith) v.bids_sorted
                      (ground arith))))
        ])
      where
        inc : Order
        inc = make_order i l false q

        c : Book
        c = record b { bids = left_side inc b.bids }

        kept : IsValid c
        kept = Shrunk-IsValid (left_side-Shrunk inc b.bids) (Shrunk-refl b.asks) v

        open (still_new b i new {c = c} (left_side-Shrunk inc b.bids) (Shrunk-refl b.asks)) use {
          bid, ask, id,
        }

-- `AddOrder` keeps the book valid, whatever the side, price, quantity and id of the order that comes
-- in: both sides stay sorted, ids distinct, quantities positive, and the book is not crossed after
-- the matching.
pub add_order-IsValid :
    (b : Book) (i : ℕ) (l : ℤ) (buying : Bool) (q : ℤ)
    → IsValid b
    → IsValid (add_order b (make_order i l buying q)).1
add_order-IsValid b i l buying q v = elim (Bool-cases (any_id i b.bids || any_id i b.asks)) [
  | inl dupe ↦ rw (add_order-dupe b (make_order i l buying q) dupe) v
  | inr new ↦ (elim buying as (λ d. IsValid (add_order b (make_order i l d q)).1) [
    | true ↦ add_bid-IsValid v i l q new
    | false ↦ add_ask-IsValid v i l q new
  ])
]

-- `CancelOrder` keeps the book valid.
pub cancel_order-IsValid : (b : Book) (i : ℕ) → IsValid b → IsValid (cancel_order b i)
cancel_order-IsValid b i v = rw cancel_order-erase_id (elim (Bool-cases (any_id i b.bids)) [
  | inl bid ↦ rw bid (Shrunk-IsValid (erase_id-Shrunk i b.bids) (Shrunk-refl b.asks) v)
  | inr e ↦ elim (Bool-cases (any_id i b.asks)) [
    | inl ask ↦ rw (e, ask) (Shrunk-IsValid (Shrunk-refl b.bids) (erase_id-Shrunk i b.asks) v)
    | inr f ↦ rw (e, f) v
  ]
])

-- A call of a client.
pub data Call : Type 0 where
  add : ℕ → ℤ → Bool → ℤ → Call
  cancel : ℕ → Call

unfoldable pub run_calls : Book → List Call → Book
run_calls b [] = b
run_calls b (add i l d q ∷ cs) = run_calls (add_order b (make_order i l d q)).1 cs
run_calls b (cancel i ∷ cs) = run_calls (cancel_order b i) cs

-- From a valid book every sequence of calls leads to a valid book; the empty book is valid.
pub run_calls-IsValid : (b : Book) (cs : List Call) → IsValid b → IsValid (run_calls b cs)
unfolding run_calls
run_calls-IsValid b [] v = v
run_calls-IsValid b (add i l d q ∷ cs) v =
    run_calls-IsValid (add_order b (make_order i l d q)).1 cs (add_order-IsValid b i l d q v)
run_calls-IsValid b (cancel i ∷ cs) v =
    run_calls-IsValid (cancel_order b i) cs (cancel_order-IsValid b i v)

pub empty_book-IsValid : IsValid empty_book
empty_book-IsValid = record {
  bids_sorted = tt;
  asks_sorted = tt;
  bids_rest = tt;
  asks_rest = tt;
  bids_distinct = tt;
  asks_distinct = tt;
  distinct = tt;
  uncrossed = tt;
}
