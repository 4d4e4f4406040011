-- ===== src/Orderbook/Tests.antt =====
-- Runs of the book of Orderbook.hh, and the theorems at concrete books.
use quickstructs.Prelude.{
  ◌≡◌, refl, true, false, List, [], ◌∷◌, All, pos, negsuc, ◌+ℤ◌, ◌-ℤ◌, arith, ◌≤ℤ◌,
}
use quickstructs.Orderbook.{
  Order, Trade, Book, make_order, add_order, cancel_order, run_matching, insert_side, match_loop,
  fill, match_step, settle, insert_order, empty_book, find_erase,
}
use quickstructs.Text.{codes}
use quickstructs.Text.Numbers.{decimal, digits_of}
use quickstructs.Orderbook.Printing.{print_order}
use quickstructs.Orderbook.Valid.{IsValid}
use quickstructs.Orderbook.Sweep.{sweep, after, run_matching-sweep}
use quickstructs.Orderbook.Insert.{Placed, insert_order-Placed}
use quickstructs.Orderbook.Invariant.{
  Call, add, cancel, run_calls, run_calls-IsValid, empty_book-IsValid,
}
use quickstructs.Orderbook.Shares.{traded_of, book_of, share}
use quickstructs.Orderbook.Lifetime.{run_trades, offers, cancelled, run_calls-accounts}
use quickstructs.Orderbook.Prices.{Fills, add_order-Fills}
use quickstructs.Orderbook.Cancel.{cancel_order-without}

abbrev bid_low : Order
bid_low = make_order 1 (pos 10) true (pos 5)

abbrev bid_high : Order
bid_high = make_order 2 (pos 12) true (pos 3)

abbrev ask_high : Order
ask_high = make_order 3 (pos 20) false (pos 4)

abbrev ask_low : Order
ask_low = make_order 4 (pos 15) false (pos 2)

abbrev book : Book
book = record { bids = bid_low ∷ bid_high ∷ []; asks = ask_high ∷ ask_low ∷ [] }

-- A buyer at 18 takes all of the ask at 15 and rests behind the bid at 12.
abbrev buyer : Order
buyer = make_order 9 (pos 18) true (pos 5)

abbrev buyer_trade : Trade
buyer_trade = record {
  order_id_a = 9;
  order_id_b = 4;
  aggressor_order_id = 9;
  aggressor_is_buy = true;
  level = pos 15;
  size = pos 2;
}

abbrev book_after : Book
book_after = record {
  bids = bid_low ∷ bid_high ∷ make_order 9 (pos 18) true (pos 3) ∷ [];
  asks = ask_high ∷ [];
}

add_order-buyer : add_order book buyer ≡ (buyer_trade ∷ [], book_after)
unfolding add_order run_matching match_loop match_step fill settle insert_order insert_side ◌-ℤ◌
add_order-buyer = refl

add_order-negative : add_order book (make_order 9 (pos 18) true (negsuc 2)) ≡ ([], book)
unfolding add_order run_matching match_loop match_step fill settle insert_order insert_side
add_order-negative = refl

cancel_order-book : cancel_order book 4 ≡ record book { asks = ask_high ∷ [] }
unfolding cancel_order find_erase
cancel_order-book = refl

book-IsValid : IsValid book
book-IsValid = ground arith

-- Order 9 trades 2 of its 5 with order 4, and the other 3 are cancelled.
abbrev day : List Call
day = add 4 (pos 15) false (pos 2) ∷ add 9 (pos 18) true (pos 5) ∷ cancel 9 ∷ []

day-run : (traded_of 9 (run_trades empty_book day) ≡ pos 2) × (cancelled 9 empty_book day ≡ pos 3)
unfolding add_order settle run_matching match_loop match_step fill insert_order insert_side
    cancel_order find_erase share ◌+ℤ◌ ◌-ℤ◌
day-run = (refl, refl)

run_calls-accounts_example :
    (traded_of 9 (run_trades empty_book day)
        +ℤ book_of 9 (run_calls empty_book day)
        +ℤ cancelled 9 empty_book day
      ≡ pos 0 +ℤ pos 0 +ℤ offers 9 empty_book day)
    × (traded_of 9 (run_trades empty_book day) ≤ℤ pos 0 +ℤ pos 0 +ℤ offers 9 empty_book day)
run_calls-accounts_example = run_calls-accounts 9 empty_book day empty_book-IsValid

run_calls-IsValid_example : IsValid (
    run_calls empty_book (add 1 (pos 5) true (pos 3) ∷ add 2 (pos 4) false (pos 1) ∷ cancel 1 ∷ []))
run_calls-IsValid_example =
    run_calls-IsValid empty_book
      (add 1 (pos 5) true (pos 3) ∷ add 2 (pos 4) false (pos 1) ∷ cancel 1 ∷ []) empty_book-IsValid

run_matching-sweep_example :
    run_matching book buyer ≡ after [] (sweep buyer (pos 5) (ask_low ∷ ask_high ∷ []))
run_matching-sweep_example = run_matching-sweep book buyer

add_order-Fills_example : All (Fills buyer (ask_high ∷ ask_low ∷ [])) (add_order book buyer).0
add_order-Fills_example = add_order-Fills book buyer book-IsValid

cancel_order-without_example :
    cancel_order book 4 ≡ record { bids = book.bids; asks = ask_high ∷ [] }
cancel_order-without_example = cancel_order-without book 4 book-IsValid

abbrev late_bid : Order
late_bid = make_order 7 (pos 12) true (pos 1)

insert_order-Placed_example : Placed true book late_bid (insert_order book late_bid)
insert_order-Placed_example = insert_order-Placed book late_bid book-IsValid refl

print_order-run :
    print_order (make_order 14 (negsuc 6) true (pos 30))
    ≡ codes "id: 14, level: -7, isbuy: 1, qty: 30"
unfolding print_order decimal digits_of
print_order-run = refl
