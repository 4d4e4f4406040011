-- ===== src/Orderbook/Trades.antt =====
-- What `AddOrder` trades: quantities add up, prices respect both limits, ids are where they belong.
use quickstructs.Prelude.{
  ℕ, ◌≡◌, refl, ap, ◌∙◌, Bool, true, false, ◌&&◌, List, [], ◌∷◌, ◌++◌, reverse, reverse-cons, ℤ,
  pos, pos_part, neg_part, ◌≤ℤ◌, ◌<ℤ◌, ◌-ℤ◌, ◌+ℤ◌, ltb_ℤ, leb_ℤ, arith, int_laws, Bool-cases, inl,
  inr,
}
use quickstructs.Orderbook.{
  Order, Trade, Book, Matching, set_qty, make_order, matches, add_order, insert_side, is_dupe,
}
use quickstructs.Orderbook.Shrink.{Shrunk-refl}
use quickstructs.Orderbook.Insert.{insert_order-new, insert_side-cons}
use quickstructs.Orderbook.Invariant.{
  add_order-eq, add_order_trades, left_side, left_qty, left_side-Shrunk, still_new,
}
use quickstructs.Orderbook.Sweep.{sweep}

-- What a list of trades moves, and what is open in a vector of orders and in a book.
abbrev pub traded : List Trade → ℤ
traded [] = pos 0
traded (t ∷ ts) = t.size +ℤ traded ts

abbrev pub open_qty : List Order → ℤ
open_qty [] = pos 0
open_qty (o ∷ os) = o.qty +ℤ open_qty os

abbrev pub book_qty : Book → ℤ
book_qty b = open_qty b.bids +ℤ open_qty b.asks

open_qty-append : (xs ys : List Order) → open_qty (xs ++ ys) ≡ open_qty xs +ℤ open_qty ys
open_qty-append [] ys = omega int_laws
open_qty-append (x ∷ xs) ys = let ih = open_qty-append xs ys in rw ih (omega int_laws)

open_qty-reverse : (xs : List Order) → open_qty (reverse xs) ≡ open_qty xs
open_qty-reverse [] = refl
open_qty-reverse (x ∷ xs) = rw (reverse-cons, open_qty-append, open_qty-reverse xs) (omega int_laws)

open_qty-insert_side :
    (before : ℤ → ℤ → Bool) (o : Order) (xs : List Order)
    → open_qty (insert_side before xs o) ≡ o.qty +ℤ open_qty xs
open_qty-insert_side before o [] = unfold insert_side in refl
open_qty-insert_side before o (x ∷ xs) =
    rw insert_side-cons (elim (Bool-cases (before x.level o.level)) [
      | inl e ↦ rw (e, open_qty-insert_side before o xs) (omega int_laws)
      | inr e ↦ rw e
    ])

balance_in : (x t r q : ℤ) → t +ℤ r ≡ q -ℤ x → x +ℤ t +ℤ r ≡ q
balance_in x t r q h = omega (int_laws, ap pos_part h, ap neg_part h)

balance_rest : (x t s o : ℤ) → t +ℤ s ≡ o → x +ℤ t +ℤ s ≡ x +ℤ o
balance_rest x t s o h = omega (int_laws, ap pos_part h, ap neg_part h)

-- What the trades of a sweep move is taken from the incoming quantity and from the side alike.
record Balance (q : ℤ) (xs : List Order) (m : Matching) : Type 0 where
  incoming : traded m.trades +ℤ m.remaining ≡ q
  resting : traded m.trades +ℤ open_qty m.side ≡ open_qty xs

sweep-Balance : (inc : Order) (q : ℤ) (xs : List Order) → Balance q xs (sweep inc q xs)
unfolding sweep
sweep-Balance inc q [] = record { incoming = omega int_laws; resting = omega int_laws }
sweep-Balance inc q (x ∷ xs) = elim (Bool-cases (ltb_ℤ (pos 0) q && matches inc x)) [
  | inr stop ↦ rw stop (record { incoming = omega int_laws; resting = omega int_laws })
  | inl go ↦ elim (Bool-cases (leb_ℤ x.qty q)) [
    | inl whole ↦
        let ih = sweep-Balance inc (q -ℤ x.qty) xs in
        rw (go, whole)
          (record {
            incoming = balance_in _ _ _ _ ih.incoming;
            resting = balance_rest _ _ _ _ ih.resting;
          })
    | inr p ↦ rw (go, p) (record { incoming = omega int_laws; resting = omega int_laws })
  ]
]

-- A sweep leaves no less than nothing, and starts with a positive quantity only if it trades.
sweep_nonneg :
    (inc : Order) (q : ℤ) (xs : List Order) → pos 0 ≤ℤ q → pos 0 ≤ℤ (sweep inc q xs).remaining
unfolding sweep
sweep_nonneg inc q [] h = h
sweep_nonneg inc q (x ∷ xs) h = elim (Bool-cases (ltb_ℤ (pos 0) q && matches inc x)) [
  | inr stop ↦ rw stop h
  | inl go ↦ elim (Bool-cases (leb_ℤ x.qty q)) [
    | inl whole ↦
        rw (go, whole)
          (sweep_nonneg inc (q -ℤ x.qty) xs (let k : x.qty ≤ℤ q = ground arith in omega int_laws))
    | inr p ↦ rw (go, p) (omega arith)
  ]
]

none_left : (r y s : ℤ) → ltb_ℤ (pos 0) r ≡ false → pos 0 ≤ℤ r → y +ℤ s ≡ r +ℤ y +ℤ s
none_left r y s h k = let e : r ≤ℤ pos 0 = ground arith in omega int_laws

+ℤ_comm : (a b : ℤ) → a +ℤ b ≡ b +ℤ a
+ℤ_comm a b = omega int_laws

-- Both sides of the ledger, in numbers: `t` traded, `r` left over, `s` left on the swept side of
-- `o`, `y` on the other side.
ledger : (t r q s o y : ℤ) → t +ℤ r ≡ q → t +ℤ s ≡ o → r +ℤ y +ℤ s +ℤ t +ℤ t ≡ y +ℤ o +ℤ q
ledger t r q s o y h k =
    omega (int_laws, ap pos_part h, ap neg_part h, ap pos_part k, ap neg_part k)

-- The open quantity after `AddOrder`: what is left over, the side not swept and the rest of the other.
rested_bid :
    (b : Book) (i : ℕ) (l q : ℤ)
    → is_dupe b (make_order i l true q) ≡ false
    → pos 0 <ℤ q
    → let inc = make_order i l true q in
      book_qty (add_order b inc).1
      ≡ left_qty inc b.asks +ℤ open_qty b.bids +ℤ open_qty (sweep inc q (reverse b.asks)).side
rested_bid b i l q new p =
    rw (add_order-eq b inc new) (elim (Bool-cases (ltb_ℤ (pos 0) (left_qty inc b.asks))) [
      | inl more ↦ rw (
        more,
        insert_order-new c (set_qty inc (left_qty inc b.asks)) id,
        open_qty-insert_side,
        open_qty-reverse,
      )
      | inr done ↦
          rw (done, open_qty-reverse)
            (none_left _ _ _ done (sweep_nonneg inc q (reverse b.asks) (omega arith)))
    ])
  where
    inc : Order
    inc = make_order i l true q

    c : Book
    c = record b { asks = left_side inc b.asks }

    open (still_new b i new {c = c} (Shrunk-refl b.bids) (left_side-Shrunk inc b.asks)) use {id}

rested_ask :
    (b : Book) (i : ℕ) (l q : ℤ)
    → is_dupe b (make_order i l false q) ≡ false
    → pos 0 <ℤ q
    → let inc = make_order i l false q in
      book_qty (add_order b inc).1
      ≡ left_qty inc b.bids +ℤ open_qty b.asks +ℤ open_qty (sweep inc q (reverse b.bids)).side
rested_ask b i l q new p =
    rw (add_order-eq b inc new) (elim (Bool-cases (ltb_ℤ (pos 0) (left_qty inc b.bids))) [
      | inl more ↦
          rw
            (
              more,
              insert_order-new c (set_qty inc (left_qty inc b.bids)) id,
              open_qty-insert_side,
              open_qty-reverse,
            )
            (+ℤ_comm _ _)
      | inr done ↦
          rw (done, open_qty-reverse)
            (+ℤ_comm _ _ ∙ none_left _ _ _ done (sweep_nonneg inc q (reverse b.bids) (omega arith)))
    ])
  where
    inc : Order
    inc = make_order i l false q

    c : Book
    c = record b { bids = left_side inc b.bids }

    open (still_new b i new {c = c} (left_side-Shrunk inc b.bids) (Shrunk-refl b.asks)) use {id}

-- The quantity of an accepted order with positive quantity: what it trades is matched by as much
-- resting quantity of the other side, and all the rest of it rests in the book. So the open
-- quantity of the book grows by the incoming quantity, less twice what is traded.
pub add_order-conserves :
    (b : Book) (i : ℕ) (l : ℤ) (buying : Bool) (q : ℤ)
    → is_dupe b (make_order i l buying q) ≡ false
    → pos 0 <ℤ q
    → let (ts, b') = add_order b (make_order i l buying q) in
      book_qty b' +ℤ traded ts +ℤ traded ts ≡ book_qty b +ℤ q
add_order-conserves b i l true q new p =
    let inc = make_order i l true q in
    let m = sweep-Balance inc q (reverse b.asks) in
    rw (add_order_trades b inc new, rested_bid b i l q new p)
      (ledger _ _ q _ _ (open_qty b.bids) m.incoming (m.resting ∙ open_qty-reverse b.asks))
add_order-conserves b i l false q new p =
    let inc = make_order i l false q in
    let m = sweep-Balance inc q (reverse b.bids) in
    rw (add_order_trades b inc new, rested_ask b i l q new p)
      (ledger _ _ q _ _ (open_qty b.asks) m.incoming (m.resting ∙ open_qty-reverse b.bids)
        ∙ ap (λ n. n +ℤ q) (+ℤ_comm _ _))
