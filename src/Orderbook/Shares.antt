-- ===== src/Orderbook/Shares.antt =====
-- What one order trades in a call of `AddOrder`, and what of it stays open.
use quickstructs.Prelude.{
  ℕ, ◌≡◌, refl, ap, ap₂, ◌∙◌, Bool, true, false, List, [], ◌∷◌, ◌++◌, reverse, reverse-cons, ℤ, pos,
  pos_part, neg_part, ◌≤ℤ◌, ◌-ℤ◌, ◌+ℤ◌, ltb_ℤ, leb_ℤ, arith, int_laws, Bool-cases, inl, inr,
  if◌then◌else◌, ◌==◌,
}
use quickstructs.Orderbook.{
  Order, Trade, Book, set_qty, make_order, make_trade, matches, add_order, insert_side, is_dupe,
}
use quickstructs.Orderbook.Shrink.{Shrunk-refl}
use quickstructs.Orderbook.Insert.{insert_order-new, insert_side-cons}
use quickstructs.Orderbook.Invariant.{
  add_order-eq, add_order_trades, add_order-dupe, left_side, left_qty, left_side-Shrunk, still_new,
}
use quickstructs.Orderbook.Sweep.{sweep}

-- The quantity `n` if it is of the id `i`.
unfoldable pub share : ℕ → ℕ → ℤ → ℤ
share i j n = if j == i then n else pos 0

-- A quantity that can be traded.
unfoldable pub open_part : ℤ → ℤ
open_part q = if ltb_ℤ (pos 0) q then q else pos 0

-- What the order `i` trades, as the buyer or the seller, and what is open of it.
abbrev pub traded_of : ℕ → List Trade → ℤ
traded_of i [] = pos 0
traded_of i (t ∷ ts) = share i t.order_id_a t.size +ℤ share i t.order_id_b t.size +ℤ traded_of i ts

abbrev pub open_of : ℕ → List Order → ℤ
open_of i [] = pos 0
open_of i (o ∷ os) = share i o.id o.qty +ℤ open_of i os

abbrev pub book_of : ℕ → Book → ℤ
book_of i b = open_of i b.bids +ℤ open_of i b.asks

module _ (i : ℕ) where
  open_of-append : (xs ys : List Order) → open_of i (xs ++ ys) ≡ open_of i xs +ℤ open_of i ys
  open_of-append [] ys = omega int_laws
  open_of-append (x ∷ xs) ys = let ih = open_of-append xs ys in rw ih (omega int_laws)

  open_of-reverse : (xs : List Order) → open_of i (reverse xs) ≡ open_of i xs
  open_of-reverse [] = refl
  open_of-reverse (x ∷ xs) = rw (reverse-cons, open_of-append, open_of-reverse xs) (omega int_laws)

  open_of-insert_side :
      (before : ℤ → ℤ → Bool) (o : Order) (xs : List Order)
      → open_of i (insert_side before xs o) ≡ share i o.id o.qty +ℤ open_of i xs
  open_of-insert_side before o [] = unfold insert_side in refl
  open_of-insert_side before o (x ∷ xs) =
      rw insert_side-cons (elim (Bool-cases (before x.level o.level)) [
        | inl e ↦ rw (e, open_of-insert_side before o xs) (omega int_laws)
        | inr e ↦ rw e
      ])

  -- A trade is a share of both orders.
  make_trade-share :
      (inc x : Order) (n : ℤ)
      → let t = make_trade inc x n in
        share i t.order_id_a t.size +ℤ share i t.order_id_b t.size
        ≡ share i inc.id n +ℤ share i x.id n
  unfolding share
  make_trade-share inc x n = elim (Bool-cases inc.is_buy) [
    | inl e ↦ rw e refl
    | inr e ↦ rw e (omega int_laws)
  ]

  share-sub : (j : ℕ) (a b : ℤ) → share i j (a -ℤ b) ≡ share i j a -ℤ share i j b
  unfolding share
  share-sub j a b = elim (Bool-cases (j == i)) [ inl e ↦ rw e refl | inr e ↦ rw e (omega int_laws) ]

  share-zero : (j : ℕ) → share i j (pos 0) ≡ pos 0
  unfolding share
  share-zero j = ground arith

  whole_step :
      (p x pq t s r o : ℤ) → t +ℤ s +ℤ r ≡ o +ℤ (pq -ℤ p) → p +ℤ x +ℤ t +ℤ s +ℤ r ≡ x +ℤ o +ℤ pq
  whole_step p x pq t s r o h = omega (int_laws, ap pos_part h, ap neg_part h)

  part_step : (p x y o : ℤ) → p +ℤ y +ℤ pos 0 +ℤ (x -ℤ y +ℤ o) +ℤ pos 0 ≡ x +ℤ o +ℤ p
  part_step p x y o = omega int_laws

  open_rest : (q n : ℤ) → leb_ℤ n q ≡ true → open_part (q -ℤ n) ≡ q -ℤ n
  unfolding open_part
  open_rest q n l = elim (Bool-cases (ltb_ℤ (pos 0) (q -ℤ n))) [
    | inl e ↦ rw e refl
    | inr e ↦
        rw e (
          let a : q -ℤ n ≤ℤ pos 0 = ground arith in let b : n ≤ℤ q = ground arith in omega int_laws)
  ]

  open_part_all : (q : ℤ) → ltb_ℤ (pos 0) q ≡ true → open_part q ≡ q
  unfolding open_part
  open_part_all q e = rw e refl

  open_part_zero : open_part (pos 0) ≡ pos 0
  unfolding open_part
  open_part_zero = refl

  -- What a sweep trades of the order `i` is what it takes from it.
  sweep-share :
      (inc : Order) (q : ℤ) (xs : List Order)
      → let m = sweep inc q xs in
        traded_of i m.trades +ℤ open_of i m.side +ℤ share i inc.id (open_part m.remaining)
        ≡ open_of i xs +ℤ share i inc.id (open_part q)
  unfolding sweep
  sweep-share inc q [] = omega int_laws
  sweep-share inc q (x ∷ xs) = elim (Bool-cases (ltb_ℤ (pos 0) q)) [
    | inr none_left ↦ rw none_left (omega int_laws)
    | inl some_left ↦ elim (Bool-cases (matches inc x)) [
      | inr stop ↦ rw (some_left, stop) (omega int_laws)
      | inl go ↦ elim (Bool-cases (leb_ℤ x.qty q)) [
        | inl whole ↦
            let next = sweep inc (q -ℤ x.qty) xs in
            let ih =
              sweep-share inc (q -ℤ x.qty) xs
              ∙ ap (λ n. open_of i xs +ℤ share i inc.id n) (open_rest q x.qty whole)
              ∙ ap (λ n. open_of i xs +ℤ n) (share-sub inc.id q x.qty) in
            rw (open_part_all q some_left, some_left, go, whole)
              (ap
                  (λ n.
                    n
                    +ℤ traded_of i next.trades
                    +ℤ open_of i next.side
                    +ℤ share i inc.id (open_part next.remaining))
                  (make_trade-share inc x x.qty)
                ∙ whole_step _ _ _ _ _ _ _ ih)
        | inr p ↦
            rw (open_part_all q some_left, some_left, go, p)
              (ap
                  (λ n.
                    n
                    +ℤ pos 0
                    +ℤ (share i x.id (x.qty -ℤ q) +ℤ open_of i xs)
                    +ℤ share i inc.id (open_part (pos 0)))
                  (make_trade-share inc x q)
                ∙ ap₂
                    (λ n z. share i inc.id q +ℤ share i x.id q +ℤ pos 0 +ℤ (n +ℤ open_of i xs) +ℤ z)
                    (share-sub x.id x.qty q)
                    (ap (share i inc.id) open_part_zero ∙ share-zero inc.id)
                ∙ part_step _ _ _ _)
      ]
    ]
  ]

  open_part_none : (q : ℤ) → ltb_ℤ (pos 0) q ≡ false → open_part q ≡ pos 0
  unfolding open_part
  open_part_none q e = rw e refl

  -- The open part of the order `i` behind `AddOrder`: on the side not swept, with what rests of the
  -- incoming order, and on the swept side.
  rested_bid :
      (b : Book) (j : ℕ) (l q : ℤ)
      → is_dupe b (make_order j l true q) ≡ false
      → let inc = make_order j l true q in
        book_of i (add_order b inc).1
        ≡ share i j (open_part (left_qty inc b.asks))
          +ℤ open_of i b.bids
          +ℤ open_of i (sweep inc q (reverse b.asks)).side
  rested_bid b j l q new =
      rw (add_order-eq b inc new) (elim (Bool-cases (ltb_ℤ (pos 0) (left_qty inc b.asks))) [
        | inl more ↦ rw (
          open_part_all (left_qty inc b.asks) more,
          more,
          insert_order-new c (set_qty inc (left_qty inc b.asks)) id,
          open_of-insert_side,
          open_of-reverse,
        )
        | inr done ↦
            rw (open_part_none (left_qty inc b.asks) done, share-zero j, done, open_of-reverse)
              (omega int_laws)
      ])
    where
      inc : Order
      inc = make_order j l true q

      c : Book
      c = record b { asks = left_side inc b.asks }

      open (still_new b j new {c = c} (Shrunk-refl b.bids) (left_side-Shrunk inc b.asks)) use {id}

  rested_ask :
      (b : Book) (j : ℕ) (l q : ℤ)
      → is_dupe b (make_order j l false q) ≡ false
      → let inc = make_order j l false q in
        book_of i (add_order b inc).1
        ≡ share i j (open_part (left_qty inc b.bids))
          +ℤ open_of i b.asks
          +ℤ open_of i (sweep inc q (reverse b.bids)).side
  rested_ask b j l q new =
      rw (add_order-eq b inc new) (elim (Bool-cases (ltb_ℤ (pos 0) (left_qty inc b.bids))) [
        | inl more ↦
            rw
              (
                open_part_all (left_qty inc b.bids) more,
                more,
                insert_order-new c (set_qty inc (left_qty inc b.bids)) id,
                open_of-insert_side,
                open_of-reverse,
              )
              (swap_sum _ _)
        | inr done ↦
            rw (open_part_none (left_qty inc b.bids) done, share-zero j, done, open_of-reverse)
              (omega int_laws)
      ])
    where
      inc : Order
      inc = make_order j l false q

      c : Book
      c = record b { bids = left_side inc b.bids }

      swap_sum : (x y : ℤ) → x +ℤ y ≡ y +ℤ x
      swap_sum x y = omega int_laws

      open (still_new b j new {c = c} (left_side-Shrunk inc b.bids) (Shrunk-refl b.asks)) use {id}

  account : (t r s o p y : ℤ) → t +ℤ s +ℤ r ≡ o +ℤ p → t +ℤ (r +ℤ y +ℤ s) ≡ y +ℤ o +ℤ p
  account t r s o p y h = omega (int_laws, ap pos_part h, ap neg_part h)

  account_ask : (t r s o p y : ℤ) → t +ℤ s +ℤ r ≡ o +ℤ p → t +ℤ (r +ℤ y +ℤ s) ≡ o +ℤ y +ℤ p
  account_ask t r s o p y h = omega (int_laws, ap pos_part h, ap neg_part h)

  -- The quantity that a call offers of the order `i`.
  abbrev pub offered : Book → Order → ℤ
  offered b inc = if is_dupe b inc then pos 0 else share i inc.id (open_part inc.qty)

  -- Of each order, what a call of `AddOrder` trades and what is open behind it are what was open before
  -- it and what it offers.
  pub add_order-share :
      (b : Book) (j : ℕ) (l : ℤ) (buying : Bool) (q : ℤ)
      → let inc = make_order j l buying q in
        traded_of i (add_order b inc).0 +ℤ book_of i (add_order b inc).1
        ≡ book_of i b +ℤ offered b inc
  add_order-share b j l true q =
      let inc = make_order j l true q in
      elim (Bool-cases (is_dupe b inc)) [
        | inl dupe ↦ rw (add_order-dupe b inc dupe, dupe) (omega int_laws)
        | inr new ↦
            rw (add_order_trades b inc new, rested_bid b j l q new, new)
              (account _ _ _ _ _ (open_of i b.bids) (
                sweep-share inc q (reverse b.asks)
                ∙ ap (λ n. n +ℤ share i j (open_part q)) (open_of-reverse b.asks)))
      ]
  add_order-share b j l false q =
      let inc = make_order j l false q in
      elim (Bool-cases (is_dupe b inc)) [
        | inl dupe ↦ rw (add_order-dupe b inc dupe, dupe) (omega int_laws)
        | inr new ↦
            rw (add_order_trades b inc new, rested_ask b j l q new, new)
              (account_ask _ _ _ _ _ (open_of i b.asks) (
                sweep-share inc q (reverse b.bids)
                ∙ ap (λ n. n +ℤ share i j (open_part q)) (open_of-reverse b.bids)))
      ]
