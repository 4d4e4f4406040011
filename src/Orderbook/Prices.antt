-- ===== src/Orderbook/Prices.antt =====
-- Each trade of `AddOrder`: with whom, at what price and for how much.
use quickstructs.Prelude.{
  ◌≡◌, refl, subst, ◌⊎◌, true, List, [], ◌∷◌, ◌++◌, reverse, reverse-cons, reverse-reverse, All,
  All-map, All-reverse, ℤ, pos, ◌≤ℤ◌, ◌<ℤ◌, ◌-ℤ◌, ltb_ℤ, leb_ℤ, if◌then◌else◌, arith, int_laws,
  Bool-cases, inl, inr,
}
use quickstructs.Orderbook.{
  Order, Trade, Book, make_trade, matches, add_order, opposite_side, is_dupe,
}
use quickstructs.Orderbook.Valid.{IsValid}
use quickstructs.Orderbook.Invariant.{add_order_trades, add_order-dupe}
use quickstructs.Orderbook.Sweep.{sweep}

abbrev pub In : Order → List Order → Type 0
In o [] = ⊥
In o (x ∷ xs) = (o ≡ x) ⊎ In o xs

In-append_left : (o : Order) (xs ys : List Order) → In o xs → In o (xs ++ ys)
In-append_left o [] ys h = absurd h
In-append_left o (x ∷ xs) ys (inl e) = inl e
In-append_left o (x ∷ xs) ys (inr h) = inr (In-append_left o xs ys h)

In-append_right : (o : Order) (xs ys : List Order) → In o ys → In o (xs ++ ys)
In-append_right o [] ys h = h
In-append_right o (x ∷ xs) ys h = inr (In-append_right o xs ys h)

In-reverse : (o : Order) (xs : List Order) → In o xs → In o (reverse xs)
In-reverse o [] h = absurd h
In-reverse o (x ∷ xs) (inl e) = rw reverse-cons (In-append_right o (reverse xs) (x ∷ []) (inl e))
In-reverse o (x ∷ xs) (inr h) =
    rw reverse-cons (In-append_left o (reverse xs) (x ∷ []) (In-reverse o xs h))

-- `t` trades some of `incoming` against an order of `side`: for no more than either holds, at the
-- price of the selling order, which is within both limits, with the buyer's id first.
pub record Fills (incoming : Order) (side : List Order) (t : Trade) : Type 0 where
  pub resting : Order
  pub rests : In resting side
  pub some_size : pos 0 <ℤ t.size
  pub at_most_incoming : t.size ≤ℤ incoming.qty
  pub at_most_resting : t.size ≤ℤ resting.qty
  pub aggressor : t.aggressor_order_id ≡ incoming.id
  pub aggressor_side : t.aggressor_is_buy ≡ incoming.is_buy
  pub buyer : t.order_id_a ≡ (if incoming.is_buy then incoming.id else resting.id)
  pub seller : t.order_id_b ≡ (if incoming.is_buy then resting.id else incoming.id)
  pub price : t.level ≡ (if incoming.is_buy then resting.level else incoming.level)
  pub buyer_limit : t.level ≤ℤ (if incoming.is_buy then incoming.level else resting.level)

make_trade-Fills :
    (inc o : Order) (n : ℤ) (xs : List Order)
    → In o xs
    → matches inc o ≡ true
    → pos 0 <ℤ n
    → n ≤ℤ inc.qty
    → n ≤ℤ o.qty
    → Fills inc xs (make_trade inc o n)
make_trade-Fills inc o n xs h m p l k = record {
  resting = o;
  rests = h;
  some_size = p;
  at_most_incoming = l;
  at_most_resting = k;
  aggressor = refl;
  aggressor_side = refl;
  buyer = refl;
  seller = refl;
  price = refl;
  buyer_limit = ground arith;
}

Fills-cons : (inc x : Order) (xs : List Order) (t : Trade) → Fills inc xs t → Fills inc (x ∷ xs) t
Fills-cons inc x xs t f = record {
  resting = f.resting;
  rests = inr f.rests;
  some_size = f.some_size;
  at_most_incoming = f.at_most_incoming;
  at_most_resting = f.at_most_resting;
  aggressor = f.aggressor;
  aggressor_side = f.aggressor_side;
  buyer = f.buyer;
  seller = f.seller;
  price = f.price;
  buyer_limit = f.buyer_limit;
}

sweep-Fills :
    (inc : Order) (q : ℤ) (xs : List Order)
    → q ≤ℤ inc.qty
    → All (λ x. pos 0 <ℤ x.qty) xs
    → All (Fills inc xs) (sweep inc q xs).trades
unfolding sweep
sweep-Fills inc q [] h p = tt
sweep-Fills inc q (x ∷ xs) h p = elim (Bool-cases (ltb_ℤ (pos 0) q)) [
  | inr spent ↦ rw spent tt
  | inl more ↦ elim (Bool-cases (matches inc x)) [
    | inr e ↦ rw (more, e) tt
    | inl e ↦ elim (Bool-cases (leb_ℤ x.qty q)) [
      | inl whole ↦
          rw (more, e, whole)
            (
              make_trade-Fills inc x x.qty (x ∷ xs) (inl refl) e p.0 (ground arith) (omega arith),
              All-map _ _ (Fills-cons inc x xs) _
                  (sweep-Fills inc (q -ℤ x.qty) xs (let k = p.0 in omega int_laws) p.1),
            )
      | inr part ↦
          rw (more, e, part)
            (make_trade-Fills inc x q (x ∷ xs) (inl refl) e (ground arith) h (ground arith), tt)
    ]
  ]
]

Fills-reverse :
    (inc : Order) (xs : List Order) (t : Trade) → Fills inc (reverse xs) t → Fills inc xs t
Fills-reverse inc xs t f = record {
  resting = f.resting;
  rests = subst (In f.resting) (reverse-reverse xs) (In-reverse f.resting (reverse xs) f.rests);
  some_size = f.some_size;
  at_most_incoming = f.at_most_incoming;
  at_most_resting = f.at_most_resting;
  aggressor = f.aggressor;
  aggressor_side = f.aggressor_side;
  buyer = f.buyer;
  seller = f.seller;
  price = f.price;
  buyer_limit = f.buyer_limit;
}

-- Every trade of `AddOrder` on a valid book is with an order that rests on the opposite side.
pub add_order-Fills :
    (b : Book) (inc : Order) → IsValid b → All (Fills inc (opposite_side b inc)) (add_order b inc).0
add_order-Fills b inc v = elim (Bool-cases (is_dupe b inc)) [
  | inl dupe ↦ rw (add_order-dupe b inc dupe) tt
  | inr new ↦ rw (add_order_trades b inc new) (
      All-map _ _ (Fills-reverse inc xs) _
        (sweep-Fills inc inc.qty (reverse xs) (omega arith) (All-reverse _ xs opposite_open)))
]
  where
    xs : List Order
    xs = opposite_side b inc

    opposite_open : All (λ x. pos 0 <ℤ x.qty) xs
    opposite_open = elim (Bool-cases inc.is_buy) [
      | inl e ↦ rw e (All-map _ _ (λ x r. r.open_qty) b.asks v.asks_rest)
      | inr e ↦ rw e (All-map _ _ (λ x r. r.open_qty) b.bids v.bids_rest)
    ]
