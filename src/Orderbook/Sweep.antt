-- ===== src/Orderbook/Sweep.antt =====
-- The loop of `AddOrder` against a recursion on the opposite side, read from its best order on.
use quickstructs.Prelude.{
  ℕ, zero, suc, ◌≡◌, refl, sym, ap, ◌∙◌, true, false, ◌&&◌, none, some, List, [], ◌∷◌, ◌++◌,
  append-nil, append_assoc, reverse, reverse-reverse, reverse-cons, length, length-reverse,
  back?-concat, pop_back-concat, set_back-concat, ℤ, pos, ◌-ℤ◌, ltb_ℤ, leb_ℤ, sub_self,
  eqb_sub_of_gt, eqb_sub_self, if◌then◌else◌, arith, Bool-cases, inl, inr, ◌<◌,
}
use quickstructs.Orderbook.{
  Order, Trade, Book, Matching, set_qty, make_trade, matches, fill, match_step, match_loop,
  run_matching, opposite_side,
}

-- Trade with the orders from the best on: take each whole while the quantity lasts, then a part of
-- one.
unfoldable pub sweep : Order → ℤ → List Order → Matching
sweep inc q [] = record { side = []; remaining = q; trades = [] }
sweep inc q (best ∷ rest) =
    let next = sweep inc (q -ℤ best.qty) rest in
    if ltb_ℤ (pos 0) q && matches inc best
    then (if leb_ℤ best.qty q
        then record next { trades = make_trade inc best best.qty ∷ next.trades }
        else record {
          side = set_qty best (best.qty -ℤ q) ∷ rest;
          remaining = pos 0;
          trades = make_trade inc best q ∷ [];
        })
    else record { side = best ∷ rest; remaining = q; trades = [] }

-- What a sweep of the best-first list says of the vector.
abbrev pub after : List Trade → Matching → Matching
after ts m = record { side = reverse m.side; remaining = m.remaining; trades = ts ++ m.trades }

fill-whole :
    (inc best : Order) (rest : List Order) (q : ℤ) (ts : List Trade)
    → leb_ℤ best.qty q ≡ true
    → fill inc best (record { side = rest ++ best ∷ []; remaining = q; trades = ts }) ≡ record {
      side = rest;
      remaining = q -ℤ best.qty;
      trades = ts ++ make_trade inc best best.qty ∷ [];
    }
unfolding fill
fill-whole inc best rest q ts h =
    ground (arith, pop_back-concat rest best, eqb_sub_self best.qty, sub_self best.qty)

fill-part :
    (inc best : Order) (rest : List Order) (q : ℤ) (ts : List Trade)
    → leb_ℤ best.qty q ≡ false
    → fill inc best (record { side = rest ++ best ∷ []; remaining = q; trades = ts }) ≡ record {
      side = rest ++ set_qty best (best.qty -ℤ q) ∷ [];
      remaining = pos 0;
      trades = ts ++ make_trade inc best q ∷ [];
    }
unfolding fill
fill-part inc best rest q ts h = ground (
  arith,
  set_back-concat rest best (set_qty best (best.qty -ℤ q)),
  sub_self q,
  eqb_sub_of_gt best.qty q h,
)

-- One round at a vector whose last order is `best`.
match_step-concat :
    (inc best : Order) (rest : List Order) (q : ℤ) (ts : List Trade)
    → match_step inc (record { side = rest ++ best ∷ []; remaining = q; trades = ts }) ≡ (
        if ltb_ℤ (pos 0) q && matches inc best
        then some (fill inc best (record { side = rest ++ best ∷ []; remaining = q; trades = ts }))
        else none)
unfolding match_step
match_step-concat inc best rest q ts = ground (arith, back?-concat rest best)

-- With nothing left the loop stops.
match_loop-zero :
    (f : ℕ) (inc : Order) (side : List Order) (ts : List Trade)
    → match_loop f inc (record { side = side; remaining = pos 0; trades = ts })
      ≡ record { side = side; remaining = pos 0; trades = ts }
unfolding match_loop match_step
match_loop-zero zero inc side ts = refl
match_loop-zero (suc f) inc side ts = ground arith

match_loop-sweep :
    (f : ℕ) (inc : Order) (xs : List Order) (q : ℤ) (ts : List Trade)
    → length xs < f
    → match_loop f inc (record { side = reverse xs; remaining = q; trades = ts })
      ≡ after ts (sweep inc q xs)
unfolding match_loop sweep
match_loop-sweep zero inc xs q ts h = absurd (omega arith)
match_loop-sweep (suc f) inc [] q ts h = rw append-nil (unfold match_step in refl)
match_loop-sweep (suc f) inc (x ∷ xs) q ts h =
    rw reverse-cons (elim (Bool-cases (ltb_ℤ (pos 0) q && matches inc x)) [
      | inr stop ↦
          ground
            (arith, match_step-concat inc x (reverse xs) q ts, append-nil ts, reverse-cons x xs)
      | inl go ↦ elim (Bool-cases (leb_ℤ x.qty q)) [
        | inl whole ↦ ground (
          arith,
          match_step-concat inc x (reverse xs) q ts,
          fill-whole inc x (reverse xs) q ts whole,
          match_loop-sweep f inc xs (q -ℤ x.qty) (ts ++ make_trade inc x x.qty ∷ []),
          append_assoc ts (make_trade inc x x.qty ∷ []) (sweep inc (q -ℤ x.qty) xs).trades,
        )
        | inr part ↦ ground (
          arith,
          match_step-concat inc x (reverse xs) q ts,
          fill-part inc x (reverse xs) q ts part,
          match_loop-zero f inc (reverse xs ++ set_qty x (x.qty -ℤ q) ∷ [])
              (ts ++ make_trade inc x q ∷ []),
          reverse-cons (set_qty x (x.qty -ℤ q)) xs,
        )
      ]
    ])

-- `AddOrder`'s loop does what the sweep of the opposite side does, and its fuel is enough: the
-- vector it leaves is the sweep's rest in index order, with the same trades and quantity.
pub run_matching-sweep :
    (b : Book) (inc : Order)
    → run_matching b inc ≡ after [] (sweep inc inc.qty (reverse (opposite_side b inc)))
unfolding run_matching
run_matching-sweep b inc =
    let side = opposite_side b inc in
    ap
      (λ s.
        match_loop (suc (length side)) inc (record { side = s; remaining = inc.qty; trades = [] }))
      (sym (reverse-reverse side))
    ∙ match_loop-sweep (suc (length side)) inc (reverse side) inc.qty []
        (omega (arith, length-reverse side))
