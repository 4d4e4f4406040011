-- ===== src/Orderbook/Lifetime.antt =====
-- What becomes of an order over any sequence of calls.
use quickstructs.Prelude.{
  ℕ, ◌≡◌, refl, ap, Bool, true, false, List, [], ◌∷◌, ◌++◌, ℤ, All, pos, pos_part, neg_part, ◌≤ℤ◌,
  ◌+ℤ◌, arith, int_laws, Bool-cases, inl, inr, if◌then◌else◌, ◌==◌, ==_iff,
}
use quickstructs.Orderbook.{Order, Trade, Book, make_order, add_order, cancel_order}
use quickstructs.Orderbook.Valid.{IsValid, IsResting}
use quickstructs.Orderbook.Cancel.{without, cancel_order-without}
use quickstructs.Orderbook.Invariant.{
  Call, add, cancel, run_calls, run_calls-IsValid, add_order-IsValid, cancel_order-IsValid,
}
use quickstructs.Orderbook.Shares.{share, traded_of, open_of, book_of, offered, add_order-share}

-- The trades of a sequence of calls.
abbrev pub run_trades : Book → List Call → List Trade
run_trades b [] = []
run_trades b (add i l d q ∷ cs) =
    let (ts, b') = add_order b (make_order i l d q) in ts ++ run_trades b' cs
run_trades b (cancel i ∷ cs) = run_trades (cancel_order b i) cs

-- What the calls offer of the order `i`, and what they cancel of it.
abbrev pub offers : ℕ → Book → List Call → ℤ
offers i b [] = pos 0
offers i b (add j l d q ∷ cs) =
    let o = make_order j l d q in offered i b o +ℤ offers i (add_order b o).1 cs
offers i b (cancel j ∷ cs) = offers i (cancel_order b j) cs

abbrev pub cancelled : ℕ → Book → List Call → ℤ
cancelled i b [] = pos 0
cancelled i b (add j l d q ∷ cs) = cancelled i (add_order b (make_order j l d q)).1 cs
cancelled i b (cancel j ∷ cs) =
    (if j == i then book_of i b else pos 0) +ℤ cancelled i (cancel_order b j) cs

module _ (i : ℕ) where
  traded_of-append :
      (ts us : List Trade) → traded_of i (ts ++ us) ≡ traded_of i ts +ℤ traded_of i us
  traded_of-append [] us = omega int_laws
  traded_of-append (t ∷ ts) us = let ih = traded_of-append ts us in rw ih (omega int_laws)

  share_other : (j : ℕ) (n : ℤ) → (j == i) ≡ false → share i j n ≡ pos 0
  unfolding share
  share_other j n e = rw e refl

  open_of-without_same : (xs : List Order) → open_of i (without i xs) ≡ pos 0
  open_of-without_same [] = refl
  open_of-without_same (x ∷ xs) = elim (Bool-cases (x.id == i)) [
    | inl e ↦ rw e (open_of-without_same xs)
    | inr e ↦ rw e (rw (share_other x.id x.qty e, open_of-without_same xs) (omega int_laws))
  ]

  open_of-without_other :
      (j : ℕ) (xs : List Order) → (j == i) ≡ false → open_of i (without j xs) ≡ open_of i xs
  open_of-without_other j [] ne = refl
  open_of-without_other j (x ∷ xs) ne = elim (Bool-cases (x.id == j)) [
    | inl e ↦
        let other : (x.id == i) ≡ false = ground (arith, ==_iff x.id j) in
        rw e (rw (share_other x.id x.qty other, open_of-without_other j xs ne) (omega int_laws))
    | inr e ↦ rw (e, open_of-without_other j xs ne) refl
  ]

  -- `CancelOrder` takes out all that is open of its order.
  cancel_share :
      (b : Book) (j : ℕ)
      → IsValid b
      → book_of i (cancel_order b j) +ℤ (if j == i then book_of i b else pos 0) ≡ book_of i b
  cancel_share b j v = rw (cancel_order-without b j v) (elim (Bool-cases (j == i)) [
    | inl e ↦
        let same : j ≡ i = (==_iff j i).0 e in
        rw e
          (rw same (rw (open_of-without_same b.bids, open_of-without_same b.asks) (omega int_laws)))
    | inr e ↦
        rw e
          (rw (open_of-without_other j b.bids e, open_of-without_other j b.asks e) (omega int_laws))
  ])

  share_nonneg : (j : ℕ) (n : ℤ) → pos 0 ≤ℤ n → pos 0 ≤ℤ share i j n
  unfolding share
  share_nonneg j n h = ground arith

  open_nonneg : (side : Bool) (xs : List Order) → All (IsResting side) xs → pos 0 ≤ℤ open_of i xs
  open_nonneg side [] h = omega arith
  open_nonneg side (x ∷ xs) h =
      let p = h.0.open_qty in
      let q = share_nonneg x.id x.qty (omega arith) in
      let r = open_nonneg side xs h.1 in omega int_laws

  book_nonneg : (b : Book) → IsValid b → pos 0 ≤ℤ book_of i b
  book_nonneg b v =
      let p = open_nonneg true b.bids v.bids_rest in
      let q = open_nonneg false b.asks v.asks_rest in omega int_laws

  add_step :
      (t u o c b f p g : ℤ)
      → t +ℤ p ≡ b +ℤ f
      → u +ℤ o +ℤ c ≡ p +ℤ g
      → t +ℤ u +ℤ o +ℤ c ≡ b +ℤ (f +ℤ g)
  add_step t u o c b f p g h k =
      omega (int_laws, ap pos_part h, ap neg_part h, ap pos_part k, ap neg_part k)

  cancel_step :
      (u o c b p x g : ℤ) → p +ℤ x ≡ b → u +ℤ o +ℤ c ≡ p +ℤ g → u +ℤ o +ℤ (x +ℤ c) ≡ b +ℤ g
  cancel_step u o c b p x g h k =
      omega (int_laws, ap pos_part h, ap neg_part h, ap pos_part k, ap neg_part k)

  accounts :
      (b : Book) (cs : List Call)
      → IsValid b
      → traded_of i (run_trades b cs) +ℤ book_of i (run_calls b cs) +ℤ cancelled i b cs
        ≡ book_of i b +ℤ offers i b cs
  unfolding run_calls
  accounts b [] v = omega int_laws
  accounts b (add j l d q ∷ cs) v =
      let r = add_order b (make_order j l d q) in
      rw (traded_of-append r.0 (run_trades r.1 cs)) (
        add_step _ _ _ _ _ _ _ _ (add_order-share i b j l d q)
          (accounts r.1 cs (add_order-IsValid b j l d q v)))
  accounts b (cancel j ∷ cs) v =
      cancel_step _ _ _ _ _ _ _ (cancel_share b j v)
        (accounts (cancel_order b j) cs (cancel_order-IsValid b j v))

  cancelled_nonneg : (b : Book) (cs : List Call) → IsValid b → pos 0 ≤ℤ cancelled i b cs
  cancelled_nonneg b [] v = omega arith
  cancelled_nonneg b (add j l d q ∷ cs) v =
      cancelled_nonneg (add_order b (make_order j l d q)).1 cs (add_order-IsValid b j l d q v)
  cancelled_nonneg b (cancel j ∷ cs) v =
      let h = cancelled_nonneg (cancel_order b j) cs (cancel_order-IsValid b j v) in
      let n = book_nonneg b v in
      elim (Bool-cases (j == i)) [ inl e ↦ rw e (omega int_laws) | inr e ↦ rw e (omega int_laws) ]

  at_most : (t o c r : ℤ) → pos 0 ≤ℤ o → pos 0 ≤ℤ c → t +ℤ o +ℤ c ≡ r → t ≤ℤ r
  at_most t o c r p q h = omega (int_laws, ap pos_part h, ap neg_part h)

  -- Over any sequence of calls from a valid book, all that was open and was offered under an id has been
  -- traded, is open, or was cancelled; so no order ever trades more than it was given.
  pub run_calls-accounts :
      (b : Book) (cs : List Call)
      → IsValid b
      → (traded_of i (run_trades b cs) +ℤ book_of i (run_calls b cs) +ℤ cancelled i b cs
          ≡ book_of i b +ℤ offers i b cs)
        × (traded_of i (run_trades b cs) ≤ℤ book_of i b +ℤ offers i b cs)
  run_calls-accounts b cs v = (
    accounts b cs v,
    at_most _ _ _ _ (book_nonneg (run_calls b cs) (run_calls-IsValid b cs v))
        (cancelled_nonneg b cs v) (accounts b cs v),
  )
