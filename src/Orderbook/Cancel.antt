-- ===== src/Orderbook/Cancel.antt =====
-- `CancelOrder` removes the order of an id, wherever it rests, and nothing else.
use quickstructs.Prelude.{
  ℕ, ◌≡◌, ◌≢◌, refl, ap, true, List, [], ◌∷◌, All, All-map, AllPairs, if◌then◌else◌, arith,
  Bool-cases, inl, inr, ◌==◌, ==_iff, sym, ◌∙◌,
}
use quickstructs.Orderbook.{Order, Book, any_id, cancel_order}
use quickstructs.Orderbook.Valid.{IsValid, OtherId, any_id-eq-false}
use quickstructs.Orderbook.Shrink.{erase_id, cancel_order-erase_id}

-- The orders of a vector with another id than `i`.
abbrev pub without : ℕ → List Order → List Order
without i [] = []
without i (o ∷ os) = if o.id == i then without i os else o ∷ without i os

without_absent : (i : ℕ) (xs : List Order) → All (λ x. x.id ≢ i) xs → without i xs ≡ xs
without_absent i [] h = refl
without_absent i (x ∷ xs) h = ground (arith, ==_iff x.id i, without_absent i xs h.1)

-- Where ids are distinct, one erasure removes all orders of the id.
erase_id-without : (i : ℕ) (xs : List Order) → AllPairs OtherId xs → erase_id i xs ≡ without i xs
unfolding erase_id
erase_id-without i [] h = refl
erase_id-without i (x ∷ xs) h = elim (Bool-cases (x.id == i)) [
  | inl e ↦ rw e (
      sym (
        without_absent i xs (
          All-map (OtherId x) (λ y. y.id ≢ i) (λ y n k. n (((==_iff x.id i).0 e) ∙ sym k)) xs h.0)))
  | inr e ↦ rw e (ap (◌∷◌ x) (erase_id-without i xs h.1))
]

-- An id of a bid is the id of no ask.
bid_id_absent :
    (i : ℕ) (xs ys : List Order)
    → All (λ x. All (OtherId x) ys) xs
    → any_id i xs ≡ true
    → All (λ y. y.id ≢ i) ys
bid_id_absent i [] ys h e = absurd (ground arith)
bid_id_absent i (x ∷ xs) ys h e = elim (Bool-cases (x.id == i)) [
  | inl k ↦ All-map (OtherId x) (λ y. y.id ≢ i) (λ y n m. n ((==_iff x.id i).0 k ∙ sym m)) ys h.0
  | inr k ↦ bid_id_absent i xs ys h.1 (ground arith)
]

-- On a valid book `CancelOrder` leaves exactly the orders with another id, on both sides and in
-- their old order; if no order has the id the book is as before.
pub cancel_order-without :
    (b : Book) (i : ℕ)
    → IsValid b
    → cancel_order b i ≡ record { bids = without i b.bids; asks = without i b.asks }
cancel_order-without b i v = rw cancel_order-erase_id (elim (Bool-cases (any_id i b.bids)) [
  | inl bid ↦ rw (
    bid,
    erase_id-without i b.bids v.bids_distinct,
    without_absent i b.asks (bid_id_absent i b.bids b.asks v.distinct bid),
  )
  | inr e ↦ elim (Bool-cases (any_id i b.asks)) [
    | inl ask ↦ rw (
      e,
      ask,
      erase_id-without i b.asks v.asks_distinct,
      without_absent i b.bids (any_id-eq-false i b.bids e),
    )
    | inr f ↦ rw (
      e,
      f,
      without_absent i b.bids (any_id-eq-false i b.bids e),
      without_absent i b.asks (any_id-eq-false i b.asks f),
    )
  ]
])
