-- ===== src/Orderbook/Insert.antt =====
-- `insert_order`: where an order is put, and that a valid book stays valid.
use quickstructs.Prelude.{
  ◌≡◌, refl, ap, ◌≢◌, Bool, true, false, List, [], ◌∷◌, ◌++◌, All, AllPairs, All-map, All-zip, sym,
  ℤ, ◌<ℤ◌, ◌≤ℤ◌, ltb_ℤ_iff, if◌then◌else◌, arith, Bool-cases, inl, inr,
}
use quickstructs.Orderbook.{Order, Book, insert_side, insert_order, is_dupe, less, greater}
use quickstructs.Orderbook.Valid.{
  IsStrictOrder, IsSorted, OtherId, IsResting, IsValid, less-IsStrictOrder, greater-IsStrictOrder,
}

module _ (before : ℤ → ℤ → Bool) where
  pub insert_side-cons :
      (x : Order) (xs : List Order) (o : Order)
      → insert_side before (x ∷ xs) o
        ≡ (if before x.level o.level then x ∷ insert_side before xs o else o ∷ x ∷ xs)
  unfolding insert_side
  insert_side-cons x xs o = ground arith

  insert_side-All {κ} :
      (P : Order → Type κ) (o : Order) (xs : List Order)
      → P o
      → All P xs
      → All P (insert_side before xs o)
  insert_side-All P o [] p h = unfold insert_side in (p, tt)
  insert_side-All P o (x ∷ xs) p h =
      rw insert_side-cons (elim (Bool-cases (before x.level o.level)) [
        | inl e ↦ rw e (h.0, insert_side-All P o xs p h.1)
        | inr e ↦ rw e (p, h)
      ])

  insert_side-AllPairs {κ} :
      (R : Order → Order → Type κ) (o : Order) (xs : List Order)
      → All (R o) xs
      → All (λ x. R x o) xs
      → AllPairs R xs
      → AllPairs R (insert_side before xs o)
  insert_side-AllPairs R o [] l r h = unfold insert_side in (tt, tt)
  insert_side-AllPairs R o (x ∷ xs) l r h =
      rw insert_side-cons (elim (Bool-cases (before x.level o.level)) [
        | inl e ↦ rw e (insert_side-All (R x) o xs r.0 h.0, insert_side-AllPairs R o xs l.1 r.1 h.1)
        | inr e ↦ rw e (l, h)
      ])

  module _ (strict : IsStrictOrder before) where
    -- The levels from the first one that does not come before `o` on do not either.
    stays_behind :
        (o x : Order) (xs : List Order)
        → before x.level o.level ≡ false
        → All (λ y. before y.level x.level ≡ false) xs
        → All (λ y. before y.level o.level ≡ false) (x ∷ xs)
    stays_behind o x xs e h =
        (e, All-map _ _ (λ y k. strict.negative_trans y.level x.level o.level k e) xs h)

    insert_side-IsSorted :
        (o : Order) (xs : List Order)
        → IsSorted before xs
        → IsSorted before (insert_side before xs o)
    insert_side-IsSorted o [] h = unfold insert_side in (tt, tt)
    insert_side-IsSorted o (x ∷ xs) h =
        rw insert_side-cons (elim (Bool-cases (before x.level o.level)) [
          | inl e ↦ rw e (
            insert_side-All (λ y. before y.level x.level ≡ false) o xs (strict.asym _ _ e) h.0,
            insert_side-IsSorted o xs h.1,
          )
          | inr e ↦ rw e (stays_behind o x xs e h.0, h)
        ])

    -- The order goes behind every order whose level comes before its own, and in front of all others.
    insert_side_position :
        (o : Order) (xs : List Order)
        → IsSorted before xs
        → (front back : List Order) × (xs ≡ front ++ back)
          × (insert_side before xs o ≡ front ++ o ∷ back)
          × All (λ x. before x.level o.level ≡ true) front
          × All (λ x. before x.level o.level ≡ false) back
    insert_side_position o [] h = ([], [], refl, unfold insert_side in refl, tt, tt)
    insert_side_position o (x ∷ xs) h = elim (Bool-cases (before x.level o.level)) [
      | inl e ↦
          let (front, back, split, put, f, b) = insert_side_position o xs h.1 in
          (x ∷ front, back, ap (◌∷◌ x) split, rw (insert_side-cons, e) (ap (◌∷◌ x) put), (e, f), b)
      | inr e ↦ ([], x ∷ xs, refl, rw (insert_side-cons, e), tt, stays_behind o x xs e h.0)
    ]

module _ {b : Book} (v : IsValid b) (o : Order) where
  flip_ids : (xs : List Order) → All (λ x. x.id ≢ o.id) xs → All (OtherId o) xs
  flip_ids = All-map (λ x. x.id ≢ o.id) (OtherId o) (λ x n e. n (sym e))

  module _ (no_bid : All (λ x. x.id ≢ o.id) b.bids) (no_ask : All (λ x. x.id ≢ o.id) b.asks) where
    pub insert_bid-IsValid :
        IsResting true o
        → All (λ y. o.level <ℤ y.level) b.asks
        → IsValid (record b { bids = insert_side less b.bids o })
    insert_bid-IsValid r below = record {
      bids_sorted = insert_side-IsSorted less less-IsStrictOrder o b.bids v.bids_sorted;
      asks_sorted = v.asks_sorted;
      bids_rest = insert_side-All less (IsResting true) o b.bids r v.bids_rest;
      asks_rest = v.asks_rest;
      bids_distinct =
          insert_side-AllPairs less OtherId o b.bids (flip_ids b.bids no_bid) no_bid
            v.bids_distinct;
      asks_distinct = v.asks_distinct;
      distinct =
          insert_side-All less (λ x. All (OtherId x) b.asks) o b.bids (flip_ids b.asks no_ask)
            v.distinct;
      uncrossed =
          insert_side-All less (λ x. All (λ y. x.level <ℤ y.level) b.asks) o b.bids below
            v.uncrossed;
    }

    pub insert_ask-IsValid :
        IsResting false o
        → All (λ x. x.level <ℤ o.level) b.bids
        → IsValid (record b { asks = insert_side greater b.asks o })
    insert_ask-IsValid r above = record {
      bids_sorted = v.bids_sorted;
      asks_sorted = insert_side-IsSorted greater greater-IsStrictOrder o b.asks v.asks_sorted;
      bids_rest = v.bids_rest;
      asks_rest = insert_side-All greater (IsResting false) o b.asks r v.asks_rest;
      bids_distinct = v.bids_distinct;
      asks_distinct =
          insert_side-AllPairs greater OtherId o b.asks (flip_ids b.asks no_ask) no_ask
            v.asks_distinct;
      distinct = each OtherId v.distinct no_bid;
      uncrossed = each (λ x y. x.level <ℤ y.level) v.uncrossed above;
    }
      where
        each :
            (R : Order → Order → Type 0)
            → All (λ x. All (R x) b.asks) b.bids
            → All (λ x. R x o) b.bids
            → All (λ x. All (R x) (insert_side greater b.asks o)) b.bids
        each R h k =
            All-map (λ x. All (R x) b.asks × R x o) _
              (λ x p. insert_side-All greater (R x) o b.asks p.1 p.0) b.bids
              (All-zip (λ x. All (R x) b.asks) (λ x. R x o) b.bids h k)

-- An order with a new id goes to its own side.
pub insert_order-new :
    (b : Book) (o : Order)
    → is_dupe b o ≡ false
    → insert_order b o ≡ (
        if o.is_buy
        then record b { bids = insert_side less b.bids o }
        else record b { asks = insert_side greater b.asks o })
unfolding insert_order
insert_order-new b o h = rw h

-- `ys` is `xs` with `o` between the orders of which `Worse` holds and those of which `Better` holds.
abbrev pub Between : (Order → Type 0) → (Order → Type 0) → Order → List Order → List Order → Type 0
Between Worse Better o xs ys =
    (front back : List Order) × (xs ≡ front ++ back)
    × (ys ≡ front ++ o ∷ back)
    × All Worse front
    × All Better back

-- The back of a side is matched first: behind a new bid are the bids that pay as much or more, and
-- behind a new ask are the asks that want as much or less.
abbrev pub Placed : Bool → Book → Order → Book → Type 0
Placed true b o b' =
    Between (λ x. x.level <ℤ o.level) (λ x. o.level ≤ℤ x.level) o b.bids b'.bids
    × (b'.asks ≡ b.asks)
Placed false b o b' =
    Between (λ x. o.level <ℤ x.level) (λ x. x.level ≤ℤ o.level) o b.asks b'.asks
    × (b'.bids ≡ b.bids)

insert_either :
    (is_buy : Bool) (o : Order) (b : Book)
    → IsValid b
    → Placed is_buy b o (
        if is_buy
        then record b { bids = insert_side less b.bids o }
        else record b { asks = insert_side greater b.asks o })
insert_either true o b v =
    let (front, back, split, put, f, g) =
      insert_side_position less less-IsStrictOrder o b.bids v.bids_sorted in
    (
      (
        front,
        back,
        split,
        put,
        All-map _ _ (λ x e. (ltb_ℤ_iff x.level o.level).0 e) front f,
        All-map _ _ (λ x e. ground arith) back g,
      ),
      refl,
    )
insert_either false o b v =
    let (front, back, split, put, f, g) =
      insert_side_position greater greater-IsStrictOrder o b.asks v.asks_sorted in
    (
      (
        front,
        back,
        split,
        put,
        All-map _ _ (λ x e. (ltb_ℤ_iff o.level x.level).0 e) front f,
        All-map _ _ (λ x e. ground arith) back g,
      ),
      refl,
    )

-- On a valid book insert_order puts an order with a new id on its own side, in front of all orders of
-- a better level or of its own level, which are matched before it, and behind all orders of a worse
-- level; the other side stays.
pub insert_order-Placed :
    (b : Book) (o : Order)
    → IsValid b
    → is_dupe b o ≡ false
    → Placed o.is_buy b o (insert_order b o)
insert_order-Placed b o v new = rw (insert_order-new b o new) (insert_either o.is_buy o b v)
