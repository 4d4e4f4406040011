-- ===== src/Orderbook/Shrink.antt =====
-- What `AddOrder` and `CancelOrder` take out of a side: orders go or lose quantity, nothing else.
use quickstructs.Prelude.{
  ℕ, ◌≡◌, refl, ap, sym, subst₂, Bool, true, false, ◌&&◌, none, some, List, [], ◌∷◌, ◌++◌, reverse,
  reverse-cons, All, AllPairs, ℤ, pos, ◌≤ℤ◌, ◌<ℤ◌, ltb_ℤ, leb_ℤ, ◌-ℤ◌, if◌then◌else◌, arith,
  int_laws, Bool-cases, inl, inr, ◌==◌, All-map,
}
use quickstructs.Orderbook.{Order, Book, set_qty, matches, find_erase, any_id, cancel_order}
use quickstructs.Orderbook.Valid.{IsResting, IsValid, OtherId}
use quickstructs.Orderbook.Sweep.{sweep}

-- `Shrunk xs ys`: `ys` is `xs` with some orders gone and the quantities of some reduced, not to zero.
pub data Shrunk : List Order → List Order → Type 0 where
  nil : Shrunk [] []
  keep : {xs ys : List Order} (x : Order) → Shrunk xs ys → Shrunk (x ∷ xs) (x ∷ ys)
  part :
      {xs ys : List Order} (x : Order) (k : ℤ)
      → pos 0 <ℤ k
      → k ≤ℤ x.qty
      → Shrunk xs ys
      → Shrunk (x ∷ xs) (set_qty x k ∷ ys)
  gone : {xs ys : List Order} (x : Order) → Shrunk xs ys → Shrunk (x ∷ xs) ys

pub Shrunk-refl : (xs : List Order) → Shrunk xs xs
Shrunk-refl [] = nil
Shrunk-refl (x ∷ xs) = keep x (Shrunk-refl xs)

Shrunk-append :
    {us vs xs ys : List Order} → Shrunk us vs → Shrunk xs ys → Shrunk (us ++ xs) (vs ++ ys)
Shrunk-append nil t = t
Shrunk-append (keep x s) t = keep x (Shrunk-append s t)
Shrunk-append (part x k h l s) t = part x k h l (Shrunk-append s t)
Shrunk-append (gone x s) t = gone x (Shrunk-append s t)

append_nil_eq : (ys : List Order) → ys ++ [] ≡ ys
append_nil_eq [] = refl
append_nil_eq (y ∷ ys) = ap (◌∷◌ y) (append_nil_eq ys)

pub Shrunk-reverse : {xs ys : List Order} → Shrunk xs ys → Shrunk (reverse xs) (reverse ys)
Shrunk-reverse nil = nil
Shrunk-reverse (keep {xs = us} {ys = vs} x s) =
    subst₂ Shrunk (sym (reverse-cons x us)) (sym (reverse-cons x vs))
      (Shrunk-append (Shrunk-reverse s) (keep x nil))
Shrunk-reverse (part {xs = us} {ys = vs} x k h l s) =
    subst₂ Shrunk (sym (reverse-cons x us)) (sym (reverse-cons (set_qty x k) vs))
      (Shrunk-append (Shrunk-reverse s) (part x k h l nil))
Shrunk-reverse (gone {ys = ys} x s) =
    rw (reverse-cons, ← append_nil_eq (reverse ys)) (Shrunk-append (Shrunk-reverse s) (gone x nil))

-- A predicate that a smaller positive quantity keeps is kept by the whole side.
pub Shrunk-All {κ} :
    (P : Order → Type κ)
    → ((x : Order) (k : ℤ) → pos 0 <ℤ k → P x → P (set_qty x k))
    → {xs ys : List Order} → Shrunk xs ys
    → All P xs
    → All P ys
Shrunk-All P keeps nil h = tt
Shrunk-All P keeps (keep x s) h = (h.0, Shrunk-All P keeps s h.1)
Shrunk-All P keeps (part x k p l s) h = (keeps x k p h.0, Shrunk-All P keeps s h.1)
Shrunk-All P keeps (gone x s) h = Shrunk-All P keeps s h.1

-- So is a relation that reads no quantity.
pub Shrunk-AllPairs {κ} :
    (R : Order → Order → Type κ)
    → ((x y : Order) (k : ℤ) → R x y → R (set_qty x k) y)
    → ((x y : Order) (k : ℤ) → R x y → R x (set_qty y k))
    → {xs ys : List Order} → Shrunk xs ys
    → AllPairs R xs
    → AllPairs R ys
Shrunk-AllPairs R fst snd nil h = tt
Shrunk-AllPairs R fst snd (keep x s) h =
    (Shrunk-All (R x) (λ y k p. snd x y k) s h.0, Shrunk-AllPairs R fst snd s h.1)
Shrunk-AllPairs R fst snd (part {ys = ys} x k p l s) h = (
  All-map (R x) (R (set_qty x k)) (λ y. fst x y k) ys (Shrunk-All (R x) (λ y j q. snd x y j) s h.0),
  Shrunk-AllPairs R fst snd s h.1,
)
Shrunk-AllPairs R fst snd (gone x s) h = Shrunk-AllPairs R fst snd s h.1

IsResting-set_qty :
    {b : Bool} {x : Order} {k : ℤ} → pos 0 <ℤ k → IsResting b x → IsResting b (set_qty x k)
IsResting-set_qty p h = record { on_side = h.on_side; side_is = h.side_is; open_qty = p }

-- A book stays valid when its sides shrink.
pub Shrunk-IsValid :
    {b c : Book} → Shrunk b.bids c.bids → Shrunk b.asks c.asks → IsValid b → IsValid c
Shrunk-IsValid {b} {c} s t v = record {
  bids_sorted = Shrunk-AllPairs _ (λ x y k h. h) (λ x y k h. h) s v.bids_sorted;
  asks_sorted = Shrunk-AllPairs _ (λ x y k h. h) (λ x y k h. h) t v.asks_sorted;
  bids_rest = Shrunk-All (IsResting true) (λ x k p h. IsResting-set_qty p h) s v.bids_rest;
  asks_rest = Shrunk-All (IsResting false) (λ x k p h. IsResting-set_qty p h) t v.asks_rest;
  bids_distinct = Shrunk-AllPairs OtherId (λ x y k h. h) (λ x y k h. h) s v.bids_distinct;
  asks_distinct = Shrunk-AllPairs OtherId (λ x y k h. h) (λ x y k h. h) t v.asks_distinct;
  distinct = both OtherId (λ x y k h. h) (λ x y k h. h) v.distinct;
  uncrossed = both (λ x y. x.level <ℤ y.level) (λ x y k h. h) (λ x y k h. h) v.uncrossed;
}
  where
    both :
        (R : Order → Order → Type 0)
        → ((x y : Order) (k : ℤ) → R x y → R (set_qty x k) y)
        → ((x y : Order) (k : ℤ) → R x y → R x (set_qty y k))
        → All (λ x. All (R x) b.asks) b.bids
        → All (λ x. All (R x) c.asks) c.bids
    both R fst snd h =
        All-map (λ x. All (R x) b.asks) (λ x. All (R x) c.asks)
          (λ x. Shrunk-All (R x) (λ y k p. snd x y k) t) c.bids
          (Shrunk-All (λ x. All (R x) b.asks)
            (λ x k p. All-map (R x) (R (set_qty x k)) (λ y. fst x y k) b.asks) s h)

part_pos : (a q : ℤ) → leb_ℤ a q ≡ false → pos 0 <ℤ q → (pos 0 <ℤ a -ℤ q) × (a -ℤ q ≤ℤ a)
part_pos a q h p = let k : q <ℤ a = ground arith in omega int_laws

-- The sweep only takes out of the opposite side.
pub sweep-Shrunk : (inc : Order) (q : ℤ) (xs : List Order) → Shrunk xs (sweep inc q xs).side
unfolding sweep
sweep-Shrunk inc q [] = nil
sweep-Shrunk inc q (x ∷ xs) = elim (Bool-cases (ltb_ℤ (pos 0) q && matches inc x)) [
  | inr stop ↦ rw stop (Shrunk-refl (x ∷ xs))
  | inl go ↦ elim (Bool-cases (leb_ℤ x.qty q)) [
    | inl whole ↦ rw (go, whole) (gone x (sweep-Shrunk inc (q -ℤ x.qty) xs))
    | inr p ↦
        let k = part_pos x.qty q p (ground arith) in
        rw (go, p) (part x (x.qty -ℤ q) k.0 k.1 (Shrunk-refl xs))
  ]
]

-- The vector with its first order of id `i` erased.
unfoldable pub erase_id : ℕ → List Order → List Order
erase_id i [] = []
erase_id i (o ∷ os) = if o.id == i then os else o ∷ erase_id i os

-- `find_if` and `erase` together: nothing is found exactly where no order has the id.
pub find_erase-erase_id :
    (i : ℕ) (xs : List Order)
    → find_erase i xs ≡ (if any_id i xs then some (erase_id i xs) else none)
unfolding find_erase erase_id
find_erase-erase_id i [] = refl
find_erase-erase_id i (o ∷ os) = ground (arith, find_erase-erase_id i os)

pub erase_id-Shrunk : (i : ℕ) (xs : List Order) → Shrunk xs (erase_id i xs)
unfolding erase_id
erase_id-Shrunk i [] = nil
erase_id-Shrunk i (x ∷ xs) = elim (Bool-cases (x.id == i)) [
  | inl e ↦ rw e (gone x (Shrunk-refl xs))
  | inr e ↦ rw e (keep x (erase_id-Shrunk i xs))
]

-- `CancelOrder` as erasures of the id: from the bids if it is there, else from the asks.
pub cancel_order-erase_id :
    (b : Book) (i : ℕ)
    → cancel_order b i ≡ (
        if any_id i b.bids
        then record b { bids = erase_id i b.bids }
        else if any_id i b.asks
        then record b { asks = erase_id i b.asks }
        else b)
unfolding cancel_order
cancel_order-erase_id b i =
    ground (arith, find_erase-erase_id i b.bids, find_erase-erase_id i b.asks)
