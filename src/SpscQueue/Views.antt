-- ===== src/SpscQueue/Views.antt =====
-- What a thread knows of the other one's counter, whatever store its loads give.
use quickstructs.Prelude.{
  ℕ, zero, suc, ◌+◌, ◌%◌, ◌≤◌, ◌<◌, ◌≡◌, refl, sym, ap, ◌∙◌, List, [], ◌∷◌, ◌++◌, length,
  length-append, leb, arith, Bool-cases, inl, inr,
}
use native.Mathlib.Decide.{dec_lt}
use quickstructs.SpscQueue.{
  word, inc, capacity, Stores, value_at, newest, load_index, start_stores, see_tail, see_head,
  store_head, store_tail,
}
use quickstructs.SpscQueue.Words.{inc-word}

value_at-append :
    (vs : List ℕ) (v i : ℕ) → i < length vs → value_at (vs ++ v ∷ []) i ≡ value_at vs i
value_at-append [] v i l = absurd (omega arith)
value_at-append (u ∷ us) v zero l = refl
value_at-append (u ∷ us) v (suc i) l = value_at-append us v i (omega arith)

value_at-last : (vs : List ℕ) (v : ℕ) → value_at (vs ++ v ∷ []) (length vs) ≡ v
value_at-last [] v = refl
value_at-last (u ∷ us) v = value_at-last us v

pub load_index_bounds :
    (vs : List ℕ) (seen age : ℕ)
    → seen ≤ newest vs
    → (seen ≤ load_index vs seen age) × (load_index vs seen age ≤ newest vs)
unfolding load_index
load_index_bounds vs seen age l = elim (Bool-cases (leb (seen + age) (newest vs))) [
  | inl e ↦ rw e (ground arith)
  | inr e ↦ rw e (omega arith, l)
]

-- The stores of a counter that was counted up to `n`.
pub record CountsTo (n : ℕ) (vs : List ℕ) : Type 0 where
  pub size_is : length vs ≡ suc n
  pub values : (i : ℕ) → i ≤ n → value_at vs i ≡ i % word

pub store-CountsTo :
    (n : ℕ) (vs : List ℕ) (h : ℕ)
    → h ≡ n % word
    → CountsTo n vs
    → CountsTo (suc n) (vs ++ inc h ∷ [])
store-CountsTo n vs h e c = record {
  size_is = omega (arith, c.size_is, length-append vs (inc h ∷ []));
  values = λ i l. elim (dec_lt i (suc n)) [
    | yes b ↦ value_at-append vs (inc h) i (omega (arith, c.size_is)) ∙ c.values i (omega arith)
    | no b ↦
        let e2 : i ≡ suc n = omega arith in
        rw (e2, sym c.size_is)
          (value_at-last vs (inc h)
            ∙ ap inc e
            ∙ inc-word n
            ∙ ap (λ m. m % word) (let f : n + 1 ≡ length vs = omega (arith, c.size_is) in f))
  ];
}

-- `n` pushes and `m` pops are published. Each thread has seen a store of the other's counter that is
-- new enough for what it did since.
pub record IsSeen (k : ℕ) (s : Stores) (n m : ℕ) : Type 0 where
  pub heads_are : CountsTo n s.heads
  pub tails_are : CountsTo m s.tails
  pub head_le : s.seen_head ≤ n
  pub popped_le : m ≤ s.seen_head
  pub tail_le : s.seen_tail ≤ m
  pub pushed_le : n ≤ s.seen_tail + capacity k

pub start-IsSeen : (k : ℕ) → IsSeen k start_stores 0 0
start-IsSeen k = record {
  heads_are = record { size_is = refl; values = λ i l. (let e : i ≡ 0 = omega arith in rw e refl) };
  tails_are = record { size_is = refl; values = λ i l. (let e : i ≡ 0 = omega arith in rw e refl) };
  head_le = omega arith;
  popped_le = omega arith;
  tail_le = omega arith;
  pushed_le = omega arith;
}

module _ {k : ℕ} {s : Stores} {n m : ℕ} (v : IsSeen k s n m) where
  pub see_tail-IsSeen : (age : ℕ) → IsSeen k (see_tail age s) n m
  see_tail-IsSeen age =
      let b =
        load_index_bounds s.tails s.seen_tail age (omega (arith, v.tail_le, v.tails_are.size_is)) in
      record {
        heads_are = v.heads_are;
        tails_are = v.tails_are;
        head_le = v.head_le;
        popped_le = v.popped_le;
        tail_le = omega (arith, b, v.tails_are.size_is);
        pushed_le = omega (arith, b, v.pushed_le);
      }

  pub see_head-IsSeen : (age : ℕ) → IsSeen k (see_head age s) n m
  see_head-IsSeen age =
      let b =
        load_index_bounds s.heads s.seen_head age (omega (arith, v.head_le, v.heads_are.size_is)) in
      record {
        heads_are = v.heads_are;
        tails_are = v.tails_are;
        head_le = omega (arith, b, v.heads_are.size_is);
        popped_le = omega (arith, b, v.popped_le);
        tail_le = v.tail_le;
        pushed_le = v.pushed_le;
      }

  pub store_head-IsSeen :
      (h : ℕ)
      → h ≡ n % word
      → n < s.seen_tail + capacity k
      → IsSeen k (store_head (inc h) s) (suc n) m
  store_head-IsSeen h e l = record {
    heads_are = store-CountsTo n s.heads h e v.heads_are;
    tails_are = v.tails_are;
    head_le = omega (arith, v.head_le);
    popped_le = v.popped_le;
    tail_le = v.tail_le;
    pushed_le = omega arith;
  }

  pub store_tail-IsSeen :
      (t : ℕ) → t ≡ m % word → m < s.seen_head → IsSeen k (store_tail (inc t) s) n (suc m)
  store_tail-IsSeen t e l = record {
    heads_are = v.heads_are;
    tails_are = store-CountsTo m s.tails t e v.tails_are;
    head_le = v.head_le;
    popped_le = omega arith;
    tail_le = omega (arith, v.tail_le);
    pushed_le = v.pushed_le;
  }
