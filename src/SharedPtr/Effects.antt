-- ===== src/SharedPtr/Effects.antt =====
-- `release` and `add_ref` of a block that is alive, and the allocation of one, as effects.
use quickstructs.Prelude.{
  ℕ, ◌+◌, ◌-◌, ◌%◌, ◌^◌, ◌≤◌, ◌<◌, ◌≡◌, refl, sym, ap, ◌∙◌, Bool, true, false, ◌&&◌, Option, none,
  some, length, get_elem?, get_elem?-concat, ◌==◌, if◌then◌else◌, arith, Bool-cases, Option-cases,
  inl, inr,
}
use quickstructs.SharedPtr.{
  Block, World, not_freed, block_at, set_block, call_deleter, count_down, count_up, release,
  add_ref, release_held, add_held, new_block,
}
use quickstructs.Sums.{sum_by-append, get_elem?_out}
use quickstructs.SharedPtr.Blocks.{
  AllLive, AllLive-replaced, Effect, alive-replaced, count_at, count_at-replaced, count_of,
  deleted-call_deleter, held, in_block, no_object, replaced,
}

-- The last reference: the block is freed, and its object goes to the deleter.
release_last :
    (b : ℕ) (w : World) (k : Block)
    → block_at b w ≡ some k
    → k.count ≡ 1
    → AllLive w
    → Effect (some b) none no_object w (replaced b none (call_deleter k w.deletions) w)
release_last b w k e one live = record {
  same_handles = refl;
  counts = λ x.
      let c = count_at-replaced b none (call_deleter k w.deletions) w k e x in
      ground (arith, c, ap count_of e, one, λ (y : b ≡ x). ap (λ z. count_at z w) y);
  live = AllLive-replaced b none (call_deleter k w.deletions) w k e (λ j f. ground (arith, f)) live;
  ledger = λ d p l. omega (
    arith,
    alive-replaced b none (call_deleter k w.deletions) w k d p e,
    deleted-call_deleter k w.deletions d p l,
  );
}

-- A reference that is not the last.
release_other :
    (b : ℕ) (w : World) (k : Block)
    → block_at b w ≡ some k
    → 1 < k.count
    → k.count < 2 ^ 64
    → AllLive w
    → Effect (some b) none no_object w (set_block b (some (count_down k)) w)
release_other b w k e many fits live = record {
  same_handles = refl;
  counts = λ x.
      let c = count_at-replaced b (some (count_down k)) w.deletions w k e x in
      ground (arith, c, ap count_of e, less, λ (y : b ≡ x). ap (λ z. count_at z w) y);
  live =
      AllLive-replaced b (some (count_down k)) w.deletions w k e
        (λ j f. omega (arith, less, ap count_of f)) live;
  ledger = λ d p l. omega (arith, alive-replaced b (some (count_down k)) w.deletions w k d p e);
}
  where
    less : (k.count + (2 ^ 64 - 1)) % 2 ^ 64 + 1 ≡ k.count
    less = omega arith

add_reference :
    (b : ℕ) (w : World) (k : Block)
    → block_at b w ≡ some k
    → k.count + 1 < 2 ^ 64
    → AllLive w
    → Effect none (some b) no_object w (set_block b (some (count_up k)) w)
add_reference b w k e fits live = record {
  same_handles = refl;
  counts = λ x.
      let c = count_at-replaced b (some (count_up k)) w.deletions w k e x in
      ground (arith, c, ap count_of e, more, λ (y : b ≡ x). ap (λ z. count_at z w) y);
  live =
      AllLive-replaced b (some (count_up k)) w.deletions w k e
        (λ j f. omega (arith, more, ap count_of f)) live;
  ledger = λ d p l. omega (arith, alive-replaced b (some (count_up k)) w.deletions w k d p e);
}
  where
    more : (k.count + 1) % 2 ^ 64 ≡ k.count + 1
    more = omega arith

pub block_of_count : (b : ℕ) (w : World) → 0 < count_at b w → (k : Block) × (block_at b w ≡ some k)
block_of_count b w l = elim (Option-cases (block_at b w)) [
  | inl n ↦ absurd (omega (arith, ap count_of n))
  | inr s ↦ s
]

pub held_self : (b : ℕ) → held (some b) b ≡ 1
held_self b = ground arith

release_block :
    (b : ℕ) (w : World) (k : Block)
    → block_at b w ≡ some k
    → AllLive w
    → count_at b w < 2 ^ 64
    → (w' : World) × (release b w ≡ some w') × Effect (some b) none no_object w w'
unfolding release
release_block b w k e live fits = elim (Bool-cases (k.count == 1)) [
  | inl q ↦ (
    replaced b none (call_deleter k w.deletions) w,
    rw (e, release, q) refl,
    release_last b w k e (ground arith) live,
  )
  | inr q ↦ (
    set_block b (some (count_down k)) w,
    rw (e, release, q) refl,
    release_other b w k e (ground (arith, live b k e)) (omega (arith, fits, ap count_of e)) live,
  )
]

add_block :
    (b : ℕ) (w : World) (k : Block)
    → block_at b w ≡ some k
    → AllLive w
    → count_at b w + 1 < 2 ^ 64
    → (w' : World) × (add_ref b w ≡ some w') × Effect none (some b) no_object w w'
unfolding add_ref
add_block b w k e live fits = (
  set_block b (some (count_up k)) w,
  rw (e, add_ref) refl,
  add_reference b w k e (omega (arith, fits, ap count_of e)) live,
)

-- A held reference can be given back, and a block can get one more.
pub release_held-Effect :
    (c : Option ℕ) (w : World)
    → AllLive w
    → ((b : ℕ) → held c b ≤ count_at b w)
    → ((b : ℕ) → count_at b w < 2 ^ 64)
    → (w' : World) × (release_held c w ≡ some w') × Effect c none no_object w w'
release_held-Effect none w live own fits = (
  w,
  refl,
  record { same_handles = refl; counts = λ b. refl; live = live; ledger = λ d p l. omega arith },
)
release_held-Effect (some b) w live own fits =
    let (k, e) = block_of_count b w (omega (arith, own b, held_self b)) in
    release_block b w k e live (fits b)

pub add_held-Effect :
    (c : Option ℕ) (w : World)
    → AllLive w
    → ((b : ℕ) → held c b ≤ count_at b w)
    → ((b : ℕ) → count_at b w + 1 < 2 ^ 64)
    → (w' : World) × (add_held c w ≡ some w') × Effect none c no_object w w'
add_held-Effect none w live own fits = (
  w,
  refl,
  record { same_handles = refl; counts = λ b. refl; live = live; ledger = λ d p l. omega arith },
)
add_held-Effect (some b) w live own fits =
    let (k, e) = block_of_count b w (omega (arith, own b, held_self b)) in
    add_block b w k e live (fits b)

-- The object that a constructor adopts.
abbrev pub adopts : ℕ → ℕ → ℕ → ℕ → ℕ
adopts obj e d p = if (e == d) && (obj == p) then 1 else 0

pub new_block-Effect :
    (obj e : ℕ) (w : World)
    → AllLive w
    → Effect none (some (length w.blocks)) (adopts obj e) w (new_block obj e w)
new_block-Effect obj e w live = record {
  same_handles = refl;
  counts = λ b. elim (Bool-cases (length w.blocks == b)) [
    | inl q ↦ ground (arith, q, ap count_of (at_new b), ap count_of (old_end b q))
    | inr q ↦ ground (arith, q, ap count_of (at_new b))
  ];
  live = λ b k f. elim (Bool-cases (length w.blocks == b)) [
    | inl q ↦ ground (arith, q, sym (at_new b) ∙ f)
    | inr q ↦ live b k (sym (at_new b ∙ rw q refl) ∙ f)
  ];
  ledger = λ d p l. omega (arith, sum_by-append (in_block d p) w.blocks (some fresh));
}
  where
    fresh : Block
    fresh = record { count = 1; obj = obj; deleter = e }

    at_new :
        (b : ℕ)
        → block_at b (new_block obj e w)
          ≡ (if length w.blocks == b then some fresh else block_at b w)
    at_new b =
        ap not_freed (get_elem?-concat w.blocks (some fresh) b) ∙ spread (length w.blocks == b)
      where
        spread :
            (t : Bool)
            → not_freed (if t then some (some fresh) else get_elem? w.blocks b)
              ≡ (if t then some fresh else block_at b w)
        spread true = refl
        spread false = refl

    old_end : (b : ℕ) → (length w.blocks == b) ≡ true → block_at b w ≡ none
    old_end b q = ap not_freed (get_elem?_out w.blocks b (ground arith))
