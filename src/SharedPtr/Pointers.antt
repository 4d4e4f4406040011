-- ===== src/SharedPtr/Pointers.antt =====
-- The pointer of a `shared_ptr` is the object of its control block.
use mathlib.Core.Option.{some-injective}
use quickstructs.Prelude.{
  ℕ, zero, suc, ◌+◌, ◌≡◌, refl, sym, ap, ◌∙◌, subst, Option, none, some, List, [], ◌∷◌, ◌++◌,
  length, length-append, get_elem?, get_elem?-concat, set, ◌==◌, ==_iff, arith, Bool-cases,
  Option-cases, inl, inr,
}
use quickstructs.Sums.{get_elem?_in, length-set}
use quickstructs.SharedPtr.{
  Block, Deletion, Handle, World, not_freed, block_at, set_handle, new_handle, new_block, release,
  release_held, add_ref, add_held, count_up, count_down, call_deleter,
}
use quickstructs.SharedPtr.Blocks.{replaced, block_at-replaced}

-- What holds of all entries of a list holds when one is set, or put behind.
module _ {A : Type 0} (P : A → Type 0) where
  abbrev pub Entries : List A → Type 0
  Entries xs = (i : ℕ) (x : A) → get_elem? xs i ≡ some x → P x

  set-Entries : (xs : List A) (i : ℕ) (y : A) → P y → Entries xs → Entries (set xs i y)
  set-Entries [] i y p h j x e = h j x e
  set-Entries (z ∷ zs) zero y p h zero x e = subst P (some-injective y x e) p
  set-Entries (z ∷ zs) zero y p h (suc j) x e = h (suc j) x e
  set-Entries (z ∷ zs) (suc i) y p h zero x e = h zero x e
  set-Entries (z ∷ zs) (suc i) y p h (suc j) x e = set-Entries zs i y p (λ k. h (suc k)) j x e

  append-Entries : (xs : List A) (y : A) → P y → Entries xs → Entries (xs ++ y ∷ [])
  append-Entries [] y p h zero x e = subst P (some-injective y x e) p
  append-Entries [] y p h (suc j) x e = h j x e
  append-Entries (z ∷ zs) y p h zero x e = h zero x e
  append-Entries (z ∷ zs) y p h (suc j) x e = append-Entries zs y p (λ k. h (suc k)) j x e

-- `objs` are the objects of all control blocks, in the order of their allocation.
abbrev pub PointsTo : List ℕ → ℕ → Option ℕ → Type 0
PointsTo objs obj none = obj ≡ 0
PointsTo objs obj (some b) = get_elem? objs b ≡ some obj

abbrev pub Points : List ℕ → Handle → Type 0
Points objs h = PointsTo objs h.obj h.cb

pub record Fits (objs : List ℕ) (w : World) : Type 0 where
  pub size_is : length objs ≡ length w.blocks
  pub blocks_fit : (b : ℕ) (k : Block) → block_at b w ≡ some k → get_elem? objs b ≡ some k.obj
  pub handles_fit : Entries (Points objs) w.handles

-- The result of a call, if it returns.
abbrev pub FitsAfter : Option World → Type 0
FitsAfter none = Unit
FitsAfter (some w) = (objs : List ℕ) × Fits objs w

pub set_handle-Fits :
    (objs : List ℕ) (w : World) (i : ℕ) (h : Handle)
    → Points objs h
    → Fits objs w
    → Fits objs (set_handle i h w)
set_handle-Fits objs w i h p f = record {
  size_is = f.size_is;
  blocks_fit = f.blocks_fit;
  handles_fit = set-Entries (Points objs) w.handles i h p f.handles_fit;
}

pub new_handle-Fits :
    (objs : List ℕ) (w : World) (h : Handle)
    → Points objs h
    → Fits objs w
    → Fits objs (new_handle h w)
new_handle-Fits objs w h p f = record {
  size_is = f.size_is;
  blocks_fit = f.blocks_fit;
  handles_fit = append-Entries (Points objs) w.handles h p f.handles_fit;
}

replaced-Fits :
    (objs : List ℕ) (w : World) (b : ℕ) (k : Block) (o : Option Block) (log : List Deletion)
    → block_at b w ≡ some k
    → ((j : Block) → o ≡ some j → j.obj ≡ k.obj)
    → Fits objs w
    → Fits objs (replaced b o log w)
replaced-Fits objs w b k o log e same f = record {
  size_is = f.size_is ∙ sym (length-set w.blocks b o);
  blocks_fit = λ x j g. elim (Bool-cases (b == x)) [
    | inl q ↦
        let y : b ≡ x = (==_iff b x).0 q in
        let at : o ≡ some j = sym (block_at-replaced b o log w k e x ∙ rw q refl) ∙ g in
        rw (← y) (f.blocks_fit b k e ∙ ap some (sym (same j at)))
    | inr q ↦ f.blocks_fit x j (sym (block_at-replaced b o log w k e x ∙ rw q refl) ∙ g)
  ];
  handles_fit = f.handles_fit;
}

-- The same, for a call that allocates no block.
abbrev pub FitsStill : List ℕ → Option World → Type 0
FitsStill objs none = Unit
FitsStill objs (some w) = Fits objs w

release-Fits : (objs : List ℕ) (w : World) (b : ℕ) → Fits objs w → FitsStill objs (release b w)
unfolding release
release-Fits objs w b f = elim (Option-cases (block_at b w)) [
  | inl n ↦ rw (n, release) tt
  | inr (k, e) ↦
      rw (e, release)
        (elim (Bool-cases (k.count == 1)) [
          | inl one ↦ rw one (
              replaced-Fits objs w b k none (call_deleter k w.deletions) e
                (λ j g. ground (arith, g)) f)
          | inr more ↦ rw more (
              replaced-Fits objs w b k (some (count_down k)) w.deletions e
                (λ j g. sym (ap (λ (l : Block). l.obj) (some-injective _ _ g))) f)
        ])
]

add_ref-Fits : (objs : List ℕ) (w : World) (b : ℕ) → Fits objs w → FitsStill objs (add_ref b w)
unfolding add_ref
add_ref-Fits objs w b f = elim (Option-cases (block_at b w)) [
  | inl n ↦ rw (n, add_ref) tt
  | inr (k, e) ↦
      rw (e, add_ref)
        (replaced-Fits objs w b k (some (count_up k)) w.deletions e
          (λ j g. sym (ap (λ (l : Block). l.obj) (some-injective _ _ g))) f)
]

pub release_held-Fits :
    (objs : List ℕ) (w : World) (c : Option ℕ) → Fits objs w → FitsStill objs (release_held c w)
release_held-Fits objs w none f = f
release_held-Fits objs w (some b) f = release-Fits objs w b f

pub add_held-Fits :
    (objs : List ℕ) (w : World) (c : Option ℕ) → Fits objs w → FitsStill objs (add_held c w)
add_held-Fits objs w none f = f
add_held-Fits objs w (some b) f = add_ref-Fits objs w b f

-- The pointer and the block of a new allocation.
get_last : (xs : List ℕ) (x : ℕ) → get_elem? (xs ++ x ∷ []) (length xs) ≡ some x
get_last xs x = ground (arith, get_elem?-concat xs x (length xs))

get_before :
    (xs : List ℕ) (x y i : ℕ) → get_elem? xs i ≡ some y → get_elem? (xs ++ x ∷ []) i ≡ some y
get_before xs x y i e = ground (arith, get_elem?-concat xs x i, get_elem?_in xs i y e, e)

PointsTo-append :
    (objs : List ℕ) (o p : ℕ) (c : Option ℕ) → PointsTo objs p c → PointsTo (objs ++ o ∷ []) p c
PointsTo-append objs o p none h = h
PointsTo-append objs o p (some b) h = get_before objs o p b h

new_block_fit :
    (objs : List ℕ) (w : World) (new : Block) (b : ℕ) (k : Block)
    → Fits objs w
    → not_freed (get_elem? (w.blocks ++ some new ∷ []) b) ≡ some k
    → get_elem? (objs ++ new.obj ∷ []) b ≡ some k.obj
new_block_fit objs w new b k f e =
    let g = get_elem?-concat w.blocks (some new) b in
    elim (Bool-cases (length w.blocks == b)) [
      | inl q ↦
          let y : length w.blocks ≡ b = (==_iff (length w.blocks) b).0 q in
          let at : get_elem? (w.blocks ++ some new ∷ []) b ≡ some (some new) = g ∙ rw q refl in
          let is_new : new ≡ k = some-injective new k (sym (ap not_freed at) ∙ e) in
          subst (λ n. get_elem? (objs ++ new.obj ∷ []) n ≡ some k.obj) (f.size_is ∙ y)
            (get_last objs new.obj ∙ ap (λ (l : Block). some l.obj) is_new)
      | inr q ↦
          let at : get_elem? (w.blocks ++ some new ∷ []) b ≡ get_elem? w.blocks b = g ∙ rw q refl in
          get_before objs new.obj k.obj b (f.blocks_fit b k (sym (ap not_freed at) ∙ e))
    ]

pub new_block-Fits :
    (objs : List ℕ) (w : World) (obj d : ℕ)
    → Fits objs w
    → Fits (objs ++ obj ∷ []) (new_block obj d w)
new_block-Fits objs w obj d f =
    let new : Block = record { count = 1; obj = obj; deleter = d } in
    record {
      size_is =
          length-append objs (obj ∷ [])
          ∙ ap (λ n. n + 1) f.size_is
          ∙ sym (length-append w.blocks (some new ∷ []));
      blocks_fit = λ b k e. new_block_fit objs w new b k f e;
      handles_fit = λ i h e. PointsTo-append objs obj h.obj h.cb (f.handles_fit i h e);
    }

-- The pointer to the block that is allocated next.
pub new-Points :
    (objs : List ℕ) (w : World) (obj : ℕ)
    → Fits objs w
    → Points (objs ++ obj ∷ []) (record { obj = obj; cb = some (length w.blocks) })
new-Points objs w obj f =
    subst (λ n. get_elem? (objs ++ obj ∷ []) n ≡ some obj) f.size_is (get_last objs obj)
