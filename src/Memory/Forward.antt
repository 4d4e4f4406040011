-- ===== src/Memory/Forward.antt =====
-- The byte loop that goes up, and the loop of eight bytes before it.
use native.Mathlib.Nat.{add_assoc, add-zero}
use quickstructs.Prelude.{
  ℕ, zero, suc, ◌+◌, ◌-◌, ◌≤◌, ◌≡◌, ◌⊎◌, inl, inr, refl, sym, ap, ap₂, ◌∙◌, leb, arith, Bool-cases,
}
use quickstructs.Memory.{Bytes, copy_byte, copy_forward, copy_eight, copy_blocks, copied}

-- Going up is right where the target does not start inside the rest of the source.
abbrev pub Upward : ℕ → ℕ → ℕ → Type 0
Upward dst src n = (dst ≤ src) ⊎ (src + n ≤ dst)

pub copy_forward-copied :
    (n : ℕ) (m : Bytes) (dst src a : ℕ)
    → Upward dst src n
    → copy_forward m dst src n a ≡ copied m dst src n a
unfolding copy_forward
copy_forward-copied zero m dst src a h = ground arith
copy_forward-copied (suc n) m dst src a h =
    ground (arith, copy_forward-copied n (copy_byte m dst src) (dst + 1) (src + 1) a (omega arith))

step_at :
    (m : Bytes) (dst src i n : ℕ)
    → copy_forward m (dst + i) (src + i) (suc n)
      ≡ copy_forward (copy_byte m (dst + i) (src + i)) (dst + (i + 1)) (src + (i + 1)) n
unfolding copy_forward
step_at m dst src i n =
    ap₂ (λ d s. copy_forward (copy_byte m (dst + i) (src + i)) d s n) (add_assoc dst i 1)
      (add_assoc src i 1)

-- The blocks of eight write what single bytes would, in the same order: with any overlap.
copy_eight-forward :
    (m : Bytes) (dst src n : ℕ)
    → 8 ≤ n
    → copy_forward m dst src n ≡ copy_forward (copy_eight m dst src) (dst + 8) (src + 8) (n - 8)
unfolding copy_eight
copy_eight-forward m dst src n h =
    ap₂ (λ d s. copy_forward m d s n) (sym (add-zero dst)) (sym (add-zero src))
    ∙ ap (copy_forward m (dst + 0) (src + 0)) eight
    ∙ step_at _ dst src 0 _
    ∙ step_at _ dst src 1 _
    ∙ step_at _ dst src 2 _
    ∙ step_at _ dst src 3 _
    ∙ step_at _ dst src 4 _
    ∙ step_at _ dst src 5 _
    ∙ step_at _ dst src 6 _
    ∙ step_at _ dst src 7 _
  where
    eight : n ≡ suc (suc (suc (suc (suc (suc (suc (suc (n - 8))))))))
    eight = omega arith

pub copy_blocks-forward :
    (f : ℕ) (m : Bytes) (dst src n : ℕ) → copy_blocks f m dst src n ≡ copy_forward m dst src n
unfolding copy_blocks
copy_blocks-forward zero m dst src n = refl
copy_blocks-forward (suc f) m dst src n = elim (Bool-cases (leb 8 n)) [
  | inl e ↦
      rw (e, copy_blocks)
        (copy_blocks-forward f (copy_eight m dst src) (dst + 8) (src + 8) (n - 8)
          ∙ sym (copy_eight-forward m dst src n (ground arith)))
  | inr e ↦ rw (e, copy_blocks)
]
