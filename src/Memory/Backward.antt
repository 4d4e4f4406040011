-- ===== src/Memory/Backward.antt =====
-- The byte loop that goes down.
use quickstructs.Prelude.{ℕ, zero, suc, ◌+◌, ◌≤◌, ◌≡◌, ap, ap₂, arith}
use quickstructs.Memory.{Bytes, copy_byte, copy_backward, copied}

-- One round, on the last byte of both ranges.
down_step :
    (m : Bytes) (dst src n : ℕ)
    → copy_backward m (dst + suc n) (src + suc n) (suc n)
      ≡ copy_backward (copy_byte m (dst + n) (src + n)) (dst + n) (src + n) n
unfolding copy_backward
down_step m dst src n =
    ap₂ (λ d s. copy_backward (copy_byte m d s) d s n) (omega arith) (omega arith)

-- Going down is right where the source does not start inside the rest of the target.
pub copy_backward-copied :
    (n : ℕ) (m : Bytes) (dst src a : ℕ)
    → src ≤ dst
    → copy_backward m (dst + n) (src + n) n a ≡ copied m dst src n a
copy_backward-copied zero m dst src a h = unfold copy_backward in ground arith
copy_backward-copied (suc n) m dst src a h = ground (
  arith,
  ap (λ (f : Bytes). f a) (down_step m dst src n),
  copy_backward-copied n (copy_byte m (dst + n) (src + n)) dst src a h,
)
