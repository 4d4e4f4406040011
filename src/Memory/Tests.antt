-- ===== src/Memory/Tests.antt =====
-- The routines of include/quick/memory at concrete memories.
use quickstructs.Prelude.{
  ℕ, suc, ◌+◌, ◌<◌, ◌≡◌, ◌≢◌, refl, inr, some, arith, if◌then◌else◌, ◌==◌, zero,
}
use quickstructs.Memory.{
  Bytes, copied, memcpy, memmove, strcpy, copy_forward, copy_backward, copy_blocks, copy_eight,
}
use quickstructs.Memory.Copies.{memcpy-copied, memmove-copied, strcpy-copied}

-- At address 10 stands "himom" with its zero byte.
abbrev himom : Bytes
himom a =
    if a == 10
    then b'h'
    else if a == 11
    then b'i'
    else if a == 12
    then b'm'
    else if a == 13
    then b'o'
    else if a == 14
    then b'm'
    else 0

memmove_overlap :
    ((memmove himom 12 10 2).0 12 ≡ b'h')
    × ((memmove himom 12 10 2).0 13 ≡ b'i')
    × ((memmove himom 12 10 4).0 15 ≡ b'o')
unfolding memmove copy_backward
memmove_overlap = (refl, refl, refl)

memcpy_long : (memcpy himom 30 6 9).0 34 ≡ b'h'
unfolding memcpy copy_blocks copy_eight copy_forward
memcpy_long = refl

memcpy-copied_example : memcpy himom 30 6 9 ≡ (copied himom 30 6 9, 30)
memcpy-copied_example = memcpy-copied himom 30 6 9 (inr (omega arith))

memmove-copied_example : memmove himom 12 10 4 ≡ (copied himom 12 10 4, 12)
memmove-copied_example = memmove-copied himom 12 10 4

himom_text : (i : ℕ) → i < 5 → himom (10 + i) ≢ 0
himom_text zero l = omega arith
himom_text (suc zero) l = omega arith
himom_text (suc (suc zero)) l = omega arith
himom_text (suc (suc (suc zero))) l = omega arith
himom_text (suc (suc (suc (suc zero)))) l = omega arith
himom_text (suc (suc (suc (suc (suc i))))) l = absurd (omega arith)

strcpy-copied_example : strcpy 6 himom 20 10 ≡ some (copied himom 20 10 6, 20)
strcpy-copied_example =
    strcpy-copied 5 6 himom 20 10 himom_text refl (inr (omega arith)) (omega arith)
