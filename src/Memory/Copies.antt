-- ===== src/Memory/Copies.antt =====
-- `Memcpy`, `Memmove` and `Strcpy` copy what was there before the call, and change nothing else.
use mathlib.Core.Path.{fun_ext}
use native.Mathlib.Nat.{add-zero}
use quickstructs.Prelude.{
  ℕ, zero, suc, ◌+◌, ◌-◌, ◌≤◌, ◌<◌, ◌≡◌, ◌≢◌, ◌||◌, inl, inr, ap, ◌∙◌, true, false, some, ltb, ◌==◌,
  if◌then◌else◌, arith, Bool-cases,
}
use quickstructs.Memory.{
  Bytes, copy_byte, copy_forward, memcpy, memmove, copy_string, strcpy, copied,
}
use quickstructs.Memory.Forward.{Upward, copy_forward-copied, copy_blocks-forward}
use quickstructs.Memory.Backward.{copy_backward-copied}

-- `Memcpy` returns the target, and copies the range if the target does not start inside the source
-- behind its first byte; every other byte of memory is as before.
pub memcpy-copied :
    (m : Bytes) (dst src n : ℕ) → Upward dst src n → memcpy m dst src n ≡ (copied m dst src n, dst)
unfolding memcpy
memcpy-copied m dst src n h =
    ap (λ (f : Bytes). (f, dst))
      (copy_blocks-forward n m dst src n ∙ fun_ext (λ a. copy_forward-copied n m dst src a h))

-- A copy onto itself, or of nothing, changes nothing.
copied_self : (m : Bytes) (p n : ℕ) → m ≡ copied m p p n
copied_self m p n =
    fun_ext (λ a. ground (arith, λ (h : p ≤ a). ap m (let e : p + (a - p) ≡ a = omega arith in e)))

-- `Memmove` returns the target, and copies the range however the two ranges overlap; with a null
-- pointer it changes nothing.
pub memmove-copied :
    (m : Bytes) (dst src n : ℕ)
    → memmove m dst src n ≡ ((if (src == 0) || (dst == 0) then m else copied m dst src n), dst)
unfolding memmove
memmove-copied m dst src n = elim (Bool-cases (src == 0)) [
  | inl no_src ↦ rw no_src
  | inr a ↦ elim (Bool-cases (dst == 0)) [
    | inl no_dst ↦ rw (a, no_dst)
    | inr b ↦ elim (Bool-cases (n == 0)) [
      | inl e ↦ rw (a, b, e) (ap (λ (f : Bytes). (f, dst)) (nothing e))
      | inr e ↦ elim (Bool-cases (ltb dst src)) [
        | inl up ↦
            rw (a, b, e, up)
              (ap (λ (f : Bytes). (f, dst))
                (fun_ext (λ x. copy_forward-copied n m dst src x (inl (ground arith)))))
        | inr g ↦ elim (Bool-cases (ltb src dst)) [
          | inl down ↦
              rw (a, b, e, g, down)
                (ap (λ (f : Bytes). (f, dst))
                  (fun_ext (λ x. copy_backward-copied n m dst src x (ground arith))))
          | inr same ↦ rw (a, b, e, g, same) (ap (λ (f : Bytes). (f, dst)) (onto_self g same))
        ]
      ]
    ]
  ]
]
  where
    nothing : (n == 0) ≡ true → m ≡ copied m dst src n
    nothing e = fun_ext (λ x. ground arith)

    onto_self : ltb dst src ≡ false → ltb src dst ≡ false → m ≡ copied m dst src n
    onto_self g h = let e : src ≡ dst = ground arith in rw e (copied_self m dst n)

shifted : (src i : ℕ) → src + 1 + i ≡ src + suc i
shifted src i = omega arith

-- The loop of `Strcpy` copies one byte more than it finds before the first zero.
copy_string-forward :
    (len fuel : ℕ) (m : Bytes) (dst src : ℕ)
    → ((i : ℕ) → i < len → m (src + i) ≢ 0)
    → m (src + len) ≡ 0
    → Upward dst src (suc len)
    → len < fuel
    → copy_string fuel m dst src ≡ some (copy_forward m dst src (suc len))
unfolding copy_string copy_forward
copy_string-forward len zero m dst src text end h l = absurd (omega arith)
copy_string-forward zero (suc fuel) m dst src text end h l =
    elim (Bool-cases (copy_byte m dst src dst == 0)) [
      | inl z ↦ rw (z, copy_string)
      | inr z ↦ absurd (ground (arith, ap m (add-zero src)))
    ]
copy_string-forward (suc len) (suc fuel) m dst src text end h l =
    elim (Bool-cases (copy_byte m dst src dst == 0)) [
      | inl z ↦ absurd (text 0 (omega arith) (ground (arith, ap m (add-zero src))))
      | inr z ↦
          rw (z, copy_string)
            (copy_string-forward len fuel (copy_byte m dst src) (dst + 1) (src + 1)
              (λ i b e. text (suc i) (omega arith) (ground (arith, ap m (shifted src i))))
              (ground (arith, ap m (shifted src len))) (omega arith) (omega arith))
    ]

-- On a string of `len` bytes that ends in a zero byte, `Strcpy` ends, copies the string with its
-- zero byte, changes nothing else and returns the target; the target may not start inside the string
-- behind its first byte.
pub strcpy-copied :
    (len fuel : ℕ) (m : Bytes) (dst src : ℕ)
    → ((i : ℕ) → i < len → m (src + i) ≢ 0)
    → m (src + len) ≡ 0
    → Upward dst src (suc len)
    → len < fuel
    → strcpy fuel m dst src ≡ some (copied m dst src (suc len), dst)
unfolding strcpy
strcpy-copied len fuel m dst src text end h l =
    rw (copy_string-forward len fuel m dst src text end h l, strcpy)
      (ap (λ (f : Bytes). some (f, dst))
        (fun_ext (λ a. copy_forward-copied (suc len) m dst src a h)))
