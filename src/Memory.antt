-- ===== src/Memory.antt =====
-- include/quick/memory: Memcpy.cc, Memmove.cc and Strcpy.cc over a flat memory. A pointer is an
-- address, and 0 is the null pointer. Each function returns the memory and its result.
pub mod Forward
pub mod Backward
pub mod Copies
mod Tests
use quickstructs.Prelude.{
  ℕ, zero, suc, ◌+◌, ◌-◌, Bool, true, false, ◌||◌, Option, none, some, ltb, leb, ◌==◌,
  if◌then◌else◌, update,
}

-- The bytes at all addresses.
abbrev pub Bytes : Type 0
Bytes = ℕ → ℕ

-- `*to = *from`
abbrev pub copy_byte : Bytes → ℕ → ℕ → Bytes
copy_byte m to from = update m to (m from)

-- `while (n--) { *to++ = *from++; }`, the second loop of `Memcpy` and the first of `Memmove`.
pub copy_forward : Bytes → ℕ → ℕ → ℕ → Bytes
copy_forward m to from zero = m
copy_forward m to from (suc n) = copy_forward (copy_byte m to from) (to + 1) (from + 1) n

-- `while (n--) { *--to = *--from; }`, on the ends of both ranges.
pub copy_backward : Bytes → ℕ → ℕ → ℕ → Bytes
copy_backward m to from zero = m
copy_backward m to from (suc n) =
    copy_backward (copy_byte m (to - 1) (from - 1)) (to - 1) (from - 1) n

-- The eight assignments in the first loop of `Memcpy`.
pub copy_eight : Bytes → ℕ → ℕ → Bytes
copy_eight m to from =
    let m0 = copy_byte m (to + 0) (from + 0) in
    let m1 = copy_byte m0 (to + 1) (from + 1) in
    let m2 = copy_byte m1 (to + 2) (from + 2) in
    let m3 = copy_byte m2 (to + 3) (from + 3) in
    let m4 = copy_byte m3 (to + 4) (from + 4) in
    let m5 = copy_byte m4 (to + 5) (from + 5) in
    let m6 = copy_byte m5 (to + 6) (from + 6) in copy_byte m6 (to + 7) (from + 7)

-- Both loops of `Memcpy`, the first on fuel.
pub copy_blocks : ℕ → Bytes → ℕ → ℕ → ℕ → Bytes
copy_blocks zero m to from n = copy_forward m to from n
copy_blocks (suc fuel) m to from n = elim (leb 8 n) [
  | true ↦ copy_blocks fuel (copy_eight m to from) (to + 8) (from + 8) (n - 8)
  | false ↦ copy_forward m to from n
]

-- `Memcpy`; there are fewer rounds of eight bytes than bytes.
unfoldable pub memcpy : Bytes → ℕ → ℕ → ℕ → Bytes × ℕ
memcpy m dst src n = (copy_blocks n m dst src n, dst)

-- `Memmove`
unfoldable pub memmove : Bytes → ℕ → ℕ → ℕ → Bytes × ℕ
memmove m dst src n =
    if (src == 0) || (dst == 0) || (n == 0)
    then (m, dst)
    else if ltb dst src
    then (copy_forward m dst src n, dst)
    else if ltb src dst
    then (copy_backward m (dst + n) (src + n) n, dst)
    else (m, dst)

-- `while ((*dst++ = *src++));`, on fuel: the byte that was just written ends the loop if it is 0.
pub copy_string : ℕ → Bytes → ℕ → ℕ → Option Bytes
copy_string zero m dst src = none
copy_string (suc fuel) m dst src =
    let m' = copy_byte m dst src in
    elim (m' dst == 0) [ true ↦ some m' | false ↦ copy_string fuel m' (dst + 1) (src + 1) ]

-- `Strcpy`
unfoldable pub strcpy : ℕ → Bytes → ℕ → ℕ → Option (Bytes × ℕ)
strcpy fuel m dst src = elim (copy_string fuel m dst src) [ none ↦ none | some m' ↦ some (m', dst) ]

-- Memory after a copy of `n` bytes from `src` to `dst`, read before any was written.
abbrev pub copied : Bytes → ℕ → ℕ → ℕ → Bytes
copied m dst src n a = elim (leb dst a) [
  | true ↦ (if ltb a (dst + n) then m (src + (a - dst)) else m a)
  | false ↦ m a
]
