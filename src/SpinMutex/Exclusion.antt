-- ===== src/SpinMutex/Exclusion.antt =====
-- At most one thread is inside, and the flag says whether one is.
use quickstructs.Prelude.{
  ℕ, zero, suc, ◌+◌, ◌≤◌, ◌≡◌, refl, ap, ◌∙◌, Bool, true, false, some, List, [], ◌∷◌, get_elem?,
  set, replicate, ltb, arith, Bool-cases, Option-cases, inl, inr,
}
use quickstructs.Sums.{sum_by, sum_by-set, sum_by_ge, get_elem?-set-same}
use quickstructs.SpinMutex.{
  Position, idle, fast_path, spin, try_again, inside, Mutex, start, next_round, advance, step, run,
}

abbrev pub is_inside : Position → ℕ
is_inside idle = 0
is_inside fast_path = 0
is_inside (spin i) = 0
is_inside (try_again i) = 0
is_inside inside = 1

abbrev pub as_number : Bool → ℕ
as_number true = 1
as_number false = 0

abbrev pub Exclusive : Mutex → Type 0
Exclusive m = sum_by is_inside m.threads ≡ as_number m.flag

round_outside : (i : ℕ) → is_inside (next_round i) ≡ 0
round_outside i = elim (Bool-cases (ltb (i + 1) 64)) [ inl e ↦ rw e refl | inr e ↦ rw e refl ]

-- An access of the flag keeps the balance, if a thread inside finds the flag set.
advance-balance :
    (flag : Bool) (p : Position)
    → is_inside p ≤ as_number flag
    → is_inside (advance flag p).1 + as_number flag ≡ is_inside p + as_number (advance flag p).0
unfolding advance
advance-balance flag idle l = omega arith
advance-balance true fast_path l = refl
advance-balance false fast_path l = refl
advance-balance true (spin i) l = omega (arith, round_outside i)
advance-balance false (spin i) l = refl
advance-balance true (try_again i) l = omega (arith, round_outside i)
advance-balance false (try_again i) l = refl
advance-balance true inside l = refl
advance-balance false inside l = absurd (omega arith)

step-Exclusive : (t : ℕ) (m : Mutex) → Exclusive m → Exclusive (step t m)
unfolding step
step-Exclusive t m h = elim (Option-cases (get_elem? m.threads t)) [
  | inl e ↦ rw (e, step) h
  | inr (p, e) ↦
      rw (e, step)
        (omega (
          arith,
          h,
          advance-balance m.flag p (omega (arith, h, sum_by_ge is_inside m.threads t p e)),
          sum_by-set is_inside m.threads t p (advance m.flag p).1 e,
        ))
]

run-keeps : (ts : List ℕ) (m : Mutex) → Exclusive m → Exclusive (run ts m)
unfolding run
run-keeps [] m h = h
run-keeps (t ∷ ts) m h = run-keeps ts (step t m) (step-Exclusive t m h)

none_inside : (n : ℕ) → sum_by is_inside (replicate n idle) ≡ 0
none_inside zero = refl
none_inside (suc n) = omega (arith, none_inside n)

-- Under every interleaving of the accesses of any number of threads, the number of threads with the
-- lock is 1 when the flag is set, and 0 when it is clear.
pub run-Exclusive : (n : ℕ) (ts : List ℕ) → Exclusive (run ts (start n))
run-Exclusive n ts = run-keeps ts (start n) (none_inside n)

-- When the flag is clear, a thread in the spin loop has the lock after two steps, if no other thread
-- comes between.
pub run-inside :
    (t i : ℕ) (m : Mutex)
    → get_elem? m.threads t ≡ some (spin i)
    → m.flag ≡ false
    → get_elem? (run (t ∷ t ∷ []) m).threads t ≡ some inside
unfolding run step advance
run-inside t i m e f =
    let tested : step t m ≡ record { flag = false; threads = set m.threads t (try_again i) } =
      rw (e, step, f) refl in
    let found = get_elem?-set-same m.threads t (spin i) (try_again i) e in
    let taken : step t (record { flag = false; threads = set m.threads t (try_again i) })
        ≡ record { flag = true; threads = set (set m.threads t (try_again i)) t inside } =
      rw (found, step) refl in
    ap (λ (w : Mutex). get_elem? w.threads t) (ap (step t) tested ∙ taken)
    ∙ get_elem?-set-same (set m.threads t (try_again i)) t (try_again i) inside found
