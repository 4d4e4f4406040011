-- ===== src/Cassandra/Freed.antt =====
-- Every object of the driver is freed once, behind its last use.
use quickstructs.Prelude.{
  ℕ, ◌+◌, ◌≡◌, refl, Bool, true, false, Option, some, List, ◌∷◌, ◌==◌, ◌&&◌, if◌then◌else◌, arith,
  Bool-cases, inl, inr,
}
use mathlib.Core.Option.{map}
use quickstructs.Cassandra.{
  Ledger, Ending, returned, aborted, is_alive, create, read, free, check_future, connect_session,
  execute_query, insert_into_basic, read_result, select_from_basic, use_session, init_db,
}

read-alive : (i : ℕ) (d : Ledger) → is_alive i d.alive ≡ true → read i d ≡ some d
unfolding read
read-alive i d e = rw e refl

head-alive : (i : ℕ) (js : List ℕ) → is_alive i (i ∷ js) ≡ true
head-alive i js = ground arith

tail-alive : (i j : ℕ) (js : List ℕ) → is_alive i js ≡ true → is_alive i (j ∷ js) ≡ true
tail-alive i j js e = ground arith

free-head :
    (i n : ℕ) (js : List ℕ)
    → free i (record { next = n; alive = i ∷ js }) ≡ some (record { next = n; alive = js })
unfolding free
free-head i n js = let e : (i == i) ≡ true = ground arith in rw (e) refl

free-second :
    (i j n : ℕ) (js : List ℕ)
    → (j == i) ≡ false
    → free i (record { next = n; alive = j ∷ i ∷ js }) ≡ some (record { next = n; alive = j ∷ js })
unfolding free
free-second i j n js h = let e : (i == i) ≡ true = ground arith in rw (h, e) refl

-- What a function returns, with the objects that are not freed then.
abbrev pub left : Option (Ending × Ledger) → Option (Ending × List ℕ)
left o = map (λ r. (r.0, r.1.alive)) o

module _ (is_ok : ℕ → Bool) where
  check_future-alive :
      (i : ℕ) (d : Ledger) → is_alive i d.alive ≡ true → check_future is_ok i d ≡ some d
  check_future-alive i d e = elim (Bool-cases (is_ok i)) [
    | inl h ↦ rw (h, read-alive i d e) refl
    | inr h ↦ rw (h, read-alive i d e) (read-alive i d e)
  ]

  connect_session-same :
      (s c : ℕ) (d : Ledger)
      → is_alive s d.alive ≡ true
      → is_alive c d.alive ≡ true
      → connect_session is_ok s c d
        ≡ some (is_ok d.next, record { next = d.next + 1; alive = d.alive })
  unfolding connect_session
  connect_session-same s c d hs hc =
      let a = head-alive d.next d.alive in
      rw
        (
          read-alive s d hs,
          read-alive c d hc,
          read-alive d.next (create d) a,
          check_future-alive d.next (create d) a,
          free-head d.next (d.next + 1) d.alive,
        )
        refl

  execute_query-same :
      (s : ℕ) (d : Ledger)
      → is_alive s d.alive ≡ true
      → execute_query is_ok s d
        ≡ some (is_ok (d.next + 1), record { next = d.next + 1 + 1; alive = d.alive })
  unfolding execute_query
  execute_query-same s d hs =
      let n = d.next in
      let a = head-alive n d.alive in
      let b = head-alive (n + 1) (n ∷ d.alive) in
      rw
        (
          read-alive s (create d) (tail-alive s n d.alive hs),
          read-alive n (create d) a,
          read-alive (n + 1) (create (create d)) b,
          check_future-alive (n + 1) (create (create d)) b,
          free-head (n + 1) (n + 1 + 1) (n ∷ d.alive),
          free-head n (n + 1 + 1) d.alive,
        )
        refl

  insert_into_basic-same :
      (s : ℕ) (d : Ledger)
      → is_alive s d.alive ≡ true
      → insert_into_basic is_ok s d
        ≡ some (is_ok (d.next + 1), record { next = d.next + 1 + 1; alive = d.alive })
  unfolding insert_into_basic
  insert_into_basic-same s d hs =
      let n = d.next in
      let a = head-alive n d.alive in
      let b = head-alive (n + 1) (n ∷ d.alive) in
      rw
        (
          read-alive n (create d) a,
          read-alive s (create d) (tail-alive s n d.alive hs),
          read-alive n (create d) a,
          read-alive (n + 1) (create (create d)) b,
          check_future-alive (n + 1) (create (create d)) b,
          free-head (n + 1) (n + 1 + 1) (n ∷ d.alive),
          free-head n (n + 1 + 1) d.alive,
        )
        refl

  module _ (has_row : ℕ → Bool) where
    read_row-alive :
        (i : ℕ) (d : Ledger)
        → is_alive i d.alive ≡ true
        → (if has_row i then read i d else some d) ≡ some d
    read_row-alive i d e = elim (Bool-cases (has_row i)) [
      | inl h ↦ rw h (read-alive i d e)
      | inr h ↦ rw h refl
    ]

    read_result-same :
        (i : ℕ) (d : Ledger)
        → is_alive i d.alive ≡ true
        → read_result is_ok has_row i d
          ≡ some (has_row (d.next + 1), record { next = d.next + 1 + 1; alive = d.alive })
    read_result-same i d h =
        let n = d.next in
        let a = head-alive n d.alive in
        let b = head-alive (n + 1) (n ∷ d.alive) in
        let c : (n + 1 == n) ≡ false = ground arith in
        rw
          (
            read-alive i d h,
            read-alive n (create d) a,
            read-alive (n + 1) (create (create d)) b,
            read_row-alive (n + 1) (create (create d)) b,
            free-second n (n + 1) (n + 1 + 1) d.alive c,
            free-head (n + 1) (n + 1 + 1) d.alive,
          )
          refl

    select_from_basic-same :
        (s : ℕ) (d : Ledger)
        → is_alive s d.alive ≡ true
        → select_from_basic is_ok has_row s d
          ≡ some (
            is_ok (d.next + 1),
            is_ok (d.next + 1) && has_row (d.next + 1 + 1 + 1),
            record {
              next = (if is_ok (d.next + 1) then d.next + 1 + 1 + 1 + 1 else d.next + 1 + 1);
              alive = d.alive;
            },
          )
    unfolding select_from_basic
    select_from_basic-same s d hs =
        let n = d.next in
        let js = d.alive in
        let a = head-alive n js in
        let d2 = create (create d) in
        let b = head-alive (n + 1) (n ∷ js) in
        let k = n + 1 + 1 in
        elim (Bool-cases (is_ok (n + 1))) [
          | inl h ↦
              rw
                (
                  read-alive n (create d) a,
                  read-alive s (create d) (tail-alive s n js hs),
                  read-alive n (create d) a,
                  read-alive (n + 1) d2 b,
                  read-alive (n + 1) d2 b,
                  h,
                  read_result-same (n + 1) d2 b,
                  free-head (n + 1) (k + 1 + 1) (n ∷ js),
                  free-head n (k + 1 + 1) js,
                )
                refl
          | inr h ↦
              rw
                (
                  read-alive n (create d) a,
                  read-alive s (create d) (tail-alive s n js hs),
                  read-alive n (create d) a,
                  read-alive (n + 1) d2 b,
                  read-alive (n + 1) d2 b,
                  h,
                  read-alive (n + 1) d2 b,
                  free-head (n + 1) k (n ∷ js),
                  free-head n k js,
                )
                refl
        ]

    use_session-left :
        (holds : Bool → Bool) (n : ℕ) (js : List ℕ) (k : ℕ)
        → let q = k + 1 + 1 + 1 + 1 + 1 + 1 in
          left (
            use_session is_ok has_row holds n
              (n + 1)
              (record { next = k; alive = (n + 1) ∷ n ∷ js }))
          ≡ some (
              if holds (is_ok (q + 1) && has_row (q + 1 + 1 + 1))
              then (returned true, js)
              else (aborted, (n + 1) ∷ n ∷ js))
    use_session-left holds n js k =
        let b : is_alive n ((n + 1) ∷ n ∷ js) ≡ true = ground arith in
        let c : (n + 1 == n) ≡ false = ground arith in
        let d : ℕ → Ledger = λ i. record { next = i; alive = (n + 1) ∷ n ∷ js } in
        let q = k + 1 + 1 + 1 + 1 + 1 + 1 in
        let z = if is_ok (q + 1) then q + 1 + 1 + 1 + 1 else q + 1 + 1 in
        rw
          (
            execute_query-same n (d k) b,
            execute_query-same n (d (k + 1 + 1)) b,
            insert_into_basic-same n (d (k + 1 + 1 + 1 + 1)) b,
            select_from_basic-same n (d q) b,
          )
          (elim (Bool-cases (holds (is_ok (q + 1) && has_row (q + 1 + 1 + 1)))) [
            | inl h ↦ rw h (rw (free-second n (n + 1) z js c, free-head (n + 1) z js) refl)
            | inr h ↦ rw h refl
          ])

-- The objects that `init_db` makes have the numbers from `d.next` on: the future of the connection is
-- the third, and the future and the iterator of the selection are the eleventh and the thirteenth.
abbrev pub outcome : (ℕ → Bool) → (ℕ → Bool) → (Bool → Bool) → Ledger → Ending × List ℕ
outcome is_ok has_row holds d =
    if is_ok (d.next + 2)
    then (if holds (is_ok (d.next + 10) && has_row (d.next + 12))
        then (returned true, d.alive)
        else (aborted, (d.next + 1) ∷ d.next ∷ d.alive))
    else (returned false, d.alive)

-- `init_db` uses no object behind its end and frees none twice, whatever the driver answers. Where the
-- connection fails, or is made and the assertions hold, each object that it makes is freed, and it
-- returns whether the connection was made; where an assertion fails, the program is aborted, and
-- exactly the session and the cluster are not freed. Whether a row was read to the output that is
-- asserted depends on the selection alone.
pub init_db-freed :
    (is_ok has_row : ℕ → Bool) (holds : Bool → Bool) (d : Ledger)
    → left (init_db is_ok has_row holds d) ≡ some (outcome is_ok has_row holds d)
unfolding init_db
init_db-freed is_ok has_row holds d =
    let n = d.next in
    let js = d.alive in
    let d2 : Ledger = record { next = n + 1 + 1; alive = (n + 1) ∷ n ∷ js } in
    let b : is_alive n ((n + 1) ∷ n ∷ js) ≡ true = ground arith in
    let a = head-alive (n + 1) (n ∷ js) in
    let k = n + 1 + 1 + 1 in
    let at : n + 2 ≡ n + 1 + 1 = omega arith in
    let future : n + 10 ≡ k + 1 + 1 + 1 + 1 + 1 + 1 + 1 = omega arith in
    let iterator : n + 12 ≡ k + 1 + 1 + 1 + 1 + 1 + 1 + 1 + 1 + 1 = omega arith in
    rw (at, future, iterator)
      (elim (Bool-cases (is_ok (n + 1 + 1))) [
        | inl h ↦
            rw (read-alive (n + 1) d2 a, connect_session-same is_ok n (n + 1) d2 b a, h)
              (use_session-left is_ok has_row holds n js k)
        | inr h ↦
            rw
              (
                read-alive (n + 1) d2 a,
                connect_session-same is_ok n (n + 1) d2 b a,
                h,
                free-head (n + 1) k (n ∷ js),
                free-head n k js,
              )
              refl
      ])
