-- ===== src/Auth/OtpCodes/Attempts.antt =====
-- How often a code is tried and used, by `verifyOtp` of apps/api/src/modules/auth/auth.service.ts.
use voyya_backend.Prelude.{
  refl, find-In, In, In-filter, filter-In, Result, ok, ℕ, ◌≤◌, ◌<◌, String, eq_iff, ◌≡◌, sym, ap,
  ◌∙◌, subst, inl, inr, Bool, true, false, ◌&&◌, ◌||◌, Option, none, some, List, [], ◌∷◌, arith,
  ltb, ◌==◌, Bool-cases, ==→eq, find, filter, update_where, count, All, All-update_where,
}
use voyya_backend.Auth.OtpCodes.{
  OtpCode, OtpError, Interference, find_live_otp, later_code, latest_code, is_live, is_open_code,
  count_attempt, reserve_otp_attempt, is_unconsumed, consume_otp, compare_code, check_code,
  verify_found, verify_code,
}

abbrev pub consume_row : OtpCode → OtpCode
consume_row o = record o { consumed = true }

none_unconsumed :
    (k : ℕ) (rows : List OtpCode)
    → count (is_unconsumed k) (update_where (is_unconsumed k) consume_row rows) ≡ 0
none_unconsumed k [] = refl
none_unconsumed k (o ∷ os) = ground (arith, none_unconsumed k os)

abbrev answer_of : Result OtpError ℕ → List OtpCode → Result OtpError ℕ × List OtpCode
answer_of r rows = (r, rows)

abbrev key_of : Result OtpError ℕ → Result OtpError ℕ
key_of r = r

-- An answer to a comparison that succeeds has used the code up.
compared :
    (matches : String → String → Bool) (others : Interference) (code : String) (o : OtpCode)
    (rows rows' : List OtpCode) (k : ℕ)
    → compare_code matches others code o rows ≡ (ok k, rows')
    → (matches code o.code_hash ≡ true)
      × (o.id ≡ k)
      × (count (is_unconsumed k) (others.after_reservation rows) ≡ 1)
      × (count (is_unconsumed k) rows' ≡ 0)
unfolding consume_otp
compared matches others code o rows rows' k h = elim (Bool-cases (matches code o.code_hash)) [
  | inr e ↦ cc (rw e at h)
  | inl e ↦
      let later = others.after_reservation rows in
      elim (Bool-cases (count (is_unconsumed o.id) later == 1)) [
        | inr other ↦ cc (rw (e, other) at h)
        | inl one ↦
            let consumed = update_where (is_unconsumed o.id) consume_row later in
            let q : answer_of (ok o.id) consumed ≡ answer_of (ok k) rows' = rw (e, one) at h in
            let r : key_of (ok o.id) ≡ key_of (ok k) = ap (λ x. key_of x.0) q in
            let same_key : o.id ≡ k = cc in
            (
              e,
              same_key,
              subst (λ n. count (is_unconsumed n) later ≡ 1) same_key (==→eq _ _ one),
              subst (λ n. count (is_unconsumed n) rows' ≡ 0) same_key
                  (ap (λ x. count (is_unconsumed o.id) x.1) (sym q) ∙ none_unconsumed o.id later),
            )
      ]
]

-- The latest of some codes is one of them, and none of them was created after it.
latest_lem :
    (rows : List OtpCode) (s : OtpCode)
    → latest_code rows ≡ some s
    → In s rows × ((x : OtpCode) → In x rows → x.created_at ≤ s.created_at)
unfolding latest_code
latest_lem [] s e = cc
latest_lem (o ∷ []) s e =
    let q : o ≡ s = cc in
    (inl (sym q), λ x m. elim m [ inr n ↦ absurd n | inl r ↦ same_age (r ∙ q) ])
  where
    same_age : {x y : OtpCode} → x ≡ y → x.created_at ≤ y.created_at
    same_age {x} {y} r =
        let t : x.created_at ≡ y.created_at = ap (λ (z : OtpCode). z.created_at) r in
        omega (arith, t)
latest_lem (o ∷ y ∷ ys) s e = go (latest_lem (y ∷ ys)) (latest_code (y ∷ ys)) refl e
  where
    same_age : {x z : OtpCode} → x ≡ z → x.created_at ≡ z.created_at
    same_age r = ap (λ (z : OtpCode). z.created_at) r

    go :
        ((best : OtpCode)
          → latest_code (y ∷ ys) ≡ some best
          → In best (y ∷ ys) × ((x : OtpCode) → In x (y ∷ ys) → x.created_at ≤ best.created_at))
        → (rest : Option OtpCode) → latest_code (y ∷ ys) ≡ rest
        → some (later_code o rest) ≡ some s
        → In s (o ∷ y ∷ ys) × ((x : OtpCode) → In x (o ∷ y ∷ ys) → x.created_at ≤ s.created_at)
    go rec none q e' = cc
    go rec (some best) q e' =
        let (m, oldest) = rec best q in
        elim (Bool-cases (
          ltb best.created_at o.created_at
          || best.created_at == o.created_at && ltb best.id o.id)) [
            | inl newer ↦
                let same' : some o ≡ some s = rw newer at e' in
                let t : o ≡ s = cc in
                (
                  inl (sym t),
                  λ x n. elim n [
                    | inl r ↦ omega (arith, same_age (r ∙ t))
                    | inr n' ↦
                        let le = oldest x n' in
                        let age = same_age t in ground (arith, le, age, newer)
                  ],
                )
            | inr older ↦
                let same' : some best ≡ some s = rw older at e' in
                let t : best ≡ s = cc in
                (
                  inr (subst (λ z. In z (y ∷ ys)) t m),
                  λ x n. elim n [
                    | inl r ↦
                        let age = same_age r in
                        let age' = same_age t in ground (arith, age, age', older)
                    | inr n' ↦ omega (arith, oldest x n', same_age t)
                  ],
                )
          ]

-- The latest code of a phone that could be used at an instant.
abbrev pub Sought : ℕ → String → List OtpCode → ℕ → Type 0
Sought searched phone rows k =
    (s : OtpCode) × In s rows
    × (s.id ≡ k)
    × (s.phone ≡ phone)
    × (s.consumed ≡ false)
    × (searched < s.expires_at)
    × ((x : OtpCode)
        → In x rows
        → x.phone ≡ phone
        → x.consumed ≡ false
        → searched < x.expires_at
        → x.created_at ≤ s.created_at)

sought :
    (searched : ℕ) (phone : String) (rows : List OtpCode) (s : OtpCode)
    → find_live_otp searched phone rows ≡ some s
    → Sought searched phone rows s.id
unfolding find_live_otp
sought searched phone rows s e =
    let (m, oldest) = latest_lem (filter (is_live searched phone) rows) s e in
    let (n, live) = filter-In (is_live searched phone) s rows m in
    (
      s,
      n,
      refl,
      (eq_iff s.phone phone).0 (ground (arith, live)),
      ground (arith, live),
      ground (arith, live),
      λ x l own unused alive.
          let named = (eq_iff x.phone phone).1 own in
          oldest x
            (In-filter (is_live searched phone) x rows l (ground (arith, named, unused, alive))),
    )

-- The code that a verification accepts: it was open, and matches what was given.
abbrev pub Accepted : (String → String → Bool) → ℕ → ℕ → String → List OtpCode → ℕ → Type 0
Accepted matches now max_attempts code rows k =
    (o : OtpCode) × In o rows
    × (o.id ≡ k)
    × (o.attempts < max_attempts)
    × (o.consumed ≡ false)
    × (now < o.expires_at)
    × (matches code o.code_hash ≡ true)

-- The table after an attempt at a code has been counted.
abbrev pub counted : ℕ → ℕ → ℕ → List OtpCode → List OtpCode
counted now k max_attempts = update_where (is_open_code now k max_attempts) count_attempt

module _ (matches : String → String → Bool) (others : Interference) (now max_attempts : ℕ)
    (code : String) where
  checked :
      (k : ℕ) (rows rows' : List OtpCode) (found : Option OtpCode) (j : ℕ)
      → find (is_open_code now k max_attempts) rows ≡ found
      → check_code matches others now k max_attempts code (found, counted now k max_attempts rows)
        ≡ (ok j, rows')
      → (k ≡ j)
        × Accepted matches now max_attempts code rows j
        × (count (is_unconsumed j) (others.after_reservation (counted now k max_attempts rows)) ≡ 1)
        × (count (is_unconsumed j) rows' ≡ 0)
  checked k rows rows' none j e h = cc
  checked k rows rows' (some o) j e h =
      let (right, same_key, one, none_left) =
        compared matches others code o (counted now k max_attempts rows) rows' j h in
      let (m, open') = find-In (is_open_code now k max_attempts) rows o e in
      let own : o.id ≡ k = ==→eq o.id k (ground (arith, open')) in
      (
        sym own ∙ same_key,
        (
          o,
          m,
          same_key,
          ground (arith, open'),
          ground (arith, open'),
          ground (arith, open'),
          right,
        ),
        one,
        none_left,
      )

  -- A verification that succeeds answers a code that was, when it was sought, one of the phone, neither
  -- used nor over, than which no such code was created later; that was, when an attempt was counted,
  -- not used, not over, with attempts left, and matches what was given; and that was one unused row
  -- when it was used up, and none after, whatever others do between these statements.
  pub verify_code_lem :
      (searched : ℕ) (phone : String) (rows rows' : List OtpCode) (j : ℕ)
      → verify_code matches others searched now max_attempts phone code rows ≡ (ok j, rows')
      → let reserving = others.after_search rows in
        Sought searched phone rows j
        × Accepted matches now max_attempts code reserving j
        × (count (is_unconsumed j) (others.after_reservation (counted now j max_attempts reserving))
            ≡ 1)
        × (count (is_unconsumed j) rows' ≡ 0)
  unfolding verify_code reserve_otp_attempt
  verify_code_lem searched phone rows rows' j h = go (find_live_otp searched phone rows) refl h
    where
      reserving : List OtpCode
      reserving = others.after_search rows

      go :
          (found : Option OtpCode)
          → find_live_otp searched phone rows ≡ found
          → verify_found matches others now max_attempts code found rows ≡ (ok j, rows')
          → Sought searched phone rows j
            × Accepted matches now max_attempts code (others.after_search rows) j
            × (count
                  (is_unconsumed j)
                  (others.after_reservation (counted now j max_attempts (others.after_search rows)))
                ≡ 1)
            × (count (is_unconsumed j) rows' ≡ 0)
      go none e h = cc
      go (some s) e h =
          let open_rows = others.after_search rows in
          let (same_key, accepted, one, none_left) =
            checked s.id open_rows rows' (find (is_open_code now s.id max_attempts) open_rows) j
              refl h in
          (
            subst (λ k. Sought searched phone rows k) same_key (sought searched phone rows s e),
            accepted,
            subst
                (λ k.
                  count (is_unconsumed j)
                    (others.after_reservation (counted now k max_attempts open_rows))
                  ≡ 1)
                same_key one,
            none_left,
          )

abbrev pub HasAttempts : ℕ → OtpCode → Type 0
HasAttempts max_attempts o = o.attempts ≤ max_attempts

-- What others do brings no code beyond the attempts.
abbrev pub KeepsAttempts : ℕ → (List OtpCode → List OtpCode) → Type 0
KeepsAttempts max_attempts f =
    (rows : List OtpCode)
    → All (HasAttempts max_attempts) rows
    → All (HasAttempts max_attempts) (f rows)

module _ (matches : String → String → Bool) (others : Interference) (now max_attempts : ℕ)
    (code : String) (search_kept : KeepsAttempts max_attempts others.after_search)
    (reservation_kept : KeepsAttempts max_attempts others.after_reservation)
    (refusal_kept : KeepsAttempts max_attempts others.after_refusal) where
  compared_bounded :
      (o : OtpCode) (rows : List OtpCode)
      → All (HasAttempts max_attempts) rows
      → All (HasAttempts max_attempts) (compare_code matches others code o rows).1
  unfolding consume_otp
  compared_bounded o rows b = elim (Bool-cases (matches code o.code_hash)) [
    | inr e ↦ rw e b
    | inl e ↦ rw e (
        All-update_where (HasAttempts max_attempts) (is_unconsumed o.id) consume_row
          (others.after_reservation rows) (λ x w i. i) (reservation_kept rows b))
  ]

  found_bounded :
      (found : Option OtpCode) (rows : List OtpCode)
      → All (HasAttempts max_attempts) rows
      → All
          (HasAttempts max_attempts)
          (verify_found matches others now max_attempts code found rows).1
  unfolding reserve_otp_attempt
  found_bounded none rows b = b
  found_bounded (some o) rows b =
      reserved (find (is_open_code now o.id max_attempts) (others.after_search rows))
    where
      after :
          All (HasAttempts max_attempts) (counted now o.id max_attempts (others.after_search rows))
      after =
          All-update_where (HasAttempts max_attempts) (is_open_code now o.id max_attempts)
            count_attempt (others.after_search rows) (λ x w i. ground arith) (search_kept rows b)

      reserved :
          (r : Option OtpCode)
          → All
              (HasAttempts max_attempts)
              (check_code matches others now o.id max_attempts code
                (r, counted now o.id max_attempts (others.after_search rows))).1
      reserved none = refusal_kept (counted now o.id max_attempts (others.after_search rows)) after
      reserved (some x) =
          compared_bounded x (counted now o.id max_attempts (others.after_search rows)) after

  -- Where others bring no code beyond the attempts that it may have, no verification, whatever its
  -- code, does.
  pub verify_code-HasAttempts :
      (searched : ℕ) (phone : String) (rows : List OtpCode)
      → All (HasAttempts max_attempts) rows
      → All
          (HasAttempts max_attempts)
          (verify_code matches others searched now max_attempts phone code rows).1
  unfolding verify_code
  verify_code-HasAttempts searched phone rows b =
      found_bounded (find_live_otp searched phone rows) rows b
