-- ===== src/Auth/DriverPin/Lockout.antt =====
-- The lockout of a driver's account, and the change of its PIN made twice:
-- apps/api/src/modules/auth/auth.service.ts and driver-pin.service.ts.
use voyya_backend.Prelude.{
  lt→ltb, ◌&&◌, [], ◌∷◌, inl, inr, ltb→lt, ◌+◌, ◌*◌, some, none, sym, subst, ok, Result, err, ℕ,
  ◌≤◌, ◌<◌, ◌≡◌, refl, ap, ◌∙◌, Bool, true, false, List, arith, ltb, Bool-cases, length, All,
}
use voyya_backend.Auth.DriverPin.{
  DriverAccount, Hasher, LoginSettings, PinError, account_blocked, lockout_after_failure,
  register_failure, count_failure, is_blocked, is_suspended, is_past, driver_login, apply_new_pin,
  is_pin_from_personal_data, evaluate,
}

-- The account after guesses at one instant.
unfoldable pub guess_all :
    Hasher → LoginSettings → ℕ → List (List ℕ) → DriverAccount → DriverAccount
unfolding driver_login
guess_all hasher settings clock [] d = d
guess_all hasher settings clock (pin ∷ pins) d =
    guess_all hasher settings clock pins (driver_login hasher settings clock pin d).1

abbrev pub is_blocked_error : Result PinError Bool → Bool
is_blocked_error (err (account_blocked left)) = true
is_blocked_error _ = false

module _ (hasher : Hasher) (settings : LoginSettings) (clock : ℕ) where
  -- A blocked account refuses every PIN and counts no guess.
  blocked_login :
      (at : ℕ) (pin : List ℕ) (d : DriverAccount)
      → is_blocked at d.blocked_until ≡ true
      → (is_blocked_error (driver_login hasher settings at pin d).0 ≡ true)
        × ((driver_login hasher settings at pin d).1 ≡ d)
  unfolding driver_login
  blocked_login at pin d e = (rw e refl, rw e refl)

  blocked_guesses :
      (pins : List (List ℕ)) (d : DriverAccount)
      → is_blocked clock d.blocked_until ≡ true
      → guess_all hasher settings clock pins d ≡ d
  unfolding guess_all
  blocked_guesses [] d e = refl
  blocked_guesses (pin ∷ pins) d e =
      ap (guess_all hasher settings clock pins) (blocked_login clock pin d e).1
      ∙ blocked_guesses pins d e

  wrong_login :
      (pin : List ℕ) (d : DriverAccount)
      → is_blocked clock d.blocked_until ≡ false
      → hasher.matches pin d.pin ≡ false
      → (driver_login hasher settings clock pin d).1
        ≡ register_failure (lockout_after_failure settings clock d.failed_attempts) d
  unfolding driver_login count_failure
  wrong_login pin d open' wrong = rw (open', wrong) refl

  -- The lock that the guesses end in.
  locked :
      (pins : List (List ℕ)) (d : DriverAccount)
      → 0 < settings.login_block_minutes
      → is_blocked clock d.blocked_until ≡ false
      → All (λ pin. hasher.matches pin d.pin ≡ false) pins
      → d.failed_attempts < settings.login_max_attempts
      → settings.login_max_attempts ≤ d.failed_attempts + length pins
      → (guess_all hasher settings clock pins d).blocked_until
        ≡ some (clock + settings.login_block_minutes * 60000)
  unfolding guess_all
  locked [] d minutes open' wrong few enough = absurd (omega (arith, few, enough))
  locked (pin ∷ pins) d minutes open' wrong few enough =
      let next = wrong_login pin d open' wrong.0 in
      elim (Bool-cases (ltb (d.failed_attempts + 1) settings.login_max_attempts)) [
        | inl more ↦
            let counted : (driver_login hasher settings clock pin d).1 ≡ register_failure none d =
              next ∙ (rw more) in
            ap (λ x. (guess_all hasher settings clock pins x).blocked_until) counted
            ∙ locked pins (register_failure none d) minutes refl wrong.1 (ltb→lt _ _ more)
                (omega (arith, enough))
        | inr last ↦
            let until = some (clock + settings.login_block_minutes * 60000) in
            let counted : (driver_login hasher settings clock pin d).1 ≡ register_failure until d =
              next ∙ (rw last) in
            let shut : is_blocked clock until ≡ true = ground arith in
            ap (λ x. (guess_all hasher settings clock pins x).blocked_until) counted
            ∙ ap (λ (x : DriverAccount). x.blocked_until)
                (blocked_guesses pins (register_failure until d) shut)
      ]

  -- For an account that is not blocked and has failed fewer times than it may, with a block of a
  -- minute at least: after wrong guesses at one instant that bring its failures to the limit or past it,
  -- every login before the end of the block is refused as blocked, with the right PIN too, and
  -- changes nothing.
  pub guesses_block :
      (pins : List (List ℕ)) (d : DriverAccount)
      → 0 < settings.login_block_minutes
      → is_blocked clock d.blocked_until ≡ false
      → All (λ pin. hasher.matches pin d.pin ≡ false) pins
      → d.failed_attempts < settings.login_max_attempts
      → settings.login_max_attempts ≤ d.failed_attempts + length pins
      → (at : ℕ) (pin : List ℕ) → at < clock + settings.login_block_minutes * 60000
      → let after = guess_all hasher settings clock pins d in
        (is_blocked_error (driver_login hasher settings at pin after).0 ≡ true)
        × ((driver_login hasher settings at pin after).1 ≡ after)
  guesses_block pins d minutes open' wrong few enough at pin early =
      let until = locked pins d minutes open' wrong few enough in
      let shut : is_blocked at (some (clock + settings.login_block_minutes * 60000)) ≡ true =
        ground arith in
      blocked_login at pin (guess_all hasher settings clock pins d)
        (ap (is_blocked at) until ∙ shut)

  -- What a change that succeeds with the PIN that the account has leaves.
  changed :
      (now : ℕ) (current_pin new_pin : List ℕ) (d : DriverAccount)
      → hasher.matches current_pin d.pin ≡ true
      → (evaluate hasher settings clock now current_pin new_pin d).0 ≡ ok false
      → ((evaluate hasher settings clock now current_pin new_pin d).1
          ≡ apply_new_pin now (hasher.hash new_pin) d)
        × (is_suspended d ≡ false)
  unfolding evaluate
  changed now current_pin new_pin d right done' =
      elim (Bool-cases (is_blocked clock d.blocked_until)) [
        | inl e ↦ cc (rw e at done')
        | inr open' ↦ elim (Bool-cases (is_suspended d)) [
          | inl e ↦ cc (rw (open', right, e) at done')
          | inr fit ↦
              elim (Bool-cases (d.pin_must_change && is_past clock d.temporary_pin_expires_at)) [
                | inl e ↦ cc (rw (open', right, fit, e) at done')
                | inr alive ↦
                    elim (Bool-cases
                      (is_pin_from_personal_data new_pin (d.national_id ∷ d.phone ∷ []))) [
                        | inl e ↦ cc (rw (open', right, fit, alive, e) at done')
                        | inr strong ↦ (rw (open', right, fit, alive, strong) refl, fit)
                      ]
              ]
        ]
      ]

  -- A call that repeats a completed change finds the new PIN.
  again :
      (clock' now now' : ℕ) (current_pin new_pin : List ℕ) (d : DriverAccount)
      → hasher.matches new_pin (hasher.hash new_pin) ≡ true
      → hasher.matches current_pin (hasher.hash new_pin) ≡ false
      → is_suspended d ≡ false
      → clock' < now + 60000
      → let after = apply_new_pin now (hasher.hash new_pin) d in
        evaluate hasher settings clock' now' current_pin new_pin after ≡ (ok false, after)
  unfolding evaluate
  again clock' now now' current_pin new_pin d own other fit soon =
      rw (other, own, lt→ltb _ _ soon, fit) refl

  -- A change of the PIN that is repeated within a minute succeeds again and changes nothing, where
  -- the first was made with the account's PIN, and the hash of the new PIN matches it and not the PIN
  -- that it replaces.
  pub change_repeated :
      (now clock' now' : ℕ) (current_pin new_pin : List ℕ) (d : DriverAccount)
      → hasher.matches current_pin d.pin ≡ true
      → hasher.matches new_pin (hasher.hash new_pin) ≡ true
      → hasher.matches current_pin (hasher.hash new_pin) ≡ false
      → (evaluate hasher settings clock now current_pin new_pin d).0 ≡ ok false
      → clock' < now + 60000
      → let after = (evaluate hasher settings clock now current_pin new_pin d).1 in
        (after ≡ apply_new_pin now (hasher.hash new_pin) d)
        × (evaluate hasher settings clock' now' current_pin new_pin after ≡ (ok false, after))
  change_repeated now clock' now' current_pin new_pin d right own other done' soon =
      let (after, fit) = changed now current_pin new_pin d right done' in
      (
        after,
        subst (λ x. evaluate hasher settings clock' now' current_pin new_pin x ≡ (ok false, x))
            (sym after) (again clock' now now' current_pin new_pin d own other fit soon),
      )
