-- ===== src/Auth/DriverPin.antt =====
-- apps/api/src/modules/auth: driverLogin of auth.service.ts, driver-pin.service.ts with
-- driver-pin.repository.ts, login-lockout.ts, and isPinFromPersonalData of
-- packages/shared/src/contracts/auth.ts. A call finds the row of one driver, under a lock where it
-- changes the PIN, and writes no other, so the state is that row. Texts of digits are lists of
-- character codes; the hash of a PIN and its comparison are parameters.
pub mod Lockout
mod Examples
use voyya_backend.Prelude.{
  Result, ok, err, ℕ, zero, suc, ◌+◌, ◌-◌, ◌*◌, ◌/◌, ◌%◌, ◌≤◌, ◌<◌, compare, Ordering, min, max,
  String, str_eq, eq_iff, ◌≡◌, refl, sym, ap, ap₂, ◌∙◌, subst, ◌≢◌, ◌↔◌, ◌⊎◌, inl, inr, Bool, true,
  false, not, ◌&&◌, ◌||◌, Option, none, some, List, [], ◌∷◌, ◌++◌, map, arith, ltb, leb, ◌==◌,
  if◌then◌else◌, is_none, is_some, or_else, Bool-cases, Option-cases, ltb→lt, lt→ltb, leb→le,
  le→leb, ==→eq, ==_refl, length, length-append, find, filter, update_where, any, count, All,
  Rowwise, All-update_where, Rowwise-update_where, any-eq_false, All-find, Rowwise-refl,
  Rowwise-trans, find-update_where, keep, find-and, count-update_where, update_where-none, any-find,
}
use voyya_backend.Db.Rows.{DriverStatus, suspended, documents_blocked, same_driver_status}

pub record DriverAccount : Type 0 where
  pub pin : String
  pub status : DriverStatus
  pub account_suspended : Bool
  pub failed_attempts : ℕ
  pub blocked_until : Option ℕ
  pub pin_must_change : Bool
  pub temporary_pin_expires_at : Option ℕ
  pub pin_changed_at : Option ℕ
  pub pin_delivered_at : Option ℕ
  pub national_id : List ℕ
  pub phone : List ℕ

pub record Hasher : Type 0 where
  pub hash : List ℕ → String
  pub matches : List ℕ → String → Bool

pub record LoginSettings : Type 0 where
  pub login_max_attempts : ℕ
  pub login_block_minutes : ℕ

pub data PinError : Type 0 where
  invalid_credentials account_suspended temporary_pin_expired pin_too_weak pin_not_delivered :
      PinError
  -- with the seconds that remain
  account_blocked : ℕ → PinError

-- lockoutAfterFailure
abbrev pub lockout_after_failure : LoginSettings → ℕ → ℕ → Option ℕ
lockout_after_failure settings clock failed_attempts =
    if ltb (failed_attempts + 1) settings.login_max_attempts
    then none
    else some (clock + settings.login_block_minutes * 60000)

-- registerFailure, registerDriverFailure
abbrev pub register_failure : Option ℕ → DriverAccount → DriverAccount
register_failure blocked d = record d {
  failed_attempts = d.failed_attempts + 1;
  blocked_until = blocked;
}

abbrev pub failure_error : LoginSettings → Option ℕ → PinError
failure_error settings none = invalid_credentials
failure_error settings (some until) = account_blocked (settings.login_block_minutes * 60)

-- countFailure
unfoldable pub count_failure : LoginSettings → ℕ → DriverAccount → PinError × DriverAccount
count_failure settings clock d =
    let blocked = lockout_after_failure settings clock d.failed_attempts in
    (failure_error settings blocked, register_failure blocked d)

abbrev pub is_blocked : ℕ → Option ℕ → Bool
is_blocked clock none = false
is_blocked clock (some until) = ltb clock until

abbrev seconds_until : ℕ → Option ℕ → ℕ
seconds_until clock none = 0
seconds_until clock (some until) = (until - clock + 999) / 1000

abbrev pub is_past : ℕ → Option ℕ → Bool
is_past clock none = false
is_past clock (some at) = leb at clock

-- isSuspended
abbrev pub is_suspended : DriverAccount → Bool
is_suspended d =
    same_driver_status d.status suspended
    || same_driver_status d.status documents_blocked
    || d.account_suspended

-- resetDriverAttempts
abbrev pub reset_attempts : DriverAccount → DriverAccount
reset_attempts d = record d { failed_attempts = 0; blocked_until = none }

abbrev pub failed : PinError × DriverAccount → Result PinError Bool × DriverAccount
failed (e, d) = (err e, d)

-- driverLogin, for a driver that is found; a session that must change its PIN first is `true`.
unfoldable pub driver_login :
    Hasher → LoginSettings → ℕ → List ℕ → DriverAccount → Result PinError Bool × DriverAccount
unfolding count_failure
driver_login hasher settings clock pin d =
    if is_blocked clock d.blocked_until
    then (err (account_blocked (seconds_until clock d.blocked_until)), d)
    else if not (hasher.matches pin d.pin)
    then failed (count_failure settings clock d)
    else if is_none d.pin_delivered_at
    then (err pin_not_delivered, d)
    else if d.pin_must_change && is_past clock d.temporary_pin_expires_at
    then (err temporary_pin_expired, d)
    else if is_suspended d
    then (err account_suspended, d)
    else (ok d.pin_must_change, reset_attempts d)

-- isPinFromPersonalData
abbrev is_digit : ℕ → Bool
is_digit c = leb 48 c && leb c 57

abbrev same_text : List ℕ → List ℕ → Bool
same_text [] [] = true
same_text (x ∷ xs) (y ∷ ys) = x == y && same_text xs ys
same_text _ _ = false

abbrev ends_with : List ℕ → List ℕ → Bool
ends_with [] pin = same_text [] pin
ends_with (c ∷ cs) pin = same_text (c ∷ cs) pin || ends_with cs pin

unfoldable pub is_pin_from_personal_data : List ℕ → List (List ℕ) → Bool
is_pin_from_personal_data pin values =
    any
      (λ value.
        leb (length pin) (length (filter is_digit value)) && ends_with (filter is_digit value) pin)
      values

-- applyNewPin; `now` is the transaction's clock.
abbrev pub apply_new_pin : ℕ → String → DriverAccount → DriverAccount
apply_new_pin now hash d = record d {
  pin = hash;
  pin_must_change = false;
  temporary_pin_expires_at = none;
  pin_changed_at = some now;
  failed_attempts = 0;
  blocked_until = none;
}

abbrev within_retry_window : ℕ → Option ℕ → Bool
within_retry_window clock none = false
within_retry_window clock (some changed) = ltb clock (changed + 60000)

-- isRepeatOfCompletedChange
abbrev pub is_repeat : Hasher → ℕ → List ℕ → DriverAccount → Bool
is_repeat hasher clock new_pin d =
    not d.pin_must_change
    && within_retry_window clock d.pin_changed_at
    && hasher.matches new_pin d.pin

-- evaluate; a call that succeeds gives the driver's profile.
unfoldable pub evaluate :
    Hasher
    → LoginSettings
    → ℕ
    → ℕ
    → List ℕ
    → List ℕ
    → DriverAccount
    → Result PinError Bool × DriverAccount
unfolding count_failure is_pin_from_personal_data
evaluate hasher settings clock now current_pin new_pin d =
    if is_blocked clock d.blocked_until
    then (err (account_blocked (seconds_until clock d.blocked_until)), d)
    else if not (hasher.matches current_pin d.pin)
    then (if is_repeat hasher clock new_pin d
        then (if is_suspended d then (err account_suspended, d) else (ok false, d))
        else failed (count_failure settings clock d))
    else if is_suspended d
    then (err account_suspended, d)
    else if d.pin_must_change && is_past clock d.temporary_pin_expires_at
    then (err temporary_pin_expired, d)
    else if is_pin_from_personal_data new_pin (d.national_id ∷ d.phone ∷ [])
    then (err pin_too_weak, d)
    else (ok false, apply_new_pin now (hasher.hash new_pin) d)
