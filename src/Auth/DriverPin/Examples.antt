-- ===== src/Auth/DriverPin/Examples.antt =====
-- A driver's account that is locked, and one whose PIN is changed.
use voyya_backend.Prelude.{
  if◌then◌else◌, ◌==◌, String, ℕ, str_eq, ◌≡◌, refl, true, false, none, some, List, [], ◌∷◌, arith,
  any,
}
use voyya_backend.Auth.DriverPin.{DriverAccount, Hasher, LoginSettings, driver_login}
use voyya_backend.Auth.DriverPin.Lockout.{guess_all, is_blocked_error, guesses_block}
use voyya_backend.Db.Rows.{available}

abbrev hash_pin : List ℕ → String
hash_pin pin = if any (λ c. c == 50) pin then "with a two" else "without a two"

abbrev hasher : Hasher
hasher = record { hash = hash_pin; matches = λ pin stored. str_eq (hash_pin pin) stored }

abbrev login_settings : LoginSettings
login_settings = record { login_max_attempts = 5; login_block_minutes = 15 }

-- Its PIN is 9191, to be changed.
abbrev driver_account : DriverAccount
driver_account = record {
  pin = "without a two";
  status = available;
  account_suspended = false;
  failed_attempts = 3;
  blocked_until = none;
  pin_must_change = true;
  temporary_pin_expires_at = some 900000;
  pin_changed_at = none;
  pin_delivered_at = some 1000;
  national_id = 49 ∷ 48 ∷ 51 ∷ 52 ∷ 53 ∷ [];
  phone = 51 ∷ 48 ∷ 48 ∷ 49 ∷ 49 ∷ [];
}

abbrev right_pin : List ℕ
right_pin = 57 ∷ 49 ∷ 57 ∷ 49 ∷ []

abbrev wrong_pin : List ℕ
wrong_pin = 57 ∷ 50 ∷ 57 ∷ 50 ∷ []

guesses_block_example :
    let after =
      guess_all hasher login_settings 200000 (wrong_pin ∷ wrong_pin ∷ []) driver_account in
    (is_blocked_error (driver_login hasher login_settings 300000 right_pin after).0 ≡ true)
    × ((driver_login hasher login_settings 300000 right_pin after).1 ≡ after)
guesses_block_example =
    guesses_block hasher login_settings 200000 (wrong_pin ∷ wrong_pin ∷ []) driver_account
      (omega arith) refl (refl, (refl, tt)) (omega arith) (omega arith) 300000 right_pin
      (omega arith)
