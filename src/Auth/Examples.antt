-- ===== src/Auth/Examples.antt =====
-- Tokens, codes and the limiter on small tables.
use voyya_backend.Prelude.{
  err, ◌≤◌, str_eq, ◌≡◌, refl, true, false, ◌&&◌, none, some, List, [], ◌∷◌, arith, any, count, All,
  update_where, All-update_where,
}
use voyya_backend.Auth.RefreshTokens.{
  RefreshToken, refresh_revoked, TokenSettings, FreshToken, is_open_of, rotate, rotate_row, swap,
  issue,
}
use voyya_backend.Auth.RefreshTokens.Rotation.{Grows-refl, rotated_once}
use voyya_backend.Auth.OtpIssueLimiter.{Event, arrives, finishes, times_out, run, idle}
use voyya_backend.Auth.OtpIssueLimiter.Bounds.{
  IsBounded, known, limiter_lem, releases, releases_lem,
}
use voyya_backend.Auth.OtpPolicy.{OtpIssuancePolicy, OtpIssuanceWaits, OtpRefusal, OtpRefusalCap}
use voyya_backend.Auth.OtpCodes.{
  OtpCode, of_phone_within, created_within, is_live, issue_otp, otp_waits, wait_for, is_unconsumed,
  Interference, count_attempt, is_open_code, verify_code, find_live_otp, latest_code,
  reserve_otp_attempt, consume_otp,
}
use voyya_backend.Auth.OtpCodes.Issuance.{
  is_issued, under_caps, HasLimits, issue_otp-is_issued, issue_otp-limits,
}
use voyya_backend.Auth.OtpCodes.Attempts.{
  Accepted, Sought, counted, KeepsAttempts, HasAttempts, verify_code_lem, verify_code-HasAttempts,
}

abbrev settings : TokenSettings
settings = record { hash_token = λ token. token; ttl_days = 30 }

abbrev session : RefreshToken
session = record { id = 1; user_id = 21; token_hash = "first"; expires_at = 9000; revoked = false }

abbrev second_token : FreshToken
second_token = record { key = 2; token = "second" }

abbrev rotated_rows : List RefreshToken
rotated_rows = (rotate settings 5000 second_token (λ rows. rows) "first" (session ∷ [])).1

rotated_once_example :
    ((rotate settings 6000
        (record { key = 3; token = "third" })
        (λ rows. rows)
        "first"
        rotated_rows).0
      ≡ err refresh_revoked)
    × (any
          (is_open_of 21)
          (rotate settings 6000
            (record { key = 3; token = "third" })
            (λ rows. rows)
            "first"
            rotated_rows).1
        ≡ false)
unfolding rotate rotate_row swap issue
rotated_once_example =
    rotated_once settings 5000 6000 second_token (record { key = 3; token = "third" })
      (λ rows. rows) (λ rows. rows) "first" "second" 21 (session ∷ []) rotated_rows rotated_rows
      (Grows-refl (session ∷ [])) refl (Grows-refl rotated_rows)

abbrev rush : List Event
rush = arrives 1 ∷ arrives 2 ∷ arrives 3 ∷ times_out 3 ∷ finishes 1 ∷ []

limiter_lem_example : IsBounded 1 5 (run 1 5 idle rush) × (known (run 1 5 idle rush) ≡ 3)
limiter_lem_example = limiter_lem 1 5 rush

releases_lem_example :
    releases 3 (record { active = 1; queue = 4 ∷ 5 ∷ 6 ∷ 7 ∷ [] }) ≡ 4 ∷ 5 ∷ 6 ∷ []
releases_lem_example = releases_lem 1 (4 ∷ 5 ∷ []) 6 (7 ∷ [])

abbrev long_waits : OtpIssuanceWaits
long_waits = record {
  cooldown_wait = some 30;
  hourly_wait = some 900;
  daily_wait = none;
  global_wait = some 40;
}

abbrev hourly_refusal : OtpRefusal
hourly_refusal = record {
  cap = OtpRefusalCap.hourly;
  retry_in_sec = 900;
  global_cap_reached = true;
}

abbrev policy : OtpIssuancePolicy
policy = record {
  ttl_sec = 300;
  cooldown_sec = 60;
  hourly_limit = 5;
  hourly_window_sec = 3600;
  daily_limit = 10;
  daily_window_sec = 86400;
  global_limit = 1000;
}

policy_limits : HasLimits policy
policy_limits = record { hourly = omega arith; daily = omega arith; global = omega arith }

abbrev live_code : OtpCode
live_code = record {
  id = 1;
  phone = "3001234567";
  code_hash = "123456";
  expires_at = 400000;
  created_at = 100000;
  attempts = 2;
  consumed = false;
}

issue_otp-is_issued_example :
    (is_issued (issue_otp true 200000 2 "3001234567" "654321" policy (live_code ∷ [])).0
      ≡ (true && under_caps 200000 "3001234567" policy (live_code ∷ [])))
    × (is_issued (issue_otp true 200000 2 "3001234567" "654321" policy (live_code ∷ [])).0 ≡ false
        → (issue_otp true 200000 2 "3001234567" "654321" policy (live_code ∷ [])).1
          ≡ live_code ∷ [])
issue_otp-is_issued_example =
    issue_otp-is_issued true 200000 2 "3001234567" "654321" policy (live_code ∷ []) policy_limits

issue_otp-limits_example :
    let after = (issue_otp true 200000 2 "3001234567" "654321" policy (live_code ∷ [])).1 in
    (count (is_live 200000 "3001234567") after ≤ 1)
    × (count (of_phone_within 200000 "3001234567" 3600) after ≤ 5)
    × (count (of_phone_within 200000 "3001234567" 86400) after ≤ 10)
    × (count (created_within 200000 86400) after ≤ 1000)
unfolding issue_otp otp_waits wait_for
issue_otp-limits_example =
    issue_otp-limits true 200000 2 "3001234567" "654321" policy (live_code ∷ []) policy_limits refl

-- Another verification counts an attempt of its own after the search.
abbrev another : Interference
another = record {
  after_search = update_where (is_open_code 200000 1 5) count_attempt;
  after_reservation = λ rows. rows;
  after_refusal = λ rows. rows;
}

abbrev after_verification : List OtpCode
after_verification =
    (verify_code str_eq another 200000 200100 5 "3001234567" "123456" (live_code ∷ [])).1

verify_code_lem_example :
    let reserving = record live_code { attempts = 3 } ∷ [] in
    Sought 200000 "3001234567" (live_code ∷ []) 1
    × Accepted str_eq 200100 5 "123456" reserving 1
    × (count (is_unconsumed 1) (counted 200100 1 5 reserving) ≡ 1)
    × (count (is_unconsumed 1) after_verification ≡ 0)
unfolding verify_code find_live_otp latest_code reserve_otp_attempt consume_otp
verify_code_lem_example =
    verify_code_lem str_eq another 200100 5 "123456" 200000 "3001234567" (live_code ∷ [])
      after_verification 1 refl

another-KeepsAttempts : KeepsAttempts 5 another.after_search
another-KeepsAttempts rows b =
    All-update_where (HasAttempts 5) (is_open_code 200000 1 5) count_attempt rows
      (λ x w i. ground arith) b

verify_code-HasAttempts_example :
    All
      (HasAttempts 5)
      (verify_code str_eq another 200000 200100 5 "3001234567" "000000" (live_code ∷ [])).1
verify_code-HasAttempts_example =
    verify_code-HasAttempts str_eq another 200100 5 "000000" another-KeepsAttempts (λ rows b. b)
      (λ rows b. b) 200000 "3001234567" (live_code ∷ []) (omega arith, tt)
