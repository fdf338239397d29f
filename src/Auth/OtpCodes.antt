-- ===== src/Auth/OtpCodes.antt =====
-- apps/api/src/modules/auth/auth.repository.ts and otp-issuance-sql.ts: the table auth.otp_code, with
-- the issuance of a code under the caps of a phone and of the whole service, and the verification of
-- apps/api/src/modules/auth/auth.service.ts as far as the code is concerned. Instants are
-- milliseconds; whether the advisory lock of a phone is free is a parameter, and the comparison of a
-- code with a hash is one.
pub mod Issuance
pub mod Attempts
use voyya_backend.Prelude.{
  Result, ok, err, ℕ, zero, suc, ◌+◌, ◌-◌, ◌*◌, ◌/◌, ◌%◌, ◌≤◌, ◌<◌, compare, Ordering, min, max,
  String, str_eq, eq_iff, ◌≡◌, refl, sym, ap, ap₂, ◌∙◌, subst, ◌≢◌, ◌↔◌, ◌⊎◌, inl, inr, Bool, true,
  false, not, ◌&&◌, ◌||◌, Option, none, some, List, [], ◌∷◌, ◌++◌, map, arith, ltb, leb, ◌==◌,
  if◌then◌else◌, is_none, is_some, or_else, Bool-cases, Option-cases, ltb→lt, lt→ltb, leb→le,
  le→leb, ==→eq, ==_refl, length, length-append, find, filter, update_where, any, count, All,
  Rowwise, All-update_where, Rowwise-update_where, any-eq_false, All-find, Rowwise-refl,
  Rowwise-trans, find-update_where, keep, find-and, count-update_where, update_where-none, any-find,
  not→false, &&→right, find-In, In, All-In, All-of, All-map, All-filter, All-++, In-filter,
  filter-In, In-length, any-In, In-any, In-map, map-In,
}
use voyya_backend.Auth.OtpPolicy.{OtpIssuancePolicy, OtpIssuanceWaits}

pub record OtpCode : Type 0 where
  pub id : ℕ
  pub phone : String
  pub code_hash : String
  pub expires_at : ℕ
  pub created_at : ℕ
  pub attempts : ℕ
  pub consumed : Bool

-- `o.created_at > now - make_interval(secs => window)`, of a phone's codes and of all.
abbrev pub created_within : ℕ → ℕ → OtpCode → Bool
created_within now window o = ltb now (o.created_at + window * 1000)

abbrev pub of_phone_within : ℕ → String → ℕ → OtpCode → Bool
of_phone_within now phone window o = str_eq o.phone phone && created_within now window o

-- `ORDER BY o.created_at DESC`
abbrev pub insert_desc : ℕ → List ℕ → List ℕ
insert_desc v [] = v ∷ []
insert_desc v (x ∷ xs) = let rest = insert_desc v xs in if leb x v then v ∷ x ∷ xs else x ∷ rest

abbrev pub created_desc : List OtpCode → List ℕ
created_desc [] = []
created_desc (o ∷ os) = insert_desc o.created_at (created_desc os)

-- `OFFSET n LIMIT 1`
abbrev pub nth : ℕ → List ℕ → Option ℕ
nth n [] = none
nth zero (x ∷ xs) = some x
nth (suc n) (x ∷ xs) = nth n xs

-- `ceil(extract(epoch FROM until - now))`, `until` being a window after an instant.
abbrev seconds_left : ℕ → ℕ → Option ℕ → Option ℕ
seconds_left now window none = none
seconds_left now window (some created) = some ((created + window * 1000 - now + 999) / 1000)

-- The seconds until the code that the limit is counted from leaves the window.
unfoldable pub wait_for : ℕ → ℕ → ℕ → (OtpCode → Bool) → List OtpCode → Option ℕ
wait_for now window limit counts rows =
    seconds_left now window (nth (limit - 1) (created_desc (filter counts rows)))

-- The columns of the verdict; the cooldown is counted from the latest code, as by a limit of one.
unfoldable pub otp_waits : ℕ → String → OtpIssuancePolicy → List OtpCode → OtpIssuanceWaits
unfolding wait_for
otp_waits now phone policy rows = record {
  cooldown_wait =
      wait_for now policy.cooldown_sec 1 (of_phone_within now phone policy.cooldown_sec) rows;
  hourly_wait =
      wait_for now policy.hourly_window_sec policy.hourly_limit
        (of_phone_within now phone policy.hourly_window_sec) rows;
  daily_wait =
      wait_for now policy.daily_window_sec policy.daily_limit
        (of_phone_within now phone policy.daily_window_sec) rows;
  global_wait =
      wait_for now policy.daily_window_sec policy.global_limit
        (created_within now policy.daily_window_sec) rows;
}

abbrev pub global_count : ℕ → OtpIssuancePolicy → List OtpCode → ℕ
global_count now policy rows = count (created_within now policy.daily_window_sec) rows

abbrev pub is_allowed : OtpIssuanceWaits → Bool
is_allowed waits =
    is_none waits.cooldown_wait
    && is_none waits.hourly_wait
    && is_none waits.daily_wait
    && is_none waits.global_wait

abbrev pub is_live : ℕ → String → OtpCode → Bool
is_live now phone o = str_eq o.phone phone && not o.consumed && ltb now o.expires_at

pub data IssueOtpOutcome : Type 0 where
  busy : IssueOtpOutcome
  refused : OtpIssuanceWaits → ℕ → IssueOtpOutcome
  issued : ℕ → ℕ → IssueOtpOutcome

abbrev pub new_code : ℕ → ℕ → String → String → OtpIssuancePolicy → OtpCode
new_code now key phone hash policy = record {
  id = key;
  phone = phone;
  code_hash = hash;
  expires_at = now + policy.ttl_sec * 1000;
  created_at = now;
  attempts = 0;
  consumed = false;
}

abbrev pub expire : ℕ → OtpCode → OtpCode
expire now o = record o { expires_at = now }

-- The statements `expired` and `inserted`.
abbrev pub issue_rows : ℕ → ℕ → String → String → OtpIssuancePolicy → List OtpCode → List OtpCode
issue_rows now key phone hash policy rows =
    update_where (is_live now phone) (expire now) rows ++ new_code now key phone hash policy ∷ []

-- issueOtp
unfoldable pub issue_otp :
    Bool
    → ℕ
    → ℕ
    → String
    → String
    → OtpIssuancePolicy
    → List OtpCode
    → IssueOtpOutcome × List OtpCode
unfolding otp_waits
issue_otp locked now key phone hash policy rows =
    let waits = otp_waits now phone policy rows in
    if not locked
    then (busy, rows)
    else if is_allowed waits
    then (issued key (global_count now policy rows), issue_rows now key phone hash policy rows)
    else (refused waits (global_count now policy rows), rows)

-- refundOtpIssuance
unfoldable pub refund_otp_issuance : ℕ → List OtpCode → List OtpCode
refund_otp_issuance k = filter (λ o. not (o.id == k && o.attempts == 0 && not o.consumed))

-- findLiveOtp: the latest.
abbrev pub later_code : OtpCode → Option OtpCode → OtpCode
later_code o none = o
later_code o (some best) =
    if ltb best.created_at o.created_at || best.created_at == o.created_at && ltb best.id o.id
    then o
    else best

unfoldable pub latest_code : List OtpCode → Option OtpCode
latest_code [] = none
latest_code (o ∷ os) = some (later_code o (latest_code os))

unfoldable pub find_live_otp : ℕ → String → List OtpCode → Option OtpCode
unfolding latest_code
find_live_otp now phone rows = latest_code (filter (is_live now phone) rows)

abbrev pub is_open_code : ℕ → ℕ → ℕ → OtpCode → Bool
is_open_code now k max_attempts o =
    o.id == k && (not o.consumed && ltb now o.expires_at && ltb o.attempts max_attempts)

abbrev pub count_attempt : OtpCode → OtpCode
count_attempt o = record o { attempts = o.attempts + 1 }

-- reserveOtpAttempt: the hash of the code, and one attempt the more.
unfoldable pub reserve_otp_attempt : ℕ → ℕ → ℕ → List OtpCode → Option OtpCode × List OtpCode
reserve_otp_attempt now k max_attempts rows = (
  find (is_open_code now k max_attempts) rows,
  update_where (is_open_code now k max_attempts) count_attempt rows,
)

abbrev pub is_unconsumed : ℕ → OtpCode → Bool
is_unconsumed k o = o.id == k && not o.consumed

-- consumeOtp
unfoldable pub consume_otp : ℕ → List OtpCode → Bool × List OtpCode
consume_otp k rows = (
  count (is_unconsumed k) rows == 1,
  update_where (is_unconsumed k) (λ o. record o { consumed = true }) rows,
)

pub data OtpError : Type 0 where
  otp_expired otp_max_attempts otp_invalid otp_used : OtpError

-- unreservedOtpError
abbrev pub unreserved_otp_error : ℕ → ℕ → Option OtpCode → OtpError
unreserved_otp_error now max_attempts none = otp_expired
unreserved_otp_error now max_attempts (some o) =
    if ltb now o.expires_at && not o.consumed && leb max_attempts o.attempts
    then otp_max_attempts
    else otp_expired

-- What others do to the table during a verification: after the search, after the reservation of an
-- attempt, which comes before the comparison, and after a reservation that is refused.
pub record Interference : Type 0 where
  pub after_search : List OtpCode → List OtpCode
  pub after_reservation : List OtpCode → List OtpCode
  pub after_refusal : List OtpCode → List OtpCode

abbrev pub compare_code :
    (String → String → Bool)
    → Interference
    → String
    → OtpCode
    → List OtpCode
    → Result OtpError ℕ × List OtpCode
compare_code matches others code o rows =
    if not (matches code o.code_hash)
    then (err otp_invalid, rows)
    else (let (consumed, rows') = consume_otp o.id (others.after_reservation rows) in
        (if consumed then ok o.id else err otp_used, rows'))

abbrev pub check_code :
    (String → String → Bool)
    → Interference
    → ℕ
    → ℕ
    → ℕ
    → String
    → Option OtpCode × List OtpCode
    → Result OtpError ℕ × List OtpCode
check_code matches others now k max_attempts code (none, rows) =
    let rows' = others.after_refusal rows in
    (err (unreserved_otp_error now max_attempts (find (λ o. o.id == k) rows')), rows')
check_code matches others now k max_attempts code (some o, rows) =
    compare_code matches others code o rows

abbrev pub verify_found :
    (String → String → Bool)
    → Interference
    → ℕ
    → ℕ
    → String
    → Option OtpCode
    → List OtpCode
    → Result OtpError ℕ × List OtpCode
verify_found matches others now max_attempts code none rows = (err otp_expired, rows)
verify_found matches others now max_attempts code (some o) rows =
    check_code matches others now o.id max_attempts code
      (reserve_otp_attempt now o.id max_attempts (others.after_search rows))

-- verifyOtp, up to the account of the phone. The search has an instant of its own, and so has the
-- rest.
unfoldable pub verify_code :
    (String → String → Bool)
    → Interference
    → ℕ
    → ℕ
    → ℕ
    → String
    → String
    → List OtpCode
    → Result OtpError ℕ × List OtpCode
unfolding find_live_otp reserve_otp_attempt consume_otp
verify_code matches others searched now max_attempts phone code rows =
    verify_found matches others now max_attempts code (find_live_otp searched phone rows) rows
