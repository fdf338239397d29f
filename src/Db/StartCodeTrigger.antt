-- ===== src/Db/StartCodeTrigger.antt =====
-- apps/api/prisma/migrations/20261009130000_trip_start_code/migration.sql: the trigger that runs
-- before each update of trips.trip_request which names one of its columns, `fresh` standing for
-- the value of trips.new_start_code().
use voyya_backend.Prelude.{
  ℕ, String, str_eq, ◌≡◌, refl, Bool, true, false, not, ◌&&◌, ◌||◌, Option, none, some, ltb, ◌==◌,
  if◌then◌else◌, is_some,
}
use text.Mathlib.TextPositions.{eq_refl}
use voyya_backend.Contracts.TripStatus.{
  TripStatus, pending_assignment, assigned, driver_en_route, same,
}
use voyya_backend.Db.Rows.{TripRequest}

-- status IN ('assigned', 'driver_en_route')
abbrev pub in_window : TripStatus → Bool
in_window s = same s assigned || same s driver_en_route

abbrev pub distinct_code : Option String → Option String → Bool
distinct_code none none = false
distinct_code none (some b) = true
distinct_code (some a) none = true
distinct_code (some a) (some b) = not (str_eq a b)

abbrev distinct_num : Option ℕ → Option ℕ → Bool
distinct_num none none = false
distinct_num none (some b) = true
distinct_num (some a) none = true
distinct_num (some a) (some b) = not (a == b)

abbrev distinct_flag : Bool → Bool → Bool
distinct_flag true b = not b
distinct_flag false b = b

-- A trip with failed start attempts that would be reopened.
abbrev reopened_after_failures : TripRequest → TripRequest → Bool
reopened_after_failures old new =
    ltb 0 old.start_code_failed_attempts
    && (same new.status pending_assignment || in_window new.status && not (in_window old.status))

-- The two checks below the branches that return early.
abbrev undone : TripRequest → TripRequest → Bool
undone old new =
    is_some new.start_code && distinct_code new.start_code old.start_code
    || (ltb new.start_code_failed_attempts old.start_code_failed_attempts
        || is_some old.start_code_blocked_at
          && distinct_num new.start_code_blocked_at old.start_code_blocked_at
        || distinct_flag new.start_code_exempt old.start_code_exempt)

-- RAISE EXCEPTION
unfoldable pub trigger_raises : TripRequest → TripRequest → Bool
trigger_raises old new =
    if reopened_after_failures old new
    then true
    else if in_window new.status && not (in_window old.status)
    then false
    else if same new.status pending_assignment
    then false
    else undone old new

-- The row that the trigger returns.
unfoldable pub trigger_row : String → TripRequest → TripRequest → TripRequest
trigger_row fresh old new =
    if in_window new.status && not (in_window old.status)
    then record new {
      start_code = some fresh;
      start_code_failed_attempts = 0;
      start_code_blocked_at = none;
      start_code_exempt = false;
    }
    else if same new.status pending_assignment
    then record new {
      start_code = none;
      start_code_failed_attempts = 0;
      start_code_blocked_at = none;
      start_code_exempt = false;
    }
    else if in_window new.status
    then new
    else record new { start_code = none }

-- A code that an update leaves alone is not distinct from itself.
pub distinct_code_self : (c : Option String) → distinct_code c c ≡ false
distinct_code_self none = refl
distinct_code_self (some a) = rw eq_refl
