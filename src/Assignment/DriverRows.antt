-- ===== src/Assignment/DriverRows.antt =====
-- apps/api/src/modules/assignment/driver.repository.ts, the statements that write a driver's shift or
-- location, and consent-revoked.listener.ts. A location has both coordinates or none.
use voyya_backend.Prelude.{
  ℕ, ◌+◌, ◌*◌, Bool, true, not, ◌&&◌, ◌||◌, Option, none, some, List, [], ◌∷◌, ltb, ◌==◌,
  if◌then◌else◌, is_some, length, find,
}
use voyya_backend.Db.Rows.{
  Driver, DriverStatus, off_shift, available, on_trip, Coordinate, Db, same_driver_status,
}
use voyya_backend.Db.Tx.{Tx, pure, ◌>>=◌}
use voyya_backend.Assignment.Statements.{update_drivers}
use voyya_backend.Auth.Consents.{is_driver_role, ConsentRevokedEvent}

abbrev pub of_driver : ℕ → ℕ → Driver → Bool
of_driver driver company d = d.driver_id == driver && d.company_id == company

abbrev pub on_or_off : DriverStatus → Bool
on_or_off s = same_driver_status s off_shift || same_driver_status s available

abbrev pub on_or_busy : DriverStatus → Bool
on_or_busy s = same_driver_status s available || same_driver_status s on_trip

abbrev pub locate : ℕ → Coordinate → Driver → Driver
locate now p d = record d { location = some p; location_updated_at = some now }

abbrev pub unlocate : Driver → Driver
unlocate d = record d { location = none; location_updated_at = none }

abbrev pub first_row : List Driver → Option Driver
first_row [] = none
first_row (d ∷ ds) = some d

-- getShiftRow
abbrev pub shift_row : ℕ → ℕ → Db → Option Driver
shift_row driver company db = find (of_driver driver company) db.drivers

-- DriverRepository.startShift
abbrev pub start_shift_where : ℕ → ℕ → Driver → Bool
start_shift_where driver company d =
    of_driver driver company d && on_or_off d.status && is_some d.current_vehicle_id

abbrev pub start_shift_set : ℕ → Coordinate → Driver → Driver
start_shift_set now p d = record (locate now p d) { status = available }

unfoldable pub start_shift_row : ℕ → ℕ → ℕ → Coordinate → Tx (Option Driver)
start_shift_row now driver company p = do
  rows ← update_drivers (start_shift_where driver company) (start_shift_set now p)
  pure (first_row rows)

-- refreshLocationWhileOnTrip
abbrev pub busy_where : ℕ → ℕ → Driver → Bool
busy_where driver company d = of_driver driver company d && same_driver_status d.status on_trip

unfoldable pub refresh_location_while_on_trip : ℕ → ℕ → ℕ → Coordinate → Tx (Option Driver)
refresh_location_while_on_trip now driver company p = do
  rows ← update_drivers (busy_where driver company) (locate now p)
  pure (first_row rows)

-- DriverRepository.endShift
abbrev pub end_shift_where : ℕ → ℕ → Driver → Bool
end_shift_where driver company d = of_driver driver company d && on_or_off d.status

abbrev pub end_shift_set : Driver → Driver
end_shift_set d = record (unlocate d) { status = off_shift }

unfoldable pub end_shift_row : ℕ → ℕ → Tx (Option Driver)
end_shift_row driver company = do
  rows ← update_drivers (end_shift_where driver company) end_shift_set
  pure (first_row rows)

-- DriverRepository.reportLocation
abbrev pub report_where : ℕ → ℕ → Driver → Bool
report_where driver company d = of_driver driver company d && on_or_busy d.status

unfoldable pub report_location_row : ℕ → ℕ → ℕ → Coordinate → Tx Bool
report_location_row now driver company p = do
  rows ← update_drivers (report_where driver company) (locate now p)
  pure (length rows == 1)

-- purgeStaleLocations; the number of rows
abbrev pub is_older_than : ℕ → ℕ → Option ℕ → Bool
is_older_than now hours none = true
is_older_than now hours (some at) = ltb (at + hours * 3600000) now

abbrev pub purge_where : ℕ → ℕ → ℕ → Driver → Bool
purge_where now company hours d =
    d.company_id == company
    && (is_some d.location || is_some d.location_updated_at)
    && (same_driver_status d.status off_shift || is_older_than now hours d.location_updated_at)

unfoldable pub purge_stale_locations : ℕ → ℕ → ℕ → Tx ℕ
purge_stale_locations now company hours = do
  rows ← update_drivers (purge_where now company hours) unlocate
  pure (length rows)

-- clearLocationAfterConsentRevoked
abbrev pub clear_set : Driver → Driver
clear_set d = record (unlocate d) {
  status = if same_driver_status d.status available then off_shift else d.status;
}

unfoldable pub clear_location_after_consent_revoked : ℕ → ℕ → Tx (Unit {0})
clear_location_after_consent_revoked driver company = do
  rows ← update_drivers (of_driver driver company) clear_set
  pure tt

-- onConsentRevoked
abbrev pub clear_for : ℕ → Option ℕ → Tx (Unit {0})
clear_for user none = pure tt
clear_for user (some company) = clear_location_after_consent_revoked user company

abbrev pub on_consent_revoked : Option ConsentRevokedEvent → Tx (Unit {0})
on_consent_revoked none = pure tt
on_consent_revoked (some e) =
    if not (is_driver_role e.role) then pure tt else clear_for e.user_id e.company_id
