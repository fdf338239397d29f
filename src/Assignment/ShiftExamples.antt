-- ===== src/Assignment/ShiftExamples.antt =====
-- A driver of the sample tables who revokes the consent, and one whom a passenger sees.
use voyya_backend.Prelude.{ok, ℕ, String, ◌≡◌, refl, Bool, true, Option, some, [], ◌∷◌, arith}
use voyya_backend.Samples.{sample_db, first_offer, parked}
use voyya_backend.Contracts.TripStatus.{driver_en_route}
use voyya_backend.Contracts.AssignmentStatus
use voyya_backend.Trips.UiState.{is_in_trip_window}
use voyya_backend.Db.Rows.{Coordinate, NoticeAudience, granted, Db, on_trip}
use voyya_backend.Auth.Consents.{
  ConsentRevokedEvent, Role, grant, revoke, status_for, covers_location_sharing, grant_entry,
  revoke_entry,
}
use voyya_backend.Auth.Consents.Ledger.{grant_lem}
use voyya_backend.Assignment.DriverRows.{on_consent_revoked}
use voyya_backend.Assignment.DriverShift.Transactions.{commit, perform_all, starts, takes}
use voyya_backend.Assignment.DriverShift.Hidden.{IsPrivate}
use voyya_backend.Assignment.DriverShift.Privacy.{revoked_stays-IsPrivate}
use voyya_backend.Assignment.DriverTracking.{
  TrackingSettings, Position, get_accepted_driver_id, get_tracking_snapshot, for_passenger,
}
use voyya_backend.Assignment.DriverTracking.Sightings.{SeenAt, for_passenger_lem}

abbrev plaza : Coordinate
plaza = record { lat = 1; lng = 2 }

abbrev all_known : String → NoticeAudience → Bool
all_known version audience = true

grant_lem_example :
    let after = (grant all_known 2 900 Role.driver 6 "location-notice-v3" sample_db).1 in
    ((status_for 6 after).state ≡ some granted)
    × ((status_for 6 after).notice_version ≡ some "location-notice-v3")
    × ((k' now' : ℕ)
        → grant all_known k' now' Role.driver 6 "location-notice-v3" after
          ≡ (ok (status_for 6 after), after))
grant_lem_example =
    grant_lem all_known 2 900 Role.driver 6 "location-notice-v3" NoticeAudience.driver sample_db
      refl refl ((omega arith, omega arith), tt)

revoked_stays-IsPrivate_example :
    let revoked' = revoke 2 900 Role.driver 5 (some 7) sample_db in
    let event : ConsentRevokedEvent = record {
      user_id = 5;
      role = Role.driver;
      company_id = some 7;
    } in
    let cleared' =
      commit (on_consent_revoked (some event)) (perform_all (takes 5 7 ∷ []) revoked'.1) in
    IsPrivate 5 7 true (perform_all (starts 950 5 7 plaza ∷ []) cleared')
revoked_stays-IsPrivate_example =
    revoked_stays-IsPrivate 5 7 2 900 (takes 5 7 ∷ []) (starts 950 5 7 plaza ∷ []) sample_db
      ((omega arith, omega arith), tt) (refl, (refl, (refl, tt))) (refl, tt) (refl, tt)

-- Driver 9, on the trip 2, shares the location.
abbrev shared_db : Db
shared_db = record sample_db {
  assignments =
      record first_offer { trip_request_id = 2; driver_id = 9; status = AssignmentStatus.accepted }
      ∷ [];
  consents =
      record {
        consent_record_id = 1;
        user_id = 9;
        notice_version = "location-notice-v3";
        audience = some NoticeAudience.driver;
        action = granted;
        recorded_at = 500;
      }
      ∷ [];
  drivers = record (parked 9 7 on_trip) { location_updated_at = some 70000 } ∷ [];
}

abbrev settings : TrackingSettings
settings = record { stale_sec = 30; hide_sec = 120 }

abbrev seen_position : Position
seen_position = record { point = record { lat = 9; lng = 0 }; age_sec = 20 }

for_passenger_lem_example :
    (is_in_trip_window driver_en_route ≡ true)
    × ((company driver : ℕ) × (◌≡◌ {A = Option ℕ} (some 7) (some company))
        × (get_accepted_driver_id 2 company shared_db ≡ some driver)
        × (covers_location_sharing (status_for driver shared_db) ≡ true)
        × SeenAt 90000 120 driver seen_position shared_db)
unfolding for_passenger get_tracking_snapshot status_for
for_passenger_lem_example =
    for_passenger_lem 90000 settings 2 (some 7) driver_en_route shared_db seen_position refl

-- A revocation whose transaction started before that of a grant, and that is written after it, is
-- recorded as older: the consent stays granted.
late_revocation :
    let granted' = (grant all_known 2 900 Role.driver 6 "location-notice-v3" sample_db).1 in
    (status_for 6 (revoke 3 890 Role.driver 6 (some 7) granted').1).state ≡ some granted
unfolding grant revoke grant_entry revoke_entry status_for
late_revocation = refl
