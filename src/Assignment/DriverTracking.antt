-- ===== src/Assignment/DriverTracking.antt =====
-- apps/api/src/modules/assignment/driver-tracking.service.ts, with getAcceptedDriverId and
-- getTrackingSnapshot of driver.repository.ts: where a passenger sees the driver.
pub mod Sightings
use voyya_backend.Prelude.{
  ℕ, ◌+◌, ◌-◌, ◌*◌, ◌/◌, Bool, false, not, ◌&&◌, Option, none, some, ltb, leb, ◌==◌, if◌then◌else◌,
  is_some, find, any, not→false, &&→right, find-In, In, All-In, All-of, All-map, All-filter, All-++,
  In-filter, filter-In, In-length, any-In, In-map, map-In, Result, ok, err, zero, suc, ◌%◌, ◌≤◌,
  ◌<◌, compare, Ordering, min, max, String, str_eq, eq_iff, ◌≡◌, refl, sym, ap, ap₂, ◌∙◌, subst,
  ◌≢◌, ◌↔◌, ◌⊎◌, inl, inr, true, ◌||◌, List, [], ◌∷◌, ◌++◌, map, arith, is_none, or_else,
  Bool-cases, Option-cases, ltb→lt, lt→ltb, leb→le, le→leb, ==→eq, ==_refl, length, length-append,
  filter, update_where, count, All, Rowwise, All-update_where, Rowwise-update_where, any-eq_false,
  All-find, Rowwise-refl, Rowwise-trans, find-update_where, keep, find-and, count-update_where,
  update_where-none, any-find,
}
use voyya_backend.Trips.UiState.{is_in_trip_window}
use voyya_backend.Contracts.TripStatus.{TripStatus}
use voyya_backend.Contracts.AssignmentStatus as Status
use voyya_backend.Contracts.AssignmentStatus.{accepted}
use voyya_backend.Db.Rows.{TripRequest, Assignment, Driver, Coordinate, Db, eq_opt}
use voyya_backend.Auth.Consents.{covers_location_sharing, status_for}

-- DRIVER_LOCATION_SHARE_STALE_SEC and DRIVER_LOCATION_SHARE_HIDE_SEC
pub record TrackingSettings : Type 0 where
  pub stale_sec : ℕ
  pub hide_sec : ℕ

pub record Position : Type 0 where
  pub point : Coordinate
  pub age_sec : ℕ

pub record DriverTracking : Type 0 where
  pub window_age_sec : ℕ
  pub stale_after_sec : ℕ
  pub hide_after_sec : ℕ
  pub position : Option Position

abbrev pub accepted_of : ℕ → ℕ → Assignment → Bool
accepted_of trip company a =
    a.trip_request_id == trip && a.company_id == company && Status.same a.status accepted

abbrev pub driver_of : Option Assignment → Option ℕ
driver_of none = none
driver_of (some a) = some a.driver_id

-- getAcceptedDriverId
abbrev pub get_accepted_driver_id : ℕ → ℕ → Db → Option ℕ
get_accepted_driver_id trip company db = driver_of (find (accepted_of trip company) db.assignments)

-- `greatest(0, floor(extract(epoch FROM now - at)))`
abbrev pub age_of : ℕ → Option ℕ → ℕ
age_of now none = 0
age_of now (some at) = (now - at) / 1000

-- The location was written in the window of the trip, and less than the hiding time ago.
abbrev pub in_time : ℕ → ℕ → Option ℕ → Option ℕ → Bool
in_time now hide (some assigned) (some at) = leb assigned at && ltb now (at + hide * 1000)
in_time now hide _ _ = false

abbrev pub is_tracked : ℕ → ℕ → TripRequest → ℕ → Option ℕ → Db → Driver → Bool
is_tracked now hide t company driver db d =
    eq_opt driver d.driver_id
    && d.company_id == company
    && is_some d.location
    && in_time now hide t.assigned_at d.location_updated_at
    && any (λ a. accepted_of t.trip_request_id company a && a.driver_id == d.driver_id)
        db.assignments

abbrev pub placed : ℕ → Option ℕ → Option Coordinate → Option Position
placed now at none = none
placed now at (some p) = some (record { point = p; age_sec = age_of now at })

abbrev pub position_of : ℕ → Option Driver → Option Position
position_of now none = none
position_of now (some d) = placed now d.location_updated_at d.location

abbrev pub tracked_trip : ℕ → ℕ → TripRequest → Bool
tracked_trip trip company t =
    t.trip_request_id == trip && eq_opt t.company_id company && is_in_trip_window t.status

abbrev pub snapshot_of :
    ℕ → TrackingSettings → ℕ → Option ℕ → Db → Option TripRequest → Option DriverTracking
snapshot_of now settings company driver db none = none
snapshot_of now settings company driver db (some t) = some (record {
  window_age_sec = age_of now t.assigned_at;
  stale_after_sec = settings.stale_sec;
  hide_after_sec = settings.hide_sec;
  position =
      position_of now (find (is_tracked now settings.hide_sec t company driver db) db.drivers);
})

-- getTrackingSnapshot, with the settings of the answer
unfoldable pub get_tracking_snapshot :
    ℕ → TrackingSettings → ℕ → ℕ → Option ℕ → Db → Option DriverTracking
get_tracking_snapshot now settings trip company driver db =
    snapshot_of now settings company driver db (find (tracked_trip trip company) db.trips)

abbrev pub consenting : Db → Option ℕ → Option ℕ
consenting db none = none
consenting db (some driver) =
    if covers_location_sharing (status_for driver db) then some driver else none

abbrev pub track : ℕ → TrackingSettings → ℕ → TripStatus → Option ℕ → Db → Option DriverTracking
track now settings trip status none db = none
track now settings trip status (some company) db =
    if not (is_in_trip_window status)
    then none
    else get_tracking_snapshot now settings trip company
        (consenting db (get_accepted_driver_id trip company db)) db

-- forPassenger: the trip, its company and its status as the caller has read them
unfoldable pub for_passenger :
    ℕ → TrackingSettings → ℕ → Option ℕ → TripStatus → Db → Option DriverTracking
unfolding get_tracking_snapshot
for_passenger now settings trip company status db = track now settings trip status company db
