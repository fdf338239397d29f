-- ===== src/Assignment/DriverTracking/Sightings.antt =====
-- What a passenger who sees the driver's position may conclude:
-- apps/api/src/modules/assignment/driver-tracking.service.ts.
use voyya_backend.Prelude.{
  find-In, In, ℕ, ◌+◌, ◌-◌, ◌*◌, ◌/◌, ◌<◌, ◌≡◌, refl, sym, ap, subst, inl, inr, true, false, Option,
  none, some, arith, ◌==◌, Bool-cases, ==→eq, find,
}
use voyya_backend.Trips.UiState.{is_in_trip_window}
use voyya_backend.Contracts.TripStatus.{TripStatus}
use voyya_backend.Db.Rows.{TripRequest, Driver, Coordinate, Db}
use voyya_backend.Auth.Consents.{covers_location_sharing, status_for}
use voyya_backend.Assignment.DriverTracking.{
  TrackingSettings, Position, DriverTracking, in_time, is_tracked, placed, position_of, snapshot_of,
  get_accepted_driver_id, get_tracking_snapshot, consenting, for_passenger,
}

abbrev pub sighting_of : Option DriverTracking → Option Position
sighting_of none = none
sighting_of (some t) = t.position

-- The driver's row, and when it was written.
abbrev pub SeenAt : ℕ → ℕ → ℕ → Position → Db → Type 0
SeenAt now hide driver pos db =
    (d : Driver) × In d db.drivers
    × (d.driver_id ≡ driver)
    × (d.location ≡ some pos.point)
    × ((at : ℕ) × (d.location_updated_at ≡ some at)
        × (now < at + hide * 1000)
        × (pos.age_sec ≡ (now - at) / 1000))

in_time-lt :
    (now hide : ℕ) (assigned at : Option ℕ)
    → in_time now hide assigned at ≡ true
    → (u : ℕ) × (at ≡ some u) × (now < u + hide * 1000)
in_time-lt now hide none at e = cc
in_time-lt now hide (some a) none e = cc
in_time-lt now hide (some a) (some u) e = (u, refl, ground (arith, e))

placed_at :
    (now at : ℕ) (location : Option Coordinate) (pos : Position)
    → placed now (some at) location ≡ some pos
    → (location ≡ some pos.point) × (pos.age_sec ≡ (now - at) / 1000)
placed_at now at none pos h = cc
placed_at now at (some p) pos h =
    let here : Position = record { point = p; age_sec = (now - at) / 1000 } in
    let q : here ≡ pos = cc in (ap (λ x. some x.point) q, sym (ap (λ x. x.age_sec) q))

row_seen :
    (now hide company driver : ℕ) (t : TripRequest) (db : Db) (d : Driver) (pos : Position)
    → is_tracked now hide t company (some driver) db d ≡ true
    → In d db.drivers
    → placed now d.location_updated_at d.location ≡ some pos
    → SeenAt now hide driver pos db
row_seen now hide company driver t db d pos e m h =
    let own : (driver == d.driver_id) ≡ true = ground (arith, e) in
    let timely : in_time now hide t.assigned_at d.location_updated_at ≡ true = ground (arith, e) in
    let (at, u, soon) = in_time-lt now hide t.assigned_at d.location_updated_at timely in
    let (there, age) =
      placed_at now at d.location pos (subst (λ x. placed now x d.location ≡ some pos) u h) in
    (d, m, sym (==→eq driver d.driver_id own), there, (at, u, soon, age))

found_row :
    (now hide company : ℕ) (driver : Option ℕ) (t : TripRequest) (db : Db) (found : Option Driver)
    (pos : Position)
    → find (is_tracked now hide t company driver db) db.drivers ≡ found
    → position_of now found ≡ some pos
    → (k : ℕ) × (driver ≡ some k) × SeenAt now hide k pos db
found_row now hide company driver t db none pos e h = cc
found_row now hide company none t db (some d) pos e h =
    let no_one : false ≡ true =
      (find-In (is_tracked now hide t company none db) db.drivers d e).1 in
    cc
found_row now hide company (some k) t db (some d) pos e h =
    let (m, seen) = find-In (is_tracked now hide t company (some k) db) db.drivers d e in
    (k, refl, row_seen now hide company k t db d pos seen m h)

snapshot_seen :
    (now : ℕ) (settings : TrackingSettings) (company : ℕ) (driver : Option ℕ) (db : Db)
    (t : Option TripRequest) (pos : Position)
    → sighting_of (snapshot_of now settings company driver db t) ≡ some pos
    → (k : ℕ) × (driver ≡ some k) × SeenAt now settings.hide_sec k pos db
snapshot_seen now settings company driver db none pos h = cc
snapshot_seen now settings company driver db (some t) pos h =
    found_row now settings.hide_sec company driver t db _ pos refl h

consenting_driver :
    (db : Db) (accepted : Option ℕ) (k : ℕ)
    → consenting db accepted ≡ some k
    → (accepted ≡ some k) × (covers_location_sharing (status_for k db) ≡ true)
consenting_driver db none k e = cc
consenting_driver db (some d) k e = elim (Bool-cases (covers_location_sharing (status_for d db))) [
  | inl c ↦
      let q : d ≡ k = some_eq (rw c at e) in
      (ap some q, subst (λ x. covers_location_sharing (status_for x db) ≡ true) q c)
  | inr c ↦ cc (rw c at e)
]
  where
    some_eq : some d ≡ some k → d ≡ k
    some_eq h = cc

-- A passenger who sees a position sees it in the window of the trip, of a company: it is the
-- location of the driver who has accepted the trip, whose consent covers the sharing of locations,
-- and it was written less than the hiding time ago, as long ago as its age says in whole seconds.
pub for_passenger_lem :
    (now : ℕ) (settings : TrackingSettings) (trip : ℕ) (company_id : Option ℕ) (status : TripStatus)
    (db : Db) (pos : Position)
    → sighting_of (for_passenger now settings trip company_id status db) ≡ some pos
    → (is_in_trip_window status ≡ true)
      × ((company driver : ℕ) × (company_id ≡ some company)
          × (get_accepted_driver_id trip company db ≡ some driver)
          × (covers_location_sharing (status_for driver db) ≡ true)
          × SeenAt now settings.hide_sec driver pos db)
unfolding for_passenger get_tracking_snapshot
for_passenger_lem now settings trip none status db pos h = cc
for_passenger_lem now settings trip (some company) status db pos h =
    elim (Bool-cases (is_in_trip_window status)) [
      | inr out ↦ cc (rw out at h)
      | inl window ↦
          let (driver, c, seen) =
            snapshot_seen now settings company
              (consenting db (get_accepted_driver_id trip company db)) db _ pos (rw window at h) in
          let (accepted', covers) =
            consenting_driver db (get_accepted_driver_id trip company db) driver c in
          (window, (company, driver, refl, accepted', covers, seen))
    ]
