-- ===== src/Trips/Examples.antt =====
-- The trip module's theorems on the sample tables.
use voyya_backend.Prelude.{
  ◌+◌, ◌*◌, ◌<◌, String, ◌≡◌, refl, ◌↔◌, ◌⊎◌, true, false, none, some, List, [], ◌∷◌, ◌++◌,
}
use voyya_backend.Samples.{arrived_trip, sample_db, sample_db-AllSound, Holds-arrived_trip}
use voyya_backend.Contracts.TripStatus.{driver_en_route, in_progress, assigned}
use voyya_backend.Db.Rows.{TripRequest, Db}
use voyya_backend.Db.Tx.{done}
use voyya_backend.Trips.Single.{Holds}
use voyya_backend.Trips.Soundness.{AllSound}
use voyya_backend.Trips.Soundness.Since.{Since}
use voyya_backend.Trips.Soundness.Repository.{create_trip_request_sound}
use voyya_backend.Trips.Repository.{start_with_code, started, create_trip_request, new_trip_request}
use voyya_backend.Trips.StartCode.{start_right_code}
use voyya_backend.Trips.StartCode.Blocking.{Attempt}
use voyya_backend.Trips.FreeCancellation.{is_free_cancellation, is_free_cancellation_lem}
use voyya_backend.Trips.History.{Call, takes, drives, arrives, starts, completes, run}
use voyya_backend.Trips.History.Keeping.{history_sound}

abbrev whole_ride : List (String × Call)
whole_ride =
    ("4821", takes (λ n. false) 5000 5000 11 5 7)
    ∷ ("", drives 6000 1 5 7)
    ∷ ("", arrives 7000 1 5 7)
    ∷ ("", starts 8000 1 5 7 (some "4821"))
    ∷ ("", completes 9000 1 5 7 true)
    ∷ []

history_sound_example : Since sample_db (run (λ m s. 5) (λ m s. 2) sample_db whole_ride)
history_sound_example = history_sound (λ m s. 5) (λ m s. 2) sample_db whole_ride sample_db-AllSound

start_right_code_example :
    (db' : Db) × (t' : TripRequest) × Holds 2 t' db'
    × (start_with_code "" 70000 2 (some "4821") sample_db ≡ done started db')
    × (t'.status ≡ in_progress)
    × (t'.start_code ≡ none)
    × (t'.started_at ≡ some 70000)
start_right_code_example =
    start_right_code "" 70000 2 "4821" arrived_trip sample_db Holds-arrived_trip refl refl

abbrev wrong_tries : List Attempt
wrong_tries =
    record { fresh = ""; now = 70000; code = "0000" }
    ∷ record { fresh = ""; now = 75000; code = "1111" }
    ∷ []

is_free_cancellation_lem_example : (is_free_cancellation arrived_trip 2 130000 ≡ false) ↔ (
    ((driver_en_route ≡ assigned) ⊎ (driver_en_route ≡ driver_en_route))
    × (2000 + 2 * 60000 < 130000))
is_free_cancellation_lem_example = is_free_cancellation_lem arrived_trip 2 130000 2000 refl

create_trip_request-sound_example :
    AllSound (record sample_db {
      trips = sample_db.trips ++ new_trip_request 4 24 3 1 9000 8000 none ∷ [];
    })
unfolding create_trip_request
create_trip_request-sound_example =
    create_trip_request_sound 4 24 3 1 9000 8000 none sample_db
      (new_trip_request 4 24 3 1 9000 8000 none)
      (record sample_db {
        trips = sample_db.trips ++ new_trip_request 4 24 3 1 9000 8000 none ∷ [];
      })
      sample_db-AllSound refl
