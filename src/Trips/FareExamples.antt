-- ===== src/Trips/FareExamples.antt =====
-- Quotes, fares and requests on the sample tables.
use voyya_backend.Prelude.{
  ok, err, ◌+◌, ◌/◌, ◌%◌, ◌≡◌, refl, ◌⊎◌, true, false, none, some, [], ◌∷◌, ◌++◌, arith, ◌==◌, any,
  List,
}
use voyya_backend.Prelude.Int.{pos, negsuc}
use voyya_backend.Samples.{sample_db, sample_db-AllSound}
use voyya_backend.Db.Rows.{TripRequest}
use voyya_backend.Trips.Repository.{
  is_active_of, new_trip_request, find_active_trip_request, latest,
}
use voyya_backend.Trips.Fare.{
  Calendar, FareParams, FareBreakdown, MunicipalityFareRow, percentage, calculate_fare,
  to_fare_params, rebuild_fare, rebuild_fare_lem,
}
use voyya_backend.Trips.QuoteToken.{QuotePayload, Codec, payload_at, sign}
use voyya_backend.Tenancy.DispatchCompanies.{resolve}
use voyya_backend.Trips.Create.{
  Meanwhile, Environment, QuoteFare, database, company_not_available, quote, create,
  insert_trip_request,
}
use voyya_backend.Trips.QuoteToCreate.{quoted_for, create-quote}
use voyya_backend.Trips.ActiveTrips.{Event, called, created, OneActive, happens, active_trips_lem}
use voyya_backend.Trips.Insertion.{IsServed, IsUnserved, Lost, insert_trip_request_lem}
use voyya_backend.Trips.History.{cancels}

-- An hour by the clock of the process, every day a Monday, and no holidays.
abbrev plain_calendar : Calendar
plain_calendar = record {
  hour_in_bogota = λ date. date / 3600000 % 24;
  is_sunday_in_bogota = λ date. false;
  is_listed_holiday = λ date. false;
}

abbrev night_fare : FareParams
night_fare = record {
  base_fare = 800050;
  night_surcharge_pct = 1500;
  holiday_surcharge_pct = 2000;
  commission_pct = 1250;
}

-- 35 hundredths of a percent of 11000 pesos is half a peso more than 38, but for the doubles.
percentage_in_doubles : percentage 11000 35 ≡ 38
unfolding percentage
percentage_in_doubles = refl

percentage_halfway : percentage 9010 1500 ≡ 1352
unfolding percentage
percentage_halfway = refl

-- Ten in the evening.
calculate_night_fare : (calculate_fare night_fare 79200000 plain_calendar).total ≡ 9201
unfolding calculate_fare percentage
calculate_night_fare = refl

abbrev fare_row : MunicipalityFareRow
fare_row = record { base_fare = 1000000; night_surcharge_pct = 1500; holiday_surcharge_pct = 2000 }

abbrev asked : QuoteFare
asked = record {
  municipality_id = 3;
  service_type = 1;
  origin = record { lat = pos 4600000000; lng = negsuc 74080000000 };
  destination = record { lat = pos 4650000000; lng = negsuc 74060000000 };
}

abbrev noon_fare : FareBreakdown
noon_fare = record {
  base_fare = 10000;
  night_surcharge = 0;
  holiday_surcharge = 0;
  total = 10000;
  commission = 0;
}

-- Noon, with a quote that lives for ten minutes.
abbrev sample_payload : QuotePayload
sample_payload = payload_at 600 43200000 (quoted_for asked 9 noon_fare)

abbrev one_quote : Codec
one_quote = record {
  encode = λ p. "quote";
  decode = λ body. some sample_payload;
  sign_body = λ body. "signature";
}

abbrev sample_environment : Environment
sample_environment = record {
  active_service_types = 1 ∷ [];
  covers = λ m p. m == 3;
  calendar = plain_calendar;
  codec = one_quote;
  ttl = 600;
  current_fare = λ m s. some (9, fare_row);
}

abbrev undisturbed : Meanwhile
undisturbed = record { between = λ db. db; fails = false; later = λ db. db }

create-quote_example :
    (noon_fare ≡ calculate_fare (to_fare_params fare_row) 43200000 plain_calendar)
    × (create sample_environment 43500000 43500000 4 24
          (record {
            quote_token = sign one_quote 600 43200000 (quoted_for asked 9 noon_fare);
            asked = asked;
            requested_company_id = none;
          })
          undisturbed
          sample_db
        ≡ insert_trip_request undisturbed (new_trip_request 4 24 3 1 43500000 10000 none) sample_db)
unfolding quote calculate_fare resolve find_active_trip_request latest
create-quote_example =
    create-quote sample_environment 43200000 43500000 43500000 4 24 9 asked fare_row sample_db
      sample_db undisturbed noon_fare (sign one_quote 600 43200000 (quoted_for asked 9 noon_fare))
      refl refl refl (omega arith) refl

abbrev asked_of_seven : TripRequest
asked_of_seven = new_trip_request 4 21 3 1 9000 8000 (some 7)

insert_trip_request_lem_example :
    ((false ≡ true)
      × (insert_trip_request undisturbed asked_of_seven sample_db ≡ (err database, sample_db)))
    ⊎ (((false ≡ false)
          × IsUnserved asked_of_seven sample_db
          × (insert_trip_request undisturbed asked_of_seven sample_db
              ≡ (err company_not_available, sample_db)))
        ⊎ (((false ≡ false)
              × IsServed asked_of_seven sample_db
              × (any (is_active_of 21) sample_db.trips ≡ false)
              × (insert_trip_request undisturbed asked_of_seven sample_db ≡ (
                ok asked_of_seven,
                record sample_db { trips = sample_db.trips ++ asked_of_seven ∷ [] },
              )))
            ⊎ ((false ≡ false)
                × IsServed asked_of_seven sample_db
                × (any (is_active_of 21) sample_db.trips ≡ true)
                × Lost undisturbed asked_of_seven sample_db)))
insert_trip_request_lem_example = insert_trip_request_lem undisturbed asked_of_seven sample_db

-- The passenger's trip is cancelled, and a request of the same passenger is created.
abbrev two_events : List Event
two_events = called "" (cancels 2000 2000 1 21) ∷ created 4 21 3 1 9000 8000 none ∷ []

sample-OneActive : OneActive sample_db
sample-OneActive passenger = ground arith

active_trips_lem_example : OneActive (happens (λ m s. 5) (λ m s. 2) two_events sample_db)
active_trips_lem_example =
    active_trips_lem (λ m s. 5) (λ m s. 2) two_events sample_db sample_db-AllSound sample-OneActive

abbrev priced_trip : TripRequest
priced_trip = new_trip_request 4 21 3 1 79200000 11500 none

rebuild_fare_lem_example :
    let fare = rebuild_fare plain_calendar (some fare_row) priced_trip in
    (fare.total ≡ 11500)
    × (fare.base_fare + fare.night_surcharge + fare.holiday_surcharge ≡ 11500)
    × ((row : MunicipalityFareRow)
        → some fare_row ≡ some row
        → (calculate_fare (to_fare_params row) 79200000 plain_calendar).total ≡ 11500
        → fare ≡ calculate_fare (to_fare_params row) 79200000 plain_calendar)
rebuild_fare_lem_example = rebuild_fare_lem plain_calendar (some fare_row) priced_trip
