-- ===== src/Samples.antt =====
-- A small database for the examples: a trip that waits for a driver, one whose driver has arrived,
-- and one on its way, with two open offers of the first.
use voyya_backend.Prelude.{ℕ, ◌*◌, refl, true, false, none, some, [], ◌∷◌, arith}
use voyya_backend.Contracts.TripStatus.{pending_assignment, driver_en_route, in_progress}
use voyya_backend.Contracts.AssignmentStatus
use voyya_backend.Db.Rows.{
  NoticeAudience, granted, TripRequest, Assignment, Driver, DriverStatus, Db, available, on_trip,
}
use voyya_backend.Trips.Soundness.{IsSound, AllSound}
use voyya_backend.Trips.Single.{Holds}

abbrev pub waiting_trip : TripRequest
waiting_trip = record {
  trip_request_id = 1;
  passenger_id = 21;
  municipality_id = 3;
  service_type = 1;
  requested_at = 1000;
  status = pending_assignment;
  assigned_at = none;
  arrived_at = none;
  started_at = none;
  finished_at = none;
  fare = 10000;
  commission = 0;
  commission_pct = none;
  net_earnings = none;
  cash_collected_at = none;
  penalty_recorded = false;
  requested_company_id = none;
  company_id = none;
  start_code = none;
  start_code_failed_attempts = 0;
  start_code_blocked_at = none;
  start_code_exempt = false;
  updated_at = 1000;
}

abbrev pub arrived_trip : TripRequest
arrived_trip = record waiting_trip {
  trip_request_id = 2;
  passenger_id = 22;
  status = driver_en_route;
  assigned_at = some 2000;
  arrived_at = some 60000;
  commission = 1250;
  commission_pct = some 1250;
  company_id = some 7;
  start_code = some "4821";
  start_code_failed_attempts = 3;
}

abbrev pub moving_trip : TripRequest
moving_trip = record arrived_trip {
  trip_request_id = 3;
  passenger_id = 23;
  status = in_progress;
  started_at = some 90000;
  start_code = none;
}

abbrev pub first_offer : Assignment
first_offer = record {
  assignment_id = 11;
  trip_request_id = 1;
  driver_id = 5;
  vehicle_id = 55;
  company_id = 7;
  status = AssignmentStatus.notified;
  attempt_order = 1;
  assigned_at = 0;
  expires_at = some 30000;
  responded_at = none;
  cancellation_reason = none;
}

abbrev pub second_offer : Assignment
second_offer = record first_offer {
  assignment_id = 12;
  driver_id = 6;
  vehicle_id = 66;
  company_id = 8;
}

abbrev pub running_job : Assignment
running_job = record first_offer {
  assignment_id = 13;
  trip_request_id = 3;
  driver_id = 9;
  status = AssignmentStatus.accepted;
}

abbrev pub parked : ℕ → ℕ → DriverStatus → Driver
parked driver company status = record {
  driver_id = driver;
  company_id = company;
  status = status;
  location = some (record { lat = driver; lng = 0 });
  location_updated_at = some 1000;
  current_vehicle_id = some (driver * 11);
  pin_must_change = false;
}

abbrev pub sample_db : Db
sample_db = record {
  trips = waiting_trip ∷ arrived_trip ∷ moving_trip ∷ [];
  assignments = first_offer ∷ second_offer ∷ running_job ∷ [];
  drivers = parked 5 7 available ∷ parked 6 8 available ∷ parked 9 7 on_trip ∷ [];
  companies =
      record { company_id = 7; active = true; municipality_id = 3; service_types = 1 ∷ [] }
      ∷ record { company_id = 8; active = true; municipality_id = 3; service_types = 1 ∷ [] }
      ∷ [];
  commissions =
      record { company_id = 7; commission_pct = 1250; valid_to = none }
      ∷ record { company_id = 8; commission_pct = 900; valid_to = none }
      ∷ [];
  consents =
      record {
        consent_record_id = 1;
        user_id = 5;
        notice_version = "location-notice-v3";
        audience = some NoticeAudience.driver;
        action = granted;
        recorded_at = 500;
      }
      ∷ [];
}

pub waiting_trip-IsSound : IsSound waiting_trip
waiting_trip-IsSound = record {
  code_in_window = λ e. ground arith;
  code_present = λ e. ground arith;
  attempts_bounded = omega arith;
  blocked_at_five = refl;
  attempts_late = λ e. ground arith;
  owned = λ e. ground arith;
  unowned = λ e. (refl, refl, refl);
  arrival = λ e. ground arith;
  no_show_arrived = λ e. ground arith;
  finished = refl;
  earnings = refl;
  cash = λ e. ground arith;
  started = refl;
}

pub arrived_trip-IsSound : IsSound arrived_trip
arrived_trip-IsSound = record {
  code_in_window = λ e. (refl, refl);
  code_present = λ e. refl;
  attempts_bounded = omega arith;
  blocked_at_five = refl;
  attempts_late = λ e. (refl, refl);
  owned = λ e. refl;
  unowned = λ e. ground arith;
  arrival = λ e. (refl, refl);
  no_show_arrived = λ e. refl;
  finished = refl;
  earnings = refl;
  cash = λ e. ground arith;
  started = refl;
}

pub moving_trip-IsSound : IsSound moving_trip
moving_trip-IsSound = record {
  code_in_window = λ e. ground arith;
  code_present = λ e. ground arith;
  attempts_bounded = omega arith;
  blocked_at_five = refl;
  attempts_late = λ e. (refl, refl);
  owned = λ e. refl;
  unowned = λ e. ground arith;
  arrival = λ e. (refl, refl);
  no_show_arrived = λ e. refl;
  finished = refl;
  earnings = refl;
  cash = λ e. ground arith;
  started = refl;
}

pub sample_db-AllSound : AllSound sample_db
sample_db-AllSound = (waiting_trip-IsSound, (arrived_trip-IsSound, (moving_trip-IsSound, tt)))

pub Holds-arrived_trip : Holds 2 arrived_trip sample_db
Holds-arrived_trip = record { found = refl; unique = omega arith; sound = sample_db-AllSound }

pub Holds-moving_trip : Holds 3 moving_trip sample_db
Holds-moving_trip = record { found = refl; unique = omega arith; sound = sample_db-AllSound }
