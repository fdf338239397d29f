-- ===== src/Db/Rows.antt =====
-- apps/api/prisma/schema.prisma: the rows of trips.trip_request, assignment.assignment,
-- fleet.driver, tenancy.company, tenancy.company_commission and auth.consent_record, with the
-- columns that the trip, assignment and consent modules read or write. Instants are milliseconds, money is whole pesos (every fare is
-- rounded before it is stored), a percentage of the type DECIMAL(5,2) is a number of hundredths.
use voyya_backend.Prelude.{ℕ, String, Bool, true, false, Option, none, some, List, ◌==◌}
use voyya_backend.Prelude.Int.{ℤ}
use voyya_backend.Contracts.TripStatus.{TripStatus}
use voyya_backend.Contracts.AssignmentStatus.{AssignmentStatus}

pub record TripRequest : Type 0 where
  pub trip_request_id : ℕ
  pub passenger_id : ℕ
  pub municipality_id : ℕ
  pub service_type : ℕ
  pub requested_at : ℕ
  pub status : TripStatus
  pub assigned_at : Option ℕ
  pub arrived_at : Option ℕ
  pub started_at : Option ℕ
  pub finished_at : Option ℕ
  pub fare : ℕ
  pub commission : ℕ
  pub commission_pct : Option ℕ
  pub net_earnings : Option ℤ
  pub cash_collected_at : Option ℕ
  pub penalty_recorded : Bool
  pub requested_company_id : Option ℕ
  pub company_id : Option ℕ
  pub start_code : Option String
  pub start_code_failed_attempts : ℕ
  pub start_code_blocked_at : Option ℕ
  pub start_code_exempt : Bool
  pub updated_at : ℕ

pub record Assignment : Type 0 where
  pub assignment_id : ℕ
  pub trip_request_id : ℕ
  pub driver_id : ℕ
  pub vehicle_id : ℕ
  pub company_id : ℕ
  pub status : AssignmentStatus
  pub attempt_order : ℕ
  pub assigned_at : ℕ
  pub expires_at : Option ℕ
  pub responded_at : Option ℕ
  pub cancellation_reason : Option String

pub data DriverStatus : Type 0 where
  off_shift available on_trip suspended documents_blocked inactive : DriverStatus

-- The columns `double precision`, each by the 64 bits of its value.
pub record Coordinate : Type 0 where
  pub lat : ℕ
  pub lng : ℕ

pub record Driver : Type 0 where
  pub driver_id : ℕ
  pub company_id : ℕ
  pub status : DriverStatus
  -- current_lat and current_lng, which every statement writes together; NULL or not, together
  pub location : Option Coordinate
  pub location_updated_at : Option ℕ
  pub current_vehicle_id : Option ℕ
  pub pin_must_change : Bool

pub record Company : Type 0 where
  pub company_id : ℕ
  pub active : Bool
  pub municipality_id : ℕ
  pub service_types : List ℕ

pub record CompanyCommission : Type 0 where
  pub company_id : ℕ
  pub commission_pct : ℕ
  pub valid_to : Option ℕ

pub data NoticeAudience : Type 0 where
  driver passenger : NoticeAudience

pub data ConsentAction : Type 0 where
  granted revoked : ConsentAction

-- `location` is the one purpose that there is.
pub record ConsentRecord : Type 0 where
  pub consent_record_id : ℕ
  pub user_id : ℕ
  pub notice_version : String
  pub audience : Option NoticeAudience
  pub action : ConsentAction
  pub recorded_at : ℕ

pub record Db : Type 0 where
  pub trips : List TripRequest
  pub assignments : List Assignment
  pub drivers : List Driver
  pub companies : List Company
  pub commissions : List CompanyCommission
  pub consents : List ConsentRecord

-- `===` on optional numbers, as in `column = value` where a NULL is equal to nothing.
abbrev pub eq_opt : Option ℕ → ℕ → Bool
eq_opt none v = false
eq_opt (some u) v = u == v

abbrev pub same_driver_status : DriverStatus → DriverStatus → Bool
same_driver_status off_shift off_shift = true
same_driver_status available available = true
same_driver_status on_trip on_trip = true
same_driver_status suspended suspended = true
same_driver_status documents_blocked documents_blocked = true
same_driver_status inactive inactive = true
same_driver_status _ _ = false
