-- ===== src/Assignment/Soundness/Drivers.antt =====
-- The soundness of trips through what a driver does to an offer or to a trip:
-- apps/api/src/modules/assignment.
use voyya_backend.Prelude.{
  ℕ, String, Bool, true, false, not, ◌&&◌, ◌||◌, Option, none, some, ◌==◌, if◌then◌else◌,
}
use voyya_backend.Contracts.AssignmentStatus.{notified, accepted, timeout, same}
use voyya_backend.Db.Rows.{TripRequest, Assignment, CompanyCommission, Db}
use voyya_backend.Db.Tx.{Tx, Keeps, >>=-Keeps, pure-Keeps, throw-Keeps}
use voyya_backend.Trips.Soundness.Since.{Since, update_watched_trips-Since}
use voyya_backend.Trips.Soundness.Rowsteps.{reopen-GoodStep}
use voyya_backend.Trips.Soundness.Repository.{read-Keeps}
use voyya_backend.Assignment.Statements.{
  get_current_commission, take_driver, mark_assignment_accepted, mark_rejected,
  mark_cancelled_by_driver,
}
use voyya_backend.Assignment.Take.{
  take_trip, take_offer, with_commission, occupy_driver, accept_assignment, confirm, accepted_with,
  is_past,
}
use voyya_backend.Assignment.Cancel.{
  reject, reject_offer, cancel_by_driver, cancel_accepted, give_back, reopened_or_close,
  reopen_trip_request,
}
use voyya_backend.Assignment.Soundness.{
  get_trip_request-Since, get_assignment-Since, release_driver-Since,
  mark_trip_request_assigned-Since, close_trip_in_tx-Since,
}
use voyya_backend.Assignment.Soundness.Keeping.{update_assignments-Since, update_drivers-Since}

-- A transaction that is one of two keeps what both keep.
pub if-Keeps :
    {A : Type 0} (P : Db → Type 0) (b : Bool) (m n : Tx A)
    → Keeps P m
    → Keeps P n
    → Keeps P (if b then m else n)
if-Keeps P true m n km kn = km
if-Keeps P false m n km kn = kn

module _ (before : Db) where
  mark_assignment_accepted-Since :
      (now k company : ℕ) → Keeps (Since before) (mark_assignment_accepted now k company)
  unfolding mark_assignment_accepted
  mark_assignment_accepted-Since now k company =
      >>=-Keeps (Since before) _ _ (update_assignments-Since before _ _)
        (λ _. pure-Keeps (Since before) _)

  take_driver-Since : (driver company : ℕ) → Keeps (Since before) (take_driver driver company)
  unfolding take_driver
  take_driver-Since driver company =
      >>=-Keeps (Since before) _ _ (update_drivers-Since before _ _)
        (λ _. pure-Keeps (Since before) _)

  accepted_with-Since :
      (a : Assignment) (t : Option TripRequest) → Keeps (Since before) (accepted_with a t)
  accepted_with-Since a none = throw-Keeps (Since before) _
  accepted_with-Since a (some t) = pure-Keeps (Since before) _

  confirm-Since : (a : Assignment) (b : Bool) → Keeps (Since before) (confirm a b)
  confirm-Since a false = throw-Keeps (Since before) _
  confirm-Since a true =
      >>=-Keeps (Since before) _ _ (get_trip_request-Since before _) (accepted_with-Since a)

  accept_assignment-Since :
      (now : ℕ) (a : Assignment) (company : ℕ) (b : Bool)
      → Keeps (Since before) (accept_assignment now a company b)
  accept_assignment-Since now a company false = throw-Keeps (Since before) _
  accept_assignment-Since now a company true =
      >>=-Keeps (Since before) _ _ (mark_assignment_accepted-Since now a.assignment_id company)
        (confirm-Since a)

  occupy_driver-Since :
      (now : ℕ) (a : Assignment) (driver company : ℕ) (b : Bool)
      → Keeps (Since before) (occupy_driver now a driver company b)
  occupy_driver-Since now a driver company false = pure-Keeps (Since before) _
  occupy_driver-Since now a driver company true =
      >>=-Keeps (Since before) _ _ (take_driver-Since driver company)
        (accept_assignment-Since now a company)

  with_commission-Since :
      (fresh : String) (now : ℕ) (a : Assignment) (driver company : ℕ)
      (c : Option CompanyCommission)
      → Keeps (Since before) (with_commission fresh now a driver company c)
  with_commission-Since fresh now a driver company none = throw-Keeps (Since before) _
  with_commission-Since fresh now a driver company (some c) =
      >>=-Keeps (Since before) _ _
        (mark_trip_request_assigned-Since before fresh now _ _ driver company)
        (occupy_driver-Since now a driver company)

  take_offer-Since :
      (fresh : String) (clock now driver company : ℕ) (a : Option Assignment)
      → Keeps (Since before) (take_offer fresh clock now driver company a)
  unfolding take_offer get_current_commission
  take_offer-Since fresh clock now driver company none = pure-Keeps (Since before) _
  take_offer-Since fresh clock now driver company (some a) =
      if-Keeps (Since before) (not (a.driver_id == driver)) _ _ (pure-Keeps (Since before) _) (
        if-Keeps (Since before)
          (same a.status timeout || is_past clock a.expires_at && same a.status notified) _ _
          (pure-Keeps (Since before) _)
          (if-Keeps (Since before) (not (same a.status notified)) _ _ (pure-Keeps (Since before) _)
            (>>=-Keeps (Since before) _ _ (read-Keeps (Since before) _)
              (with_commission-Since fresh now a driver company))))

  pub take_trip-Since :
      (fresh : String) (clock now k driver company : ℕ)
      → Keeps (Since before) (take_trip fresh clock now k driver company)
  unfolding take_trip
  take_trip-Since fresh clock now k driver company =
      >>=-Keeps (Since before) _ _ (get_assignment-Since before k company)
        (take_offer-Since fresh clock now driver company)

  reject_offer-Since :
      (now driver company : ℕ) (reason : Option String) (a : Option Assignment)
      → Keeps (Since before) (reject_offer now driver company reason a)
  unfolding reject_offer mark_rejected
  reject_offer-Since now driver company reason none = pure-Keeps (Since before) _
  reject_offer-Since now driver company reason (some a) =
      if-Keeps (Since before) (not (a.driver_id == driver)) _ _ (pure-Keeps (Since before) _) (
        if-Keeps (Since before) (not (same a.status notified)) _ _ (pure-Keeps (Since before) _) (
          >>=-Keeps (Since before) _ _
            (>>=-Keeps (Since before) _ _ (update_assignments-Since before _ _)
              (λ _. pure-Keeps (Since before) _))
            (λ _. pure-Keeps (Since before) _)))

  pub reject-Since :
      (now k driver company : ℕ) (reason : Option String)
      → Keeps (Since before) (reject now k driver company reason)
  unfolding reject
  reject-Since now k driver company reason =
      >>=-Keeps (Since before) _ _ (get_assignment-Since before k company)
        (reject_offer-Since now driver company reason)

  reopened_or_close-Since :
      (fresh : String) (now : ℕ) (a : Assignment) (driver company : ℕ) (reason : String)
      (passenger : ℕ) (row : Option TripRequest)
      → Keeps (Since before) (reopened_or_close fresh now a driver company reason passenger row)
  unfolding mark_cancelled_by_driver
  reopened_or_close-Since fresh now a driver company reason passenger (some row) =
      >>=-Keeps (Since before) _ _
        (>>=-Keeps (Since before) _ _ (update_assignments-Since before _ _)
          (λ _. pure-Keeps (Since before) _))
        λ _.
          >>=-Keeps (Since before) _ _ (release_driver-Since before driver company)
            λ _. pure-Keeps (Since before) _
  reopened_or_close-Since fresh now a driver company reason passenger none =
      >>=-Keeps (Since before) _ _
        (close_trip_in_tx-Since before fresh now (some company) _ (λ e. cc))
        (λ _. pure-Keeps (Since before) _)

  give_back-Since :
      (fresh : String) (now : ℕ) (a : Assignment) (driver company : ℕ) (reason : String)
      (trip : Option TripRequest)
      → Keeps (Since before) (give_back fresh now a driver company reason trip)
  unfolding reopen_trip_request
  give_back-Since fresh now a driver company reason none = pure-Keeps (Since before) _
  give_back-Since fresh now a driver company reason (some trip) =
      >>=-Keeps (Since before) _ _
        (update_watched_trips-Since _ _ fresh
          (λ t w s. reopen-GoodStep fresh now a.trip_request_id t s w) before)
        (reopened_or_close-Since fresh now a driver company reason trip.passenger_id)

  cancel_accepted-Since :
      (fresh : String) (now driver company : ℕ) (reason : String) (a : Option Assignment)
      → Keeps (Since before) (cancel_accepted fresh now driver company reason a)
  unfolding cancel_accepted
  cancel_accepted-Since fresh now driver company reason none = pure-Keeps (Since before) _
  cancel_accepted-Since fresh now driver company reason (some a) =
      if-Keeps (Since before) (not (a.driver_id == driver)) _ _ (pure-Keeps (Since before) _) (
        if-Keeps (Since before) (not (same a.status accepted)) _ _ (pure-Keeps (Since before) _) (
          >>=-Keeps (Since before) _ _ (get_trip_request-Since before _)
            (give_back-Since fresh now a driver company reason)))

  pub cancel_by_driver-Since :
      (fresh : String) (now k driver company : ℕ) (reason : String)
      → Keeps (Since before) (cancel_by_driver fresh now k driver company reason)
  unfolding cancel_by_driver
  cancel_by_driver-Since fresh now k driver company reason =
      >>=-Keeps (Since before) _ _ (get_assignment-Since before k company)
        (cancel_accepted-Since fresh now driver company reason)
