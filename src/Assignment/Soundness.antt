-- ===== src/Assignment/Soundness.antt =====
-- The soundness of trips, and their way along the transition table, through the transactions of
-- apps/api/src/modules/assignment.
pub mod Keeping
pub mod Drivers
use voyya_backend.Prelude.{
  Result, ok, err, ℕ, zero, suc, ◌+◌, ◌-◌, ◌*◌, ◌/◌, ◌%◌, ◌≤◌, ◌<◌, compare, Ordering, min, max,
  String, str_eq, eq_iff, ◌≡◌, refl, sym, ap, ap₂, ◌∙◌, subst, ◌≢◌, ◌↔◌, ◌⊎◌, inl, inr, Bool, true,
  false, not, ◌&&◌, ◌||◌, Option, none, some, List, [], ◌∷◌, ◌++◌, map, arith, ltb, leb, ◌==◌,
  if◌then◌else◌, is_none, is_some, or_else, Bool-cases, Option-cases, ltb→lt, lt→ltb, leb→le,
  le→leb, ==→eq, ==_refl, length, length-append, find, filter, update_where, any, count, All,
  Rowwise, All-update_where, Rowwise-update_where, any-eq_false, All-find, Rowwise-refl,
  Rowwise-trans, find-update_where,
}
use voyya_backend.Contracts.TripStatus.{TripStatus}
use voyya_backend.Db.Rows.{TripRequest, Assignment, Db, CompanyCommission}
use voyya_backend.Db.Tx.{
  Tx, Outcome, Keeps, done, thrown, pure, throw, ◌>>=◌, ◌>>◌, >>=-Keeps, pure-Keeps, throw-Keeps,
}
use voyya_backend.Trips.Soundness.Since.{Since, update_watched_trips-Since}
use voyya_backend.Trips.Soundness.Rowsteps.{close-GoodStep, assign-GoodStep, reopen-GoodStep}
use voyya_backend.Trips.Soundness.Repository.{read-Keeps}
use voyya_backend.Trips.Repository.{get_trip_request}
use voyya_backend.Assignment.Targets.{TripClosingTarget}
use voyya_backend.Assignment.TripClosing.{
  CloseTripInput, CloseTripOutcome, resolution, close_trip_request, settle_assignments,
  release_closed, after_resolution, close_trip_in_tx, close_locked, close_passenger_trip,
  is_trip_of,
}
use voyya_backend.Assignment.Statements.{
  get_assignment, get_current_commission, mark_trip_request_assigned, assign_at, may_take,
  take_driver, mark_assignment_accepted, mark_rejected, mark_cancelled_by_driver, release_driver,
  close_assignments_for_trip, is_open_commission,
}
use voyya_backend.Assignment.Take.{
  take_trip, take_offer, with_commission, occupy_driver, accept_assignment, confirm, accepted_with,
}
use voyya_backend.Assignment.Cancel.{
  reject, reject_offer, cancel_by_driver, cancel_accepted, give_back, reopened_or_close,
  reopen_trip_request,
}
use voyya_backend.Assignment.Soundness.Keeping.{update_assignments-Since, update_drivers-Since}

-- Closing pays out cash of a completed trip only.
abbrev pub PaysOnCompletion : CloseTripInput → Type 0
PaysOnCompletion input = input.cash_collected ≡ true → input.to ≡ TripClosingTarget.completed

module _ (before : Db) where
  pub get_trip_request-Since : (k : ℕ) → Keeps (Since before) (get_trip_request k)
  unfolding get_trip_request
  get_trip_request-Since k = read-Keeps (Since before) _

  pub get_assignment-Since : (k company : ℕ) → Keeps (Since before) (get_assignment k company)
  unfolding get_assignment
  get_assignment-Since k company = read-Keeps (Since before) _

  pub release_driver-Since :
      (driver company : ℕ) → Keeps (Since before) (release_driver driver company)
  unfolding release_driver
  release_driver-Since driver company =
      >>=-Keeps (Since before) _ _ (update_drivers-Since before _ _)
        (λ _. pure-Keeps (Since before) tt)

  close_trip_request-Since :
      (fresh : String) (now : ℕ) (company : Option ℕ) (input : CloseTripInput)
      → PaysOnCompletion input
      → Keeps (Since before) (close_trip_request fresh now company input)
  unfolding close_trip_request
  close_trip_request-Since fresh now company input pays =
      update_watched_trips-Since _ _ fresh
        (λ t w s. close-GoodStep fresh now input.trip_request_id t s input.to _ _ _ _ pays w) before

  resolution-Since :
      (now : ℕ) (input : CloseTripInput) (row : Option TripRequest)
      → Keeps (Since before) (resolution now input row)
  unfolding resolution
  resolution-Since now input none =
      >>=-Keeps (Since before) _ _ (get_trip_request-Since _) (λ _. pure-Keeps (Since before) _)
  resolution-Since now input (some row) = pure-Keeps (Since before) _

  settle_assignments-Since :
      (now : ℕ) (company : Option ℕ) (input : CloseTripInput)
      → Keeps (Since before) (settle_assignments now company input)
  unfolding settle_assignments close_assignments_for_trip
  settle_assignments-Since now none input = pure-Keeps (Since before) tt
  settle_assignments-Since now (some company) input =
      >>=-Keeps (Since before) _ (release_closed company)
        (>>=-Keeps (Since before) _ _ (update_assignments-Since before _ _)
          (λ _. pure-Keeps (Since before) _))
        (elim [ none ↦ pure-Keeps (Since before) tt | some d ↦ release_driver-Since d company ])

  after_resolution-Since :
      (now : ℕ) (company : Option ℕ) (input : CloseTripInput) (o : CloseTripOutcome)
      → Keeps (Since before) (after_resolution now company input o)
  after_resolution-Since now company input (CloseTripOutcome.rejected reason status) =
      pure-Keeps (Since before) _
  after_resolution-Since now company input (CloseTripOutcome.applied row) =
      >>=-Keeps (Since before) _ _ (settle_assignments-Since now company input)
        (λ _. pure-Keeps (Since before) _)
  after_resolution-Since now company input (CloseTripOutcome.idempotent row) =
      >>=-Keeps (Since before) _ _ (settle_assignments-Since now company input)
        (λ _. pure-Keeps (Since before) _)

  pub close_trip_in_tx-Since :
      (fresh : String) (now : ℕ) (company : Option ℕ) (input : CloseTripInput)
      → PaysOnCompletion input
      → Keeps (Since before) (close_trip_in_tx fresh now company input)
  unfolding close_trip_in_tx
  close_trip_in_tx-Since fresh now company input pays =
      >>=-Keeps (Since before) _ _ (close_trip_request-Since fresh now company input pays) λ row.
        >>=-Keeps (Since before) _ _ (resolution-Since now input row)
          λ o. after_resolution-Since now company input o

  pub close_passenger_trip-Since :
      (fresh : String) (now k passenger : ℕ) (penalty : Bool)
      → Keeps (Since before) (close_passenger_trip fresh now k passenger penalty)
  unfolding close_passenger_trip
  close_passenger_trip-Since fresh now k passenger penalty db a db' s h =
      locked (find (is_trip_of k passenger) db.trips) db a db' s h
    where
      locked :
          (row : Option TripRequest) → Keeps (Since before) (close_locked fresh now k penalty row)
      locked none = pure-Keeps (Since before) _
      locked (some t) = close_trip_in_tx-Since fresh now t.company_id _ (λ e. cc)

  pub mark_trip_request_assigned-Since :
      (fresh : String) (now k trip driver company : ℕ)
      → Keeps (Since before) (mark_trip_request_assigned fresh now k trip driver company)
  unfolding mark_trip_request_assigned
  mark_trip_request_assigned-Since fresh now k trip driver company db a db' s h =
      elim (Bool-cases (may_take now k trip driver company db)) [
        | inl e ↦ assign (find (is_open_commission company) db.commissions) db a db' s (rw e at h)
        | inr e ↦ pure-Keeps (Since before) false db a db' s (rw e at h)
      ]
    where
      assign :
          (c : Option CompanyCommission) → Keeps (Since before) (assign_at fresh now trip company c)
      assign none = pure-Keeps (Since before) false
      assign (some c) =
          >>=-Keeps (Since before) _ _
            (update_watched_trips-Since _ _ fresh
              (λ t w s'. assign-GoodStep fresh now trip t s' company c.commission_pct w) before)
            (λ _. pure-Keeps (Since before) _)
