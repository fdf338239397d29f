-- ===== src/Trips/Soundness.antt =====
-- The well-formedness of a row of trips.trip_request: the CHECK constraints of the start code and
-- what the statements of the trip and assignment repositories keep besides.
pub mod Rowsteps
pub mod Since
pub mod Repository
use voyya_backend.Prelude.{
  Result, ok, err, ℕ, zero, suc, ◌+◌, ◌-◌, ◌*◌, ◌/◌, ◌%◌, ◌≤◌, ◌<◌, compare, Ordering, min, max,
  String, str_eq, eq_iff, ◌≡◌, refl, sym, ap, ap₂, ◌∙◌, subst, ◌≢◌, ◌↔◌, ◌⊎◌, inl, inr, Bool, true,
  false, not, ◌&&◌, ◌||◌, Option, none, some, List, [], ◌∷◌, ◌++◌, map, arith, ltb, leb, ◌==◌,
  if◌then◌else◌, is_none, is_some, or_else, Bool-cases, Option-cases, ltb→lt, lt→ltb, leb→le,
  le→leb, ==→eq, ==_refl, length, length-append, find, filter, update_where, any, count, All,
  Rowwise, All-update_where, Rowwise-update_where, any-eq_false, All-find,
}
use voyya_backend.Prelude.Int.{ℤ, sub_ℕ}
use voyya_backend.Contracts.TripStatus.{
  TripStatus, pending_assignment, assigned, driver_en_route, in_progress, completed,
  cancelled_by_passenger, cancelled_by_driver, no_driver, no_show, same, includes,
  can_transition_trip_status,
}
use voyya_backend.Db.Rows.{TripRequest, Db}
use voyya_backend.Db.StartCodeTrigger.{in_window, trigger_raises, trigger_row}

-- The statuses in which a company owns the trip, and those in which none does.
abbrev pub has_owner : TripStatus → Bool
has_owner =
    includes
      (assigned ∷ driver_en_route ∷ in_progress ∷ completed ∷ no_show ∷ cancelled_by_driver ∷ [])

abbrev pub has_no_owner : TripStatus → Bool
has_no_owner = includes (pending_assignment ∷ no_driver ∷ [])

-- The statuses that closeTripRequest writes.
abbrev pub is_closed : TripStatus → Bool
is_closed = includes (completed ∷ no_show ∷ cancelled_by_passenger ∷ cancelled_by_driver ∷ [])

pub record IsSound (t : TripRequest) : Type 0 where
  pub code_in_window :
      is_some t.start_code ≡ true → (in_window t.status ≡ true) × (t.start_code_blocked_at ≡ none)
  pub code_present :
      in_window t.status ≡ true
      → (is_some t.start_code || (t.start_code_exempt || is_some t.start_code_blocked_at)) ≡ true
  pub attempts_bounded : t.start_code_failed_attempts ≤ 5
  pub blocked_at_five : is_some t.start_code_blocked_at ≡ (t.start_code_failed_attempts == 5)
  pub attempts_late :
      0 < t.start_code_failed_attempts
      → (same t.status pending_assignment ≡ false) × (same t.status assigned ≡ false)
  pub owned : has_owner t.status ≡ true → is_some t.company_id ≡ true
  pub unowned :
      has_no_owner t.status ≡ true
      → (t.company_id ≡ none) × (t.commission_pct ≡ none) × (t.commission ≡ 0)
  pub arrival :
      is_some t.arrived_at ≡ true
      → (same t.status pending_assignment ≡ false) × (same t.status assigned ≡ false)
  pub no_show_arrived : same t.status no_show ≡ true → is_some t.arrived_at ≡ true
  pub finished : is_some t.finished_at ≡ is_closed t.status
  pub earnings :
      t.net_earnings ≡ (if same t.status completed then some (sub_ℕ t.fare t.commission) else none)
  pub cash : is_some t.cash_collected_at ≡ true → same t.status completed ≡ true
  pub started : (same t.status in_progress || same t.status completed) ≡ is_some t.started_at

-- The next row of a trip: the same trip, its status unchanged or moved along the transition table.
pub record Evolves (old new : TripRequest) : Type 0 where
  pub same_id : new.trip_request_id ≡ old.trip_request_id
  pub same_passenger : new.passenger_id ≡ old.passenger_id
  pub same_fare : new.fare ≡ old.fare
  pub legal : (new.status ≡ old.status) ⊎ (can_transition_trip_status old.status new.status ≡ true)

pub Evolves-refl : (t : TripRequest) → Evolves t t
Evolves-refl t = record {
  same_id = refl;
  same_passenger = refl;
  same_fare = refl;
  legal = inl refl;
}

abbrev pub AllSound : Db → Type 0
AllSound db = All IsSound db.trips
