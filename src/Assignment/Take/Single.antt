-- ===== src/Assignment/Take/Single.antt =====
-- What a second take of a trip comes to, on the trips that the first has left.
use voyya_backend.Prelude.{
  ℕ, ◌≤◌, String, ◌≡◌, refl, sym, ap, ap₂, ◌∙◌, inl, inr, Bool, true, false, ◌&&◌, ◌||◌, Option,
  none, some, List, [], ◌∷◌, arith, ◌==◌, if◌then◌else◌, is_none, is_some, find, update_where,
  count, All, All-find, find-update_where, keep, find-and, count-update_where,
}
use mathlib.Core.Option
use voyya_backend.Contracts.TripStatus.{pending_assignment, same}
use voyya_backend.Db.Rows.{TripRequest, Assignment, Db, eq_opt}
use voyya_backend.Db.Tx.{done}
use voyya_backend.Db.StartCodeTrigger.{trigger_row}
use voyya_backend.Trips.Statements.{after_trigger, has_trip_id, assign_where, assign_set}
use voyya_backend.Assignment.Statements.{is_offer}
use voyya_backend.Assignment.Take.{AcceptOutcome, take_trip}
use voyya_backend.Assignment.Take.Updates.{assigned_trips}
use voyya_backend.Assignment.Take.Effect.{is_accepted_outcome, take_trip_effect}

abbrev pending_condition : ℕ → TripRequest → Bool
pending_condition company r =
    same r.status pending_assignment
    && (is_none r.requested_company_id || eq_opt r.requested_company_id company)

assign_keeps_id :
    (fresh : String) (now company pct : ℕ) (r : TripRequest)
    → (after_trigger fresh (assign_set now company pct) r).trip_request_id ≡ r.trip_request_id
unfolding trigger_row
assign_keeps_id fresh now company pct r = ground arith

-- A row that has been assigned is no longer pending.
assigned_not_pending :
    (fresh : String) (now company pct company2 : ℕ) (r : TripRequest)
    → pending_condition company2 (after_trigger fresh (assign_set now company pct) r) ≡ false
unfolding trigger_row
assigned_not_pending fresh now company pct company2 r = ground arith

-- Of a trip that a company has taken nothing is pending for another.
not_pending_again :
    (fresh : String) (now trip company pct company2 : ℕ) (rows : List TripRequest)
    → count (has_trip_id trip) rows ≤ 1
    → is_some (find (assign_where trip company) rows) ≡ true
    → find (assign_where trip company2) (assigned_trips fresh now trip company pct rows) ≡ none
not_pending_again fresh now trip company pct company2 rows unique pending =
    let set = after_trigger fresh (assign_set now company pct) in
    let keys : (r : TripRequest) → has_trip_id trip (set r) ≡ has_trip_id trip r =
      λ r. ap (λ n. n == trip) (assign_keeps_id fresh now company pct r) in
    let still : count (has_trip_id trip) (update_where (assign_where trip company) set rows) ≤ 1 =
      rw (count-update_where (has_trip_id trip) (assign_where trip company) set rows keys) unique in
    find-and (has_trip_id trip) (pending_condition company2)
      (assigned_trips fresh now trip company pct rows) still
    ∙ ap (keep (pending_condition company2))
        (find-update_where (has_trip_id trip) (assign_where trip company) set rows keys)
    ∙ row (find (has_trip_id trip) rows)
        (All-find (λ (r : TripRequest). Unit {0}) (has_trip_id trip) rows)
        (sym (ap is_some (find-and (has_trip_id trip) (pending_condition company) rows unique))
          ∙ pending)
  where
    row :
        (o : Option TripRequest)
        → ((x : TripRequest)
            → All (λ (r : TripRequest). Unit {0}) rows
            → o ≡ some x
            → Unit {0} × (has_trip_id trip x ≡ true))
        → is_some (keep (pending_condition company) o) ≡ true
        → keep (pending_condition company2) (
            Option.map
              (λ x.
                if assign_where trip company x
                then after_trigger fresh (assign_set now company pct) x
                else x)
              o)
          ≡ none
    row none found p = refl
    row (some x) found p =
        let key = (found x (all_units rows) refl).1 in
        ground (arith, key, assigned_not_pending fresh now company pct company2 x)
      where
        all_units : (xs : List TripRequest) → All (λ (r : TripRequest). Unit {0}) xs
        all_units [] = tt
        all_units (x ∷ xs) = (tt, all_units xs)

-- Where one trip at most has the key: once a take of the trip has committed with an acceptance,
-- a take of an offer of the same trip, by any driver of any company, on any tables whose trips are
-- those that the first has left, that commits answers no acceptance and changes no table.
pub taken_once :
    (fresh fresh2 : String) (clock now clock2 now2 k driver company k2 driver2 company2 : ℕ)
    (db db' later db'' : Db) (trip vehicle passenger : ℕ) (r2 : AcceptOutcome) (a2 : Assignment)
    → count (has_trip_id trip) db.trips ≤ 1
    → take_trip fresh clock now k driver company db
      ≡ done (AcceptOutcome.accepted trip vehicle passenger) db'
    → find (is_offer k2 company2) later.assignments ≡ some a2
    → a2.trip_request_id ≡ trip
    → later.trips ≡ db'.trips
    → take_trip fresh2 clock2 now2 k2 driver2 company2 later ≡ done r2 db''
    → (is_accepted_outcome r2 ≡ false) × (db'' ≡ later)
unfolding is_accepted_outcome
taken_once fresh fresh2 clock now clock2 now2 k driver company k2 driver2 company2 db db' later db''
      trip vehicle passenger r2 a2 unique first offer same_trip same_trips second =
    elim (take_trip_effect fresh2 clock2 now2 k2 driver2 company2 later db'' r2 second) [
      | inl nothing ↦ nothing
      | inr (b2, found2, _, _, t2) ↦
          elim (take_trip_effect fresh clock now k driver company db db' _ first) [
            | inl nothing ↦ cc
            | inr (a, found, _, _, t) ↦
                let e : a.trip_request_id ≡ trip = cc (t.accepted_for.1) in
                let e2 : b2.trip_request_id ≡ trip = cc in
                let trips_now : later.trips
                    ≡ assigned_trips fresh now trip company t.commission.commission_pct db.trips =
                  same_trips
                  ∙ ap (λ (d : Db). d.trips) t.effect
                  ∙ ap
                      (λ n. assigned_trips fresh now n company t.commission.commission_pct db.trips)
                      e in
                let none_left =
                  not_pending_again fresh now trip company t.commission.commission_pct company2
                    db.trips unique (rw (← e) t.was_pending) in
                let pending : is_some (
                      find (assign_where trip company2) (
                        assigned_trips fresh now trip company t.commission.commission_pct db.trips))
                    ≡ true =
                  sym (ap₂ (λ n ts. is_some (find (assign_where n company2) ts)) e2 trips_now)
                  ∙ t2.was_pending in
                absurd (ground (arith, none_left, pending))
          ]
    ]
