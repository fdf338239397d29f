-- ===== src/Trips/Soundness/Rowsteps.antt =====
-- The statements of apps/api/src/modules/trips/trips.repository.ts and
-- apps/api/src/modules/assignment/assignment.repository.ts at one row: its soundness, its way
-- along the transition table, and the start-code trigger.
use voyya_backend.Prelude.{ℕ, String, ◌≡◌, true, false, Option, arith, Bool}
use voyya_backend.Assignment.Targets.{TripClosingTarget, target_status, source_statuses_for}
use voyya_backend.Db.Rows.{TripRequest}
use voyya_backend.Db.StartCodeTrigger.{trigger_raises, trigger_row, distinct_code_self}
use voyya_backend.Trips.Statements.{
  after_trigger, no_driver_where, no_driver_set, en_route_where, en_route_set, assign_where,
  failed_start_where, reopen_where, start_where, assign_set, failed_start_set, reopen_set,
  start_set, arrived_where, cash_where, arrived_set, cash_set, close_where, close_set,
}
use voyya_backend.Trips.Soundness.{IsSound, Evolves}

-- What a watched statement does to a row.
pub record GoodStep (fresh : String) (set : TripRequest → TripRequest) (t : TripRequest)
    : Type 0 where
  pub sound : IsSound (after_trigger fresh set t)
  pub evolves : Evolves t (after_trigger fresh set t)
  pub accepted : trigger_raises t (set t) ≡ false

module _ (fresh : String) (now k : ℕ) (t : TripRequest) (s : IsSound t) where
  pub no_driver-GoodStep : no_driver_where k t ≡ true → GoodStep fresh (no_driver_set now) t
  unfolding trigger_raises trigger_row
  no_driver-GoodStep w = ground arith

  pub en_route-GoodStep : en_route_where k t ≡ true → GoodStep fresh (en_route_set now) t
  unfolding trigger_raises trigger_row
  en_route-GoodStep w = ground (arith, distinct_code_self t.start_code)

  pub start-GoodStep :
      (code : Option String) → start_where k code t ≡ true → GoodStep fresh (start_set now) t
  unfolding trigger_raises trigger_row
  start-GoodStep code w = ground (arith, distinct_code_self t.start_code)

  pub failed_start-GoodStep :
      (code : String) → failed_start_where k code t ≡ true → GoodStep fresh (failed_start_set now) t
  unfolding trigger_raises trigger_row
  failed_start-GoodStep code w = ground (arith, distinct_code_self t.start_code)

  pub reopen-GoodStep : reopen_where k t ≡ true → GoodStep fresh (reopen_set now) t
  unfolding trigger_raises trigger_row
  reopen-GoodStep w = ground arith

  pub assign-GoodStep :
      (company pct : ℕ)
      → assign_where k company t ≡ true
      → GoodStep fresh (assign_set now company pct) t
  unfolding trigger_raises trigger_row
  assign-GoodStep company pct w = ground arith

  -- Closing pays out cash of a completed trip only.
  pub close-GoodStep :
      (to : TripClosingTarget) (grace : ℕ) (unowned_only cash_collected penalty : Bool)
      → (cash_collected ≡ true → to ≡ TripClosingTarget.completed)
      → close_where now k
          (target_status to)
          (source_statuses_for (target_status to))
          grace
          unowned_only
          t
        ≡ true
      → GoodStep fresh (close_set now (target_status to) cash_collected penalty) t
  unfolding trigger_raises trigger_row
  close-GoodStep TripClosingTarget.completed grace unowned_only cash_collected penalty c w =
      ground (arith, distinct_code_self t.start_code)
  close-GoodStep _ grace unowned_only cash_collected penalty c w =
      ground (arith, distinct_code_self t.start_code)

  pub arrived_step :
      arrived_where k t ≡ true → IsSound (arrived_set now t) × Evolves t (arrived_set now t)
  arrived_step w = ground arith

  pub cash_step : cash_where k t ≡ true → IsSound (cash_set now t) × Evolves t (cash_set now t)
  cash_step w = ground arith
