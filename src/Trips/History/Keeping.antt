-- ===== src/Trips/History/Keeping.antt =====
-- The soundness of trips through whole histories of the calls of apps/api/src/modules/trips and
-- apps/api/src/modules/assignment.
use voyya_backend.Prelude.{
  Result, ok, err, ℕ, zero, suc, String, ◌≡◌, refl, subst, inl, inr, Bool, Option, none, some, List,
  [], ◌∷◌, arith, ◌==◌, Bool-cases, find, any,
}
use voyya_backend.Contracts.TripStatus.{cancelled_by_passenger, can_transition_trip_status}
use voyya_backend.Contracts.AssignmentStatus.{AssignmentStatus}
use voyya_backend.Db.Rows.{TripRequest, Db}
use voyya_backend.Db.Tx.{
  Tx, Keeps, done, >>=-Keeps, pure-Keeps, throw-Keeps, run_in_tenant, run_in_tenant-keeps, DbError,
  done-injective,
}
use voyya_backend.Trips.Repository.{TripTransitionOutcome}
use voyya_backend.Trips.Passenger.{cancel, cancel_trip}
use voyya_backend.Trips.Statements.{has_trip_id}
use voyya_backend.Trips.Lifecycle.{
  in_owned_trip, assert_ownership, is_owned, closed_assignment_statuses, get_trip_request_or_throw,
  found_or_throw, with_grace, answer, LifecycleError, TripTransitionResult, drive_to_pickup,
  arrive_at_pickup, mark_started, confirm_cash_collected, complete, declare_no_show, complete_input,
  no_show_input,
}
use voyya_backend.Trips.Soundness.{AllSound}
use voyya_backend.Trips.Soundness.Since.{Since, Since-refl}
use voyya_backend.Trips.Soundness.Repository.{
  mark_en_route-Since, mark_arrived-Since, start_with_code-Since, mark_cash_collected-Since,
  mark_no_driver-Since,
}
use voyya_backend.Assignment.Take.{accept, attempt_take, retry_on_deadlock}
use voyya_backend.Assignment.Soundness.{
  get_trip_request-Since, close_trip_in_tx-Since, close_passenger_trip-Since,
}
use voyya_backend.Assignment.Soundness.Drivers.{
  take_trip-Since, reject-Since, cancel_by_driver-Since,
}
use voyya_backend.Trips.History.{
  Call, step, run, cancels, drives, arrives, starts, collects, completes, declares_no_show, takes,
  rejects, gives_back, exhausts,
}

answer_db :
    {A : Type 0} (read : A → Result LifecycleError TripTransitionResult) (r : Result DbError A × Db)
    → (answer read r).1 ≡ r.1
answer_db read (ok a, db) = refl
answer_db read (err e, db) = refl

-- What every attempt keeps, the retry keeps.
retry-keeps :
    {A : Type 0} (P : Db → Type 0) (operation : ℕ → Db → Result DbError A × Db)
    → ((n : ℕ) (db : Db) → P db → P (operation n db).1)
    → (retries : ℕ) (db : Db) → P db
    → P (retry_on_deadlock retries operation db).1
unfolding retry_on_deadlock
retry-keeps P operation k zero db p = k zero db p
retry-keeps P operation k (suc retries) db p = ground (
  arith,
  retry-keeps P operation k retries (operation (suc retries) db).1 (k (suc retries) db p),
  k (suc retries) db p,
)

cancel_trip-Since :
    (before : Db) (window : ℕ → ℕ → ℕ) (fresh : String) (received now k passenger : ℕ)
    (t : Option TripRequest) (db : Db)
    → Since before db
    → Since before (cancel_trip window fresh received now k passenger t db).1
unfolding cancel_trip
cancel_trip-Since before window fresh received now k passenger none db s = s
cancel_trip-Since before window fresh received now k passenger (some trip) db s =
    elim (Bool-cases (trip.passenger_id == passenger)) [
      | inr e ↦ rw e s
      | inl e ↦ elim (Bool-cases (can_transition_trip_status trip.status cancelled_by_passenger)) [
        | inr f ↦ rw (e, f) s
        | inl f ↦
            rw (e, f)
              (run_in_tenant-keeps (Since before) _
                (close_passenger_trip-Since before fresh now k passenger _) db s)
      ]
    ]

-- Checking that the driver owns the trip changes nothing.
assert_ownership_same :
    (k driver company : ℕ) (allow : List AssignmentStatus) (db : Db) (a : Unit {0}) (db' : Db)
    → assert_ownership k driver company allow db ≡ done a db'
    → db ≡ db'
unfolding assert_ownership
assert_ownership_same k driver company allow db a db' h =
    elim (Bool-cases (any (is_owned k driver company allow) db.assignments)) [
      | inl e ↦ done-injective (rw e at h)
      | inr e ↦
          elim (Bool-cases
            (any (is_owned k driver company closed_assignment_statuses) db.assignments)) [
              | inl f ↦ cc (rw (e, f) at h)
              | inr f ↦ cc (rw (e, f) at h)
            ]
    ]

module _ (before : Db) where
  in_owned_trip-Since :
      {A : Type 0} (k driver company : ℕ) (allow : List AssignmentStatus) (m : Tx A)
      → Keeps (Since before) m
      → Keeps (Since before) (in_owned_trip k driver company allow m)
  unfolding in_owned_trip
  in_owned_trip-Since k driver company allow m km =
      >>=-Keeps (Since before) _ _
        (λ db a db' s h.
          subst (Since before) (assert_ownership_same k driver company allow db a db' h) s)
        (λ _. km)

  answered-Since :
      {A : Type 0} (read : A → Result LifecycleError TripTransitionResult) (m : Tx A)
      → Keeps (Since before) m
      → (db : Db) → Since before db
      → Since before (answer read (run_in_tenant m db)).1
  answered-Since read m km db s =
      rw (answer_db read (run_in_tenant m db)) (run_in_tenant-keeps (Since before) m km db s)

  found-Since : (k : ℕ) → Keeps (Since before) (get_trip_request_or_throw k)
  unfolding get_trip_request_or_throw
  found-Since k =
      >>=-Keeps (Since before) _ found_or_throw (get_trip_request-Since before k)
        (elim [ none ↦ throw-Keeps (Since before) _ | some t ↦ pure-Keeps (Since before) t ])

  with_grace-Since :
      (grace : ℕ → ℕ → ℕ) (k : ℕ) (o : TripTransitionOutcome)
      → Keeps (Since before) (with_grace grace k o)
  with_grace-Since grace k (TripTransitionOutcome.rejected status) = pure-Keeps (Since before) _
  with_grace-Since grace k (TripTransitionOutcome.applied at) =
      >>=-Keeps (Since before) _ _ (found-Since k) (λ _. pure-Keeps (Since before) _)
  with_grace-Since grace k (TripTransitionOutcome.idempotent at) =
      >>=-Keeps (Since before) _ _ (found-Since k) (λ _. pure-Keeps (Since before) _)

  attempt_take-Since :
      (locked : ℕ → Bool) (fresh : String) (clock now k driver company n : ℕ) (db : Db)
      → Since before db
      → Since before (attempt_take locked fresh clock now k driver company n db).1
  unfolding attempt_take
  attempt_take-Since locked fresh clock now k driver company n db s = elim (Bool-cases (locked n)) [
    | inl e ↦ rw e s
    | inr e ↦ rw e (
        run_in_tenant-keeps (Since before) _
          (take_trip-Since before fresh clock now k driver company) db s)
  ]

  accept-Since :
      (locked : ℕ → Bool) (fresh : String) (clock now k driver company : ℕ) (db : Db)
      → Since before db
      → Since before (accept locked fresh clock now k driver company db).1
  unfolding accept
  accept-Since locked fresh clock now k driver company db s =
      retry-keeps (Since before) (attempt_take locked fresh clock now k driver company)
        (λ n d. attempt_take-Since locked fresh clock now k driver company n d) 1 db s

  cancel-Since :
      (window : ℕ → ℕ → ℕ) (fresh : String) (received now k passenger : ℕ) (db : Db)
      → Since before db
      → Since before (cancel window fresh received now k passenger db).1
  unfolding cancel
  cancel-Since window fresh received now k passenger db s = go (find (has_trip_id k) db.trips)
    where
      go :
          (t : Option TripRequest)
          → Since before (cancel_trip window fresh received now k passenger t db).1
      go t = cancel_trip-Since before window fresh received now k passenger t db s

  step-Since :
      (grace window : ℕ → ℕ → ℕ) (db : Db) (c : String × Call)
      → Since before db
      → Since before (step grace window db c)
  unfolding step drive_to_pickup arrive_at_pickup mark_started confirm_cash_collected complete
      declare_no_show
  step-Since grace window db (fresh, cancels received now k passenger) s =
      cancel-Since window fresh received now k passenger db s
  step-Since grace window db (fresh, drives now k driver company) s =
      answered-Since _ _
        (in_owned_trip-Since k driver company _ _ (mark_en_route-Since before fresh now k)) db s
  step-Since grace window db (fresh, arrives now k driver company) s =
      answered-Since _ _
        (in_owned_trip-Since k driver company _ _ (
          >>=-Keeps (Since before) _ _ (mark_arrived-Since before now k)
            (with_grace-Since grace k)))
        db s
  step-Since grace window db (fresh, starts now k driver company code) s =
      answered-Since _ _
        (in_owned_trip-Since k driver company _ _ (start_with_code-Since before fresh now k code))
        db s
  step-Since grace window db (fresh, collects now k driver company) s =
      answered-Since _ _
        (in_owned_trip-Since k driver company _ _ (mark_cash_collected-Since before now k)) db s
  step-Since grace window db (fresh, completes now k driver company cash) s =
      answered-Since _ _
        (in_owned_trip-Since k driver company _ _ (
          >>=-Keeps (Since before) _ _ (found-Since k) λ _.
            close_trip_in_tx-Since before fresh now (some company) (complete_input k driver cash)
              (λ e. refl)))
        db s
  step-Since grace window db (fresh, declares_no_show now k driver company) s =
      answered-Since _ _
        (in_owned_trip-Since k driver company _ _ (
          >>=-Keeps (Since before) _ _ (found-Since k) λ t.
            close_trip_in_tx-Since before fresh now (some company)
              (no_show_input k driver (grace t.municipality_id t.service_type)) (λ e. cc)))
        db s
  step-Since grace window db (fresh, takes locked clock now k driver company) s =
      accept-Since locked fresh clock now k driver company db s
  step-Since grace window db (fresh, rejects now k driver company reason) s =
      run_in_tenant-keeps (Since before) _ (reject-Since before now k driver company reason) db s
  step-Since grace window db (fresh, gives_back now k driver company reason) s =
      run_in_tenant-keeps (Since before) _
        (cancel_by_driver-Since before fresh now k driver company reason) db s
  step-Since grace window db (fresh, exhausts now k) s =
      run_in_tenant-keeps (Since before) _ (mark_no_driver-Since before fresh now k) db s

  run-Since :
      (grace window : ℕ → ℕ → ℕ) (db : Db) (cs : List (String × Call))
      → Since before db
      → Since before (run grace window db cs)
  unfolding run
  run-Since grace window db [] s = s
  run-Since grace window db (c ∷ cs) s =
      run-Since grace window (step grace window db c) cs (step-Since grace window db c s)

-- If all trips are sound, then after any list of calls, each with any arguments and any answer
-- of the trigger's random code, all trips are sound, and each is the trip that stood in its
-- place, with its identity, passenger and fare, and a status that the transition table reaches
-- from the one before.
pub history_sound :
    (grace window : ℕ → ℕ → ℕ) (db : Db) (cs : List (String × Call))
    → AllSound db
    → Since db (run grace window db cs)
history_sound grace window db cs s = run-Since db grace window db cs (Since-refl db s)
