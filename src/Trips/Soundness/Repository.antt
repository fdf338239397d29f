-- ===== src/Trips/Soundness/Repository.antt =====
-- The soundness of trips through the operations of
-- apps/api/src/modules/trips/trips.repository.ts.
use voyya_backend.Prelude.{
  ℕ, String, subst, inl, inr, Option, none, some, List, [], ◌∷◌, ◌++◌, arith, Bool-cases, any, All,
}
use voyya_backend.Db.Rows.{TripRequest, Db}
use voyya_backend.Db.Tx.{Keeps, done, pure, ◌>>=◌, >>=-Keeps, pure-Keeps, done-injective}
use voyya_backend.Trips.Repository.{
  get_trip_request, create_trip_request, new_trip_request, mark_no_driver_if_unassigned,
  mark_en_route, en_route_report, mark_arrived, arrived_report, start_with_code, start_report,
  not_started, failed_or_read, read_start_outcome, record_failed_start_attempt, mark_cash_collected,
  cash_report, is_active_of, is_requested_company_rejected,
}
use voyya_backend.Trips.Soundness.{IsSound, AllSound}
use voyya_backend.Trips.Soundness.Rowsteps.{
  no_driver-GoodStep, en_route-GoodStep, start-GoodStep, failed_start-GoodStep, arrived_step,
  cash_step,
}
use voyya_backend.Trips.Soundness.Since.{Since, update_trips-Since, update_watched_trips-Since}

-- A transaction that only reads.
pub read-Keeps : {A : Type 0} (P : Db → Type 0) (f : Db → A) → Keeps P (λ db. done (f db) db)
read-Keeps P f db a db' p h = subst P (cc) p

module _ (before : Db) where
  get_trip_request-Since : (k : ℕ) → Keeps (Since before) (get_trip_request k)
  unfolding get_trip_request
  get_trip_request-Since k = read-Keeps (Since before) _

  -- Reading a trip and reporting on it changes nothing.
  read_report-Since :
      {A : Type 0} (k : ℕ) (f : Option TripRequest → A)
      → Keeps (Since before) (◌>>=◌ (get_trip_request k) (λ r. pure (f r)))
  read_report-Since k f =
      >>=-Keeps (Since before) _ _ (get_trip_request-Since k) (λ r. pure-Keeps (Since before) (f r))

  pub mark_no_driver-Since :
      (fresh : String) (now k : ℕ) → Keeps (Since before) (mark_no_driver_if_unassigned fresh now k)
  unfolding mark_no_driver_if_unassigned
  mark_no_driver-Since fresh now k =
      >>=-Keeps (Since before) _ _
        (update_watched_trips-Since _ _ fresh (λ t w s. no_driver-GoodStep fresh now k t s w)
          before)
        (λ r. pure-Keeps (Since before) _)

  pub mark_en_route-Since :
      (fresh : String) (now k : ℕ) → Keeps (Since before) (mark_en_route fresh now k)
  unfolding mark_en_route
  mark_en_route-Since fresh now k =
      >>=-Keeps (Since before) _ (en_route_report k)
        (update_watched_trips-Since _ _ fresh (λ t w s. en_route-GoodStep fresh now k t s w) before)
        (elim [ none ↦ read_report-Since k _ | some r ↦ pure-Keeps (Since before) _ ])

  pub mark_arrived-Since : (now k : ℕ) → Keeps (Since before) (mark_arrived now k)
  unfolding mark_arrived
  mark_arrived-Since now k =
      >>=-Keeps (Since before) _ (arrived_report now k)
        (update_trips-Since _ _ (λ t w s. arrived_step "" now k t s w) before)
        (elim [ none ↦ read_report-Since k _ | some r ↦ pure-Keeps (Since before) _ ])

  pub mark_cash_collected-Since : (now k : ℕ) → Keeps (Since before) (mark_cash_collected now k)
  unfolding mark_cash_collected
  mark_cash_collected-Since now k =
      >>=-Keeps (Since before) _ (cash_report now k)
        (update_trips-Since _ _ (λ t w s. cash_step "" now k t s w) before)
        (elim [ none ↦ read_report-Since k _ | some r ↦ pure-Keeps (Since before) _ ])

  read_start_outcome-Since : (k : ℕ) → Keeps (Since before) (read_start_outcome k)
  unfolding read_start_outcome
  read_start_outcome-Since k = read_report-Since k _

  not_started-Since :
      (fresh : String) (now k : ℕ) (code : Option String)
      → Keeps (Since before) (not_started fresh now k code)
  unfolding record_failed_start_attempt
  not_started-Since fresh now k none = read_start_outcome-Since k
  not_started-Since fresh now k (some code) =
      >>=-Keeps (Since before) _ (failed_or_read k)
        (update_watched_trips-Since _ _ fresh
          (λ t w s. failed_start-GoodStep fresh now k t s code w) before)
        (elim [ none ↦ read_start_outcome-Since k | some r ↦ pure-Keeps (Since before) _ ])

  pub start_with_code-Since :
      (fresh : String) (now k : ℕ) (code : Option String)
      → Keeps (Since before) (start_with_code fresh now k code)
  unfolding start_with_code
  start_with_code-Since fresh now k code =
      >>=-Keeps (Since before) _ (start_report fresh now k code)
        (update_watched_trips-Since _ _ fresh (λ t w s. start-GoodStep fresh now k t s code w)
          before)
        (elim [ none ↦ not_started-Since fresh now k code | some r ↦ pure-Keeps (Since before) _ ])

-- A new request is sound.
new_trip_request-IsSound :
    (k passenger municipality service now fare : ℕ) (requested : Option ℕ)
    → IsSound (new_trip_request k passenger municipality service now fare requested)
new_trip_request-IsSound k passenger municipality service now fare requested = ground arith

All-append {ℓ κ} :
    {A : Type ℓ} (P : A → Type κ) (xs ys : List A) → All P xs → All P ys → All P (xs ++ ys)
All-append P [] ys h k = k
All-append P (x ∷ xs) ys h k = (h.0, All-append P xs ys h.1 k)

-- If all trips are sound, they are sound after a request is created, whatever its passenger,
-- municipality, fare and requested company.
pub create_trip_request_sound :
    (k passenger municipality service now fare : ℕ) (requested : Option ℕ)
    → Keeps AllSound
        (create_trip_request (new_trip_request k passenger municipality service now fare requested))
unfolding create_trip_request
create_trip_request_sound k passenger municipality service now fare requested db r db' s h =
    let row = new_trip_request k passenger municipality service now fare requested in
    elim (Bool-cases (is_requested_company_rejected row db)) [
      | inl e ↦ cc (rw e at h)
      | inr free ↦ elim (Bool-cases (any (is_active_of passenger) db.trips)) [
        | inl e ↦ cc (rw (free, e) at h)
        | inr e ↦ subst AllSound (done-injective (rw (free, e) at h)) (
            All-append IsSound db.trips _ s
              (new_trip_request-IsSound k passenger municipality service now fare requested, tt))
      ]
    ]
