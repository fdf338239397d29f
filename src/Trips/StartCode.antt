-- ===== src/Trips/StartCode.antt =====
-- The start code of a trip, as `startWithCode` of
-- apps/api/src/modules/trips/trips.repository.ts checks it: what one attempt does, and what
-- repeated attempts come to.
pub mod Blocking
use voyya_backend.Prelude.{
  ℕ, ◌+◌, ◌-◌, ◌≤◌, String, eq_iff, ◌≡◌, refl, ap, ◌∙◌, ◌≢◌, inl, inr, Bool, true, false, ◌&&◌,
  ◌||◌, Option, none, some, List, [], ◌∷◌, arith, leb, if◌then◌else◌, is_none, Bool-cases, length,
  All,
}
use voyya_backend.Contracts.TripStatus.{driver_en_route, in_progress, same}
use voyya_backend.Db.Rows.{TripRequest, Db}
use voyya_backend.Db.Tx.{Outcome, done, thrown, after_done}
use voyya_backend.Db.StartCodeTrigger.{trigger_row}
use voyya_backend.Trips.Statements.{
  after_trigger, start_where, start_set, failed_start_where, failed_start_set, code_matches,
  code_differs, update_watched_trips,
}
use voyya_backend.Trips.Repository.{
  started, code_invalid, blocked, start_with_code, start_report, not_started,
  record_failed_start_attempt, failed_or_read, read_start_outcome, get_trip_request,
  start_otherwise, failed_start_report,
}
use voyya_backend.Trips.Soundness.Rowsteps.{start-GoodStep, failed_start-GoodStep}
use voyya_backend.Trips.Single.{
  Holds, Holds-IsSound, statement_applies, statement_misses, rewritten,
}

abbrev start_condition : Option String → TripRequest → Bool
start_condition code r =
    same r.status driver_en_route
    && is_none r.start_code_blocked_at
    && (code_matches r.start_code code || is_none r.start_code && r.start_code_exempt)

abbrev failure_condition : String → TripRequest → Bool
failure_condition code r =
    same r.status driver_en_route
    && is_none r.start_code_blocked_at
    && code_differs r.start_code code

module _ (fresh : String) (now k : ℕ) {t : TripRequest} {db : Db} (h : Holds k t db) where
  -- The tables after an attempt that starts the trip, and after one that counts as a failure.
  abbrev pub started_db : Option String → Db
  started_db code =
      rewritten h fresh (start_condition code) (start_set now)
        (λ r w s. start-GoodStep fresh now k r s code w) (λ r. refl)

  abbrev pub failed_db : String → Db
  failed_db code =
      rewritten h fresh (failure_condition code) (failed_start_set now)
        (λ r w s. failed_start-GoodStep fresh now k r s code w) (λ r. refl)

  start_applies :
      (code : Option String)
      → start_condition code t ≡ true
      → (start_with_code fresh now k code db ≡ done started (started_db code))
        × Holds k (after_trigger fresh (start_set now) t) (started_db code)
  unfolding start_with_code
  start_applies code e =
      let (q, h') =
        statement_applies h fresh (start_condition code) (start_set now)
          (λ r w s. start-GoodStep fresh now k r s code w) (λ r. refl) e in
      (
        after_done (update_watched_trips fresh (start_where k code) (start_set now))
            (start_report fresh now k code) q,
        h',
      )

  pub start_misses :
      (code : Option String)
      → start_condition code t ≡ false
      → start_with_code fresh now k code db ≡ not_started fresh now k code db
  unfolding start_with_code
  start_misses code e =
      after_done (update_watched_trips fresh (start_where k code) (start_set now))
        (start_report fresh now k code)
        (statement_misses h fresh (start_condition code) (start_set now)
          (λ r w s. start-GoodStep fresh now k r s code w) (λ r. refl) e)

  pub read_start : read_start_outcome k db ≡ done (start_otherwise (some t)) db
  unfolding read_start_outcome get_trip_request
  read_start = ap (λ r. done (start_otherwise r) db) h.found

  failure_applies :
      (code : String)
      → failure_condition code t ≡ true
      → (not_started fresh now k (some code) db
          ≡ done
              (failed_start_report (after_trigger fresh (failed_start_set now) t))
              (failed_db code))
        × Holds k (after_trigger fresh (failed_start_set now) t) (failed_db code)
  unfolding record_failed_start_attempt
  failure_applies code e =
      let (q, h') =
        statement_applies h fresh (failure_condition code) (failed_start_set now)
          (λ r w s. failed_start-GoodStep fresh now k r s code w) (λ r. refl) e in
      (
        after_done (update_watched_trips fresh (failed_start_where k code) (failed_start_set now))
            (failed_or_read k) q,
        h',
      )

  pub failure_misses :
      (code : String)
      → failure_condition code t ≡ false
      → not_started fresh now k (some code) db ≡ read_start_outcome k db
  unfolding record_failed_start_attempt
  failure_misses code e =
      after_done (update_watched_trips fresh (failed_start_where k code) (failed_start_set now))
        (failed_or_read k)
        (statement_misses h fresh (failure_condition code) (failed_start_set now)
          (λ r w s. failed_start-GoodStep fresh now k r s code w) (λ r. refl) e)

-- Where all trips are sound and one has the key, and it is on the way with a code, an attempt
-- with that code succeeds: the trip is in progress, started now, and its code is erased.
pub start_right_code :
    (fresh : String) (now k : ℕ) (own : String) (t : TripRequest) (db : Db)
    → Holds k t db
    → t.status ≡ driver_en_route
    → t.start_code ≡ some own
    → (db' : Db) × (t' : TripRequest) × Holds k t' db'
      × (start_with_code fresh now k (some own) db ≡ done started db')
      × (t'.status ≡ in_progress)
      × (t'.start_code ≡ none)
      × (t'.started_at ≡ some now)
unfolding trigger_row
start_right_code fresh now k own t db h en_route code =
    let sound = Holds-IsSound h in
    let (q, h') = start_applies fresh now k h (some own) (ground (arith, eq_iff own own)) in
    (
      started_db fresh now k h (some own),
      after_trigger fresh (start_set now) t,
      h',
      q,
      refl,
      refl,
      refl,
    )

-- The row that a failed attempt leaves.
failed_row :
    (fresh own : String) (now : ℕ) (t : TripRequest)
    → t.status ≡ driver_en_route
    → t.start_code ≡ some own
    → let t' = after_trigger fresh (failed_start_set now) t in
      let failures = t.start_code_failed_attempts + 1 in
      (failed_start_report t'
        ≡ (if leb 5 failures then blocked now else code_invalid (5 - failures)))
      × (t'.status ≡ driver_en_route)
      × (t'.start_code_failed_attempts ≡ failures)
      × (t'.start_code ≡ (if leb 5 failures then none else some own))
      × (t'.start_code_blocked_at ≡ (if leb 5 failures then some now else none))
unfolding trigger_row
failed_row fresh own now t en_route own_code = ground arith

-- Where all trips are sound and one has the key, and it is on the way with a code, an attempt
-- with another code commits and leaves the trip on the way with one more failure. Up to the
-- fourth failure it answers how many attempts remain and the code stays; from the fifth on it
-- answers the block, the trip is blocked now and the code is erased.
pub start_wrong_code :
    (fresh : String) (now k : ℕ) (own code : String) (t : TripRequest) (db : Db)
    → Holds k t db
    → t.status ≡ driver_en_route
    → t.start_code ≡ some own
    → own ≢ code
    → let failures = t.start_code_failed_attempts + 1 in
      (db' : Db) × (t' : TripRequest) × Holds k t' db'
      × (start_with_code fresh now k (some code) db
          ≡ done (if leb 5 failures then blocked now else code_invalid (5 - failures)) db')
      × (t'.status ≡ driver_en_route)
      × (t'.start_code_failed_attempts ≡ failures)
      × (t'.start_code ≡ (if leb 5 failures then none else some own))
      × (t'.start_code_blocked_at ≡ (if leb 5 failures then some now else none))
start_wrong_code fresh now k own code t db h en_route own_code differs =
    let sound = Holds-IsSound h in
    let missed = start_misses fresh now k h (some code) (ground (arith, eq_iff own code)) in
    let (q, h') = failure_applies fresh now k h code (ground (arith, eq_iff own code)) in
    let (report, status, failures, left, at) = failed_row fresh own now t en_route own_code in
    (
      failed_db fresh now k h code,
      after_trigger fresh (failed_start_set now) t,
      h',
      missed ∙ q ∙ ap (λ r. done r (failed_db fresh now k h code)) report,
      status,
      failures,
      left,
      at,
    )
