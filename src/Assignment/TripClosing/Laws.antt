-- ===== src/Assignment/TripClosing/Laws.antt =====
-- What closing a trip does, case by case: closeTripInTx of apps/api/src/modules/assignment/trip-
-- closing.service.ts.
use voyya_backend.Prelude.{
  ℕ, String, ◌≡◌, refl, sym, ap, ◌∙◌, ◌≢◌, ◌⊎◌, inl, inr, Bool, true, false, not, ◌&&◌, ◌||◌,
  Option, none, some, List, is_none, Bool-cases, Option-cases, update_where,
}
use voyya_backend.Contracts.TripStatus.{no_show, same, includes, same→eq, same_refl}
use voyya_backend.Contracts.AssignmentStatus
use voyya_backend.Db.Rows.{TripRequest, Assignment, Driver, Db}
use voyya_backend.Db.Tx.{
  Tx, Keeps, done, pure, ◌>>=◌, ◌>>◌, >>=-eq-done, >>=-Keeps, pure-Keeps, done-injective,
  after_done,
}
use voyya_backend.Trips.Statements.{after_trigger, has_trip_id, close_set, grace_over}
use voyya_backend.Trips.Repository.{get_trip_request}
use voyya_backend.Trips.Soundness.Rowsteps.{close-GoodStep}
use voyya_backend.Trips.Soundness.{IsSound}
use voyya_backend.Trips.Single.{Holds, statement_applies, statement_misses, rewritten}
use voyya_backend.Assignment.Targets.{target_status, source_statuses_for}
use voyya_backend.Assignment.Statements.{
  update_assignments, update_drivers, close_assignments_for_trip, release_driver, clashes,
}
use voyya_backend.Assignment.Soundness.{PaysOnCompletion}
use voyya_backend.Assignment.TripClosing.{
  CloseTripInput, CloseTripOutcome, applied, idempotent, rejected, resolve_rejection,
  close_trip_request, resolution, settle_assignments, release_closed, after_resolution,
  close_trip_in_tx, CloseTripRejectionReason, TripStatus, not_arrived, grace_pending,
  no_show_remaining_seconds, invalid_status,
}

abbrev TripsAre : List TripRequest → Db → Type 0
TripsAre ts db = db.trips ≡ ts

module _ (ts : List TripRequest) where
  drivers-TripsAre :
      (p : Driver → Bool) (set : Driver → Driver) → Keeps (TripsAre ts) (update_drivers p set)
  unfolding update_drivers
  drivers-TripsAre p set db a db' s h = ap (λ (d : Db). d.trips) (sym (done-injective h)) ∙ s

  assignments-TripsAre :
      (p : Assignment → Bool) (set : Assignment → Assignment)
      → Keeps (TripsAre ts) (update_assignments p set)
  unfolding update_assignments
  assignments-TripsAre p set db a db' s h =
      let rows = update_where p set db.assignments in
      elim (Bool-cases
        (clashes AssignmentStatus.accepted rows || clashes AssignmentStatus.completed rows)) [
          | inl e ↦ cc (rw e at h)
          | inr e ↦ ap (λ (d : Db). d.trips) (sym (done-injective (rw e at h))) ∙ s
        ]

  settle-TripsAre :
      (now : ℕ) (company : Option ℕ) (input : CloseTripInput)
      → Keeps (TripsAre ts) (settle_assignments now company input)
  unfolding settle_assignments close_assignments_for_trip release_driver
  settle-TripsAre now none input = pure-Keeps (TripsAre ts) tt
  settle-TripsAre now (some company) input =
      >>=-Keeps (TripsAre ts) _ (release_closed company)
        (>>=-Keeps (TripsAre ts) _ _ (assignments-TripsAre _ _) (λ _. pure-Keeps (TripsAre ts) _))
        (elim [
          | none ↦ pure-Keeps (TripsAre ts) tt
          | some d ↦
              >>=-Keeps (TripsAre ts) _ _ (drivers-TripsAre _ _) (λ _. pure-Keeps (TripsAre ts) tt)
        ])

-- What is left of the WHERE condition beside the key.
abbrev pub may_close : ℕ → Option ℕ → CloseTripInput → TripRequest → Bool
may_close now company input r =
    let to = target_status input.to in
    includes (source_statuses_for to) r.status
    && (not (is_none company) || is_none r.company_id)
    && (not (same to no_show) || grace_over now input.no_show_grace_min r.arrived_at)

abbrev pub closed_row : String → ℕ → CloseTripInput → TripRequest → TripRequest
closed_row fresh now input =
    after_trigger fresh
      (close_set now (target_status input.to) input.cash_collected input.penalty_recorded)

Holds-trips :
    {k : ℕ} {t : TripRequest} {db db' : Db} → db'.trips ≡ db.trips → Holds k t db → Holds k t db'
Holds-trips e h = record { found = rw e h.found; unique = rw e h.unique; sound = rw e h.sound }

-- Settling the assignments of a closed trip leaves the trips, and the answer.
settled :
    (now : ℕ) (company : Option ℕ) (input : CloseTripInput) (o : CloseTripOutcome) (db db' : Db)
    (r : CloseTripOutcome)
    → ◌>>◌ (settle_assignments now company input) (pure o) db ≡ done r db'
    → (r ≡ o) × (db'.trips ≡ db.trips)
settled now company input o db db' r e =
    let (u, db1, e1, e2) =
      >>=-eq-done (settle_assignments now company input) (λ _. pure o) db r db' e in
    let q : done o db1 ≡ done r db' = e2 in
    (
      cc,
      ap (λ (d : Db). d.trips) (sym (done-injective q))
          ∙ settle-TripsAre db.trips now company input db u db1 refl e1,
    )

abbrev rest : ℕ → Option ℕ → CloseTripInput → Option TripRequest → Tx CloseTripOutcome
rest now company input row = ◌>>=◌ (resolution now input row) (after_resolution now company input)

module _ (fresh : String) (now k : ℕ) (company : Option ℕ) (input : CloseTripInput)
    (this_trip : input.trip_request_id ≡ k) (pays : PaysOnCompletion input) {t : TripRequest}
    {db : Db} (h : Holds k t db) where
  closing :
      (may_close now company input t ≡ true
        → (db1 : Db) × (close_trip_request fresh now company input db
            ≡ done (some (closed_row fresh now input t)) db1)
          × Holds k (closed_row fresh now input t) db1)
      × (may_close now company input t ≡ false
          → close_trip_request fresh now company input db ≡ done none db)
  unfolding close_trip_request
  closing =
      let to = target_status input.to in
      let set = close_set now to input.cash_collected input.penalty_recorded in
      let good =
        λ (r : TripRequest) (w : (has_trip_id k r && may_close now company input r) ≡ true)
            (s : IsSound r).
          close-GoodStep fresh now k r s input.to input.no_show_grace_min (is_none company)
            input.cash_collected input.penalty_recorded pays w in
      (
        λ e.
            let (q, h') =
              statement_applies h fresh (may_close now company input) set good (λ r. refl) e in
            rw this_trip
              (rewritten h fresh (may_close now company input) set good (λ r. refl), q, h'),
        λ e.
            rw this_trip
              (statement_misses h fresh (may_close now company input) set good (λ r. refl) e),
      )

  unresolved :
      rest now company input none db
      ≡ after_resolution now company input (resolve_rejection now input (some t)) db
  unfolding resolution get_trip_request
  unresolved =
      ap
        (λ (o : Option TripRequest).
          after_resolution now company input (resolve_rejection now input o) db)
        (rw this_trip h.found)

  closed_already :
      same t.status (target_status input.to) ≡ true
      → resolve_rejection now input (some t) ≡ idempotent t
  unfolding resolve_rejection
  closed_already e = rw e

  pub refused_with :
      same t.status (target_status input.to) ≡ false
      → (reason : CloseTripRejectionReason) × (status : TripStatus) × (resolve_rejection now input
            (some t)
          ≡ rejected reason status)
  unfolding resolve_rejection
  refused_with open' =
      let to = target_status input.to in
      elim (Bool-cases (same to no_show && includes (source_statuses_for to) t.status)) [
        | inl waits ↦ elim (Option-cases t.arrived_at) [
          | inl e ↦ (not_arrived, t.status, rw (open', waits, e))
          | inr (at, e) ↦ (
            grace_pending (no_show_remaining_seconds now input.no_show_grace_min at),
            t.status,
            rw (open', waits, e),
          )
        ]
        | inr other ↦ (invalid_status, t.status, rw (open', other))
      ]

  refused :
      same t.status (target_status input.to) ≡ false
      → (db' : Db) (r : CloseTripOutcome)
      → after_resolution now company input (resolve_rejection now input (some t)) db ≡ done r db'
      → (r ≡ resolve_rejection now input (some t)) × (db' ≡ db)
  refused open' db' r e =
      let (reason, status, q) = refused_with open' in
      let e' : done (rejected reason status) db ≡ done r db' =
        ap (λ o. after_resolution now company input o db) (sym q) ∙ e in
      (sym (q ∙ sym (let p : r ≡ rejected reason status = cc in p)), sym (done-injective e'))

  -- Where all trips are sound and one has the key, a closing of that trip that commits, which
  -- collects cash on completion only, ends in one of three ways: the trip met the conditions and
  -- has the closed row, which is answered; it did not, has the target's status already, and
  -- stays and is answered; or it did not and has another status, the answer is the rejection,
  -- and no table has changed.
  pub closing_cases :
      (db' : Db) (r : CloseTripOutcome)
      → close_trip_in_tx fresh now company input db ≡ done r db'
      → ((may_close now company input t ≡ true)
          × (r ≡ applied (closed_row fresh now input t))
          × Holds k (closed_row fresh now input t) db')
        ⊎ ((may_close now company input t ≡ false)
            × (t.status ≡ target_status input.to)
            × (r ≡ idempotent t)
            × Holds k t db')
        ⊎ ((may_close now company input t ≡ false)
            × (t.status ≢ target_status input.to)
            × (r ≡ resolve_rejection now input (some t))
            × (db' ≡ db))
  unfolding close_trip_in_tx
  closing_cases db' r e = elim (Bool-cases (may_close now company input t)) [
    | inl may ↦
        let (db1, q, h1) = closing.0 may in
        let e1 : rest now company input (some (closed_row fresh now input t)) db1 ≡ done r db' =
          sym (after_done (close_trip_request fresh now company input) (rest now company input) q)
          ∙ e in
        let (er, et) =
          settled now company input (applied (closed_row fresh now input t)) db1 db' r
            (unfold resolution in e1) in
        inl (may, er, Holds-trips et h1)
    | inr may_not ↦
        let e1 : rest now company input none db ≡ done r db' =
          sym (
            after_done (close_trip_request fresh now company input) (rest now company input)
              (closing.1 may_not))
          ∙ e in
        let e2 : after_resolution now company input (resolve_rejection now input (some t)) db
            ≡ done r db' =
          sym (unresolved) ∙ e1 in
        elim (Bool-cases (same t.status (target_status input.to))) [
          | inl already ↦
              let e3 : after_resolution now company input (idempotent t) db ≡ done r db' =
                ap (λ o. after_resolution now company input o db) (sym (closed_already already))
                ∙ e2 in
              let (er, et) = settled now company input (idempotent t) db db' r e3 in
              inr (inl (may_not, same→eq _ _ already, er, Holds-trips et h))
          | inr open' ↦
              let (er, edb) = refused open' db' r e2 in
              inr (
                inr (
                  may_not,
                  λ q. cc (
                      ap (λ s. same s (target_status input.to)) q
                      ∙ same_refl (target_status input.to)),
                  er,
                  edb,
                ))
        ]
  ]
