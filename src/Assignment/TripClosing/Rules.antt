-- ===== src/Assignment/TripClosing/Rules.antt =====
-- The rules that closeTripInTx of apps/api/src/modules/assignment/trip-closing.service.ts carries
-- out: the wait before a no-show, the pay of a completed trip, and closing again.
use voyya_backend.Prelude.{
  ℕ, false, if◌then◌else◌, ◌+◌, ◌*◌, ◌≤◌, String, ◌≡◌, ◌∙◌, inl, inr, true, Option, some, arith,
  Bool-cases, ap, sym,
}
use voyya_backend.Contracts.TripStatus.{TripStatus, in_progress, driver_en_route, same, same→eq}
use voyya_backend.Db.Rows.{TripRequest, Db}
use voyya_backend.Prelude.Int.{sub_ℕ}
use voyya_backend.Db.StartCodeTrigger.{trigger_row}
use voyya_backend.Db.Tx.{done}
use voyya_backend.Trips.Single.{Holds}
use voyya_backend.Assignment.Targets.{TripClosingTarget, target_status}
use voyya_backend.Assignment.Soundness.{PaysOnCompletion}
use voyya_backend.Assignment.TripClosing.{
  CloseTripInput, applied, rejected, close_trip_in_tx, CloseTripOutcome, idempotent,
}
use voyya_backend.Assignment.TripClosing.Laws.{may_close, closed_row, closing_cases, refused_with}

module _ (fresh : String) (now k : ℕ) (company : Option ℕ) (input : CloseTripInput)
    (this_trip : input.trip_request_id ≡ k) (pays : PaysOnCompletion input) {t : TripRequest}
    {db : Db} (h : Holds k t db) where
  -- What an applied closing rewrites the trip to.
  applied_row :
      (db' : Db) (row : TripRequest)
      → close_trip_in_tx fresh now company input db ≡ done (applied row) db'
      → (may_close now company input t ≡ true)
        × (row ≡ closed_row fresh now input t)
        × Holds k row db'
  applied_row db' row e =
      elim (closing_cases fresh now k company input this_trip pays h db' (applied row) e) [
        | inl (may, q, h') ↦ let p : row ≡ closed_row fresh now input t = cc in (may, p, rw p h')
        | inr (inl (no', already, q, h')) ↦ cc
        | inr (inr (no', open', q, h')) ↦
            let (reason, status, e') =
              refused_with fresh now k company input this_trip pays h
                (elim (Bool-cases (same t.status (target_status input.to))) [
                  | inl s ↦ absurd (open' (same→eq _ _ s))
                  | inr s ↦ s
                ]) in
            let p : applied row ≡ rejected reason status = q ∙ e' in cc
      ]

waits_out :
    (now : ℕ) (company : Option ℕ) (input : CloseTripInput) (t : TripRequest)
    → input.to ≡ TripClosingTarget.no_show
    → may_close now company input t ≡ true
    → (at : ℕ) × (t.arrived_at ≡ some at)
      × (t.status ≡ driver_en_route)
      × (at + input.no_show_grace_min * 60000 ≤ now)
waits_out now company input t to may = ground arith

pays_out :
    (fresh : String) (now : ℕ) (company : Option ℕ) (input : CloseTripInput) (t : TripRequest)
    → input.to ≡ TripClosingTarget.completed
    → may_close now company input t ≡ true
    → (t.status ≡ in_progress)
      × ((closed_row fresh now input t).status ≡ TripStatus.completed)
      × ((closed_row fresh now input t).net_earnings ≡ some (sub_ℕ t.fare t.commission))
      × ((closed_row fresh now input t).finished_at ≡ some now)
      × ((closed_row fresh now input t).cash_collected_at
          ≡ (if input.cash_collected then some now else t.cash_collected_at))
unfolding trigger_row
pays_out fresh now company input t to may = ground arith

closed_status :
    (fresh : String) (now : ℕ) (input : CloseTripInput) (t : TripRequest)
    → (closed_row fresh now input t).status ≡ target_status input.to
unfolding trigger_row
closed_status fresh now input t = ground arith

stays_closed :
    (now : ℕ) (company : Option ℕ) (input : CloseTripInput) (t : TripRequest)
    → t.status ≡ target_status input.to
    → may_close now company input t ≡ false
stays_closed now company input t e = ground arith

module _ (fresh : String) (now k : ℕ) (company : Option ℕ) (input : CloseTripInput)
    (this_trip : input.trip_request_id ≡ k) (pays : PaysOnCompletion input) {t : TripRequest}
    {db : Db} (h : Holds k t db) (db' : Db) (row : TripRequest)
    (closed : close_trip_in_tx fresh now company input db ≡ done (applied row) db') where
  -- If a closing as a no-show is applied to a trip, where all trips are sound and one has the
  -- key, the driver was on the way and had arrived, and the grace after the arrival is over.
  pub no_show_waits :
      input.to ≡ TripClosingTarget.no_show
      → (at : ℕ) × (t.arrived_at ≡ some at)
        × (t.status ≡ driver_en_route)
        × (at + input.no_show_grace_min * 60000 ≤ now)
  no_show_waits to =
      waits_out now company input t to
        (applied_row fresh now k company input this_trip pays h db' row closed).0

  -- If a closing as completed is applied to a trip, where all trips are sound and one has the
  -- key, the trip was in progress; the row that is answered is completed and finished now, with
  -- the fare less the commission as the driver's earnings, and with the payment's instant now
  -- exactly if the cash was collected with the closing, and as before otherwise.
  pub completion_pays :
      input.to ≡ TripClosingTarget.completed
      → (t.status ≡ in_progress)
        × (row.status ≡ TripStatus.completed)
        × (row.net_earnings ≡ some (sub_ℕ t.fare t.commission))
        × (row.finished_at ≡ some now)
        × (row.cash_collected_at ≡ (if input.cash_collected then some now else t.cash_collected_at))
  completion_pays to =
      let (may, e, h') = applied_row fresh now k company input this_trip pays h db' row closed in
      rw e (pays_out fresh now company input t to may)

  -- After an applied closing, where all trips are sound and one has the key, any closing of the
  -- same trip with the same target that commits, at any instant, for any company, answers that
  -- the trip is closed already, with the row of the first closing, and the trip keeps that row.
  pub closes_once :
      (fresh' : String) (now' : ℕ) (company' : Option ℕ) (again : CloseTripInput)
      → again.trip_request_id ≡ k
      → PaysOnCompletion again
      → again.to ≡ input.to
      → (r : CloseTripOutcome) (db'' : Db)
      → close_trip_in_tx fresh' now' company' again db' ≡ done r db''
      → (r ≡ idempotent row) × Holds k row db''
  closes_once fresh' now' company' again this pays' same_target r db'' e =
      let (may, q, h') = applied_row fresh now k company input this_trip pays h db' row closed in
      let there : row.status ≡ target_status again.to =
        ap (λ (x : TripRequest). x.status) q
        ∙ closed_status fresh now input t
        ∙ sym (ap target_status same_target) in
      elim (closing_cases fresh' now' k company' again this pays' h' db'' r e) [
        | inl (may', q', h'') ↦
            let shut : may_close now' company' again row ≡ false =
              stays_closed now' company' again row there in
            cc
        | inr (inl (may', s, q', h'')) ↦ (q', h'')
        | inr (inr (may', open', q', h'')) ↦ absurd (open' there)
      ]
