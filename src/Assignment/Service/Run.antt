-- ===== src/Assignment/Service/Run.antt =====
-- The service of apps/api/src/modules/assignment/assignment.service.ts through any requests, timers
-- and events, each with the tables that it meets.
use voyya_backend.Assignment.Service.Kept.{
  cancel_current-IsKept, cancelled_with-IsKept, deleted, finish_acceptance-IsKept,
  mark_timeout-DriversIn, reject-DriversIn, same_chains, same_chains_but, without_offer,
}
use voyya_backend.Prelude.{
  find-In, Result, ok, err, ℕ, String, ◌≡◌, refl, inl, inr, Bool, not, Option, none, some, List, [],
  ◌∷◌, arith, ◌==◌, Bool-cases, find, All,
}
use voyya_backend.Db.Rows.{TripRequest, Coordinate, Db}
use voyya_backend.Db.Tx.{DbError, run_in_tenant-keeps}
use voyya_backend.Contracts.TripStatus.{pending_assignment, same}
use voyya_backend.Assignment.Cancel.{RejectOutcome}
use voyya_backend.Assignment.Dispatch.{ChainContext, CurrentOffer}
use voyya_backend.Assignment.Dispatch.Rounds.{DriversIn}
use voyya_backend.Assignment.Dispatch.Chains.{IsChain}
use voyya_backend.Assignment.Service.{
  AssignmentService, Surroundings, of_trip, delete_chain, set_chain, clear_timer, start, start_with,
  new_chain, handle_expiration, expire_in, expire_offer, expired_with, handle_reject, rejected_with,
  resume, handle_accept, handle_cancel, on_trip_request_cancelled,
}
use voyya_backend.Assignment.Service.Chains.{IsKept, IsCalm, set_chain-IsKeptBut, go_on-IsKept}

pub data Call : Type 0 where
  -- the trip, its municipality and its origin
  trip_request_created : ℕ → ℕ → Coordinate → Call
  -- the offer and its trip
  timer_fires : ℕ → ℕ → Call
  -- the offer, the driver, the company and the reason
  rejects : ℕ → ℕ → ℕ → Option String → Call
  -- the deadlocks, the start code, the offer, the driver and the company
  accepts : (ℕ → Bool) → String → ℕ → ℕ → ℕ → Call
  -- the start code, the offer, the driver, the company and the reason
  cancels : String → ℕ → ℕ → ℕ → String → Call
  trip_request_cancelled : ℕ → Call

-- A call, with what surrounds it and the tables that it meets.
pub record Arrival : Type 0 where
  pub call : Call
  pub clock : ℕ
  pub around : Surroundings
  pub db : Db

abbrev pub handle : Call → Arrival → AssignmentService → AssignmentService × Db
unfolding start handle_expiration handle_reject handle_accept handle_cancel
    on_trip_request_cancelled
handle (trip_request_created trip municipality origin) a s =
    start a.around trip municipality origin s a.db
handle (timer_fires k trip) a s = handle_expiration a.around k trip s a.db
handle (rejects k driver company reason) a s = handle_reject a.around k driver company reason s a.db
handle (accepts locked fresh k driver company) a s =
    handle_accept locked fresh a.clock a.around.now k driver company s a.db
handle (cancels fresh k driver company reason) a s =
    handle_cancel fresh a.around.now k driver company reason s a.db
handle (trip_request_cancelled trip) a s = on_trip_request_cancelled a.around.now trip s a.db

unfoldable pub run : AssignmentService → List Arrival → AssignmentService
run s [] = s
run s (a ∷ rest) = run (handle a.call a s).0 rest

module _ (ids : List ℕ) (e : Surroundings) (calm : IsCalm ids e) where
  start_with-IsKept :
      (trip municipality : ℕ) (origin : Coordinate) (t : Option TripRequest) (s : AssignmentService)
      (db : Db)
      → DriversIn ids db
      → IsKept s
      → IsKept (start_with e trip municipality origin t s db).0
  start_with-IsKept trip municipality origin none s db d h = h
  start_with-IsKept trip municipality origin (some t) s db d h =
      elim (Bool-cases (not (same t.status pending_assignment))) [
        | inl stays ↦ rw stays h
        | inr goes ↦
            let ctx = new_chain e trip municipality origin t in
            rw goes (
              go_on-IsKept ids e calm ctx (set_chain ctx s) db d
                (record { within_retries = omega arith; asked = omega arith; once = tt })
                (set_chain-IsKeptBut ctx s h))
      ]

  expired_with-IsKept :
      (k : ℕ) (ctx : ChainContext) (s : AssignmentService) (r : Result DbError (Option ℕ) × Db)
      → DriversIn ids r.1
      → IsChain ctx
      → IsKept s
      → IsKept (expired_with e k ctx s r).0
  expired_with-IsKept k ctx s (err x, db) d c h = h
  expired_with-IsKept k ctx s (ok none, db) d c h = h
  expired_with-IsKept k ctx s (ok (some driver), db) d c h =
      let ctx' = record ctx { current_offer = none } in
      go_on-IsKept ids e calm ctx' _ db d (without_offer ctx c)
        (same_chains_but refl (set_chain-IsKeptBut ctx' s h))

  expire_offer-IsKept :
      (k : ℕ) (ctx : ChainContext) (offer : Option CurrentOffer) (s : AssignmentService) (db : Db)
      → DriversIn ids db
      → IsChain ctx
      → IsKept s
      → IsKept (expire_offer e k ctx offer s db).0
  expire_offer-IsKept k ctx none s db d c h = h
  expire_offer-IsKept k ctx (some offer) s db d c h =
      elim (Bool-cases (not (offer.assignment_id == k))) [
        | inl other ↦ rw other h
        | inr own ↦ rw own (
            expired_with-IsKept k ctx s _
              (run_in_tenant-keeps (DriversIn ids) _
                (mark_timeout-DriversIn ids e.now k offer.company_id) db d)
              c h)
      ]

  expire_in-IsKept :
      (k : ℕ) (found : Option ChainContext) (s : AssignmentService) (db : Db)
      → DriversIn ids db
      → ((c : ChainContext) → found ≡ some c → IsChain c)
      → IsKept s
      → IsKept (expire_in e k found s db).0
  expire_in-IsKept k none s db d c h = h
  expire_in-IsKept k (some ctx) s db d c h =
      expire_offer-IsKept k ctx ctx.current_offer s db d (c ctx refl) h

  resume-IsKept :
      (found : Option ChainContext) (s : AssignmentService) (db : Db)
      → DriversIn ids db
      → ((c : ChainContext) → found ≡ some c → IsChain c)
      → IsKept s
      → IsKept (resume e found s db).0
  resume-IsKept none s db d c h = h
  resume-IsKept (some ctx) s db d c h =
      let ctx' = record ctx { current_offer = none } in
      go_on-IsKept ids e calm ctx' _ db d (without_offer ctx (c ctx refl))
        (set_chain-IsKeptBut ctx' s h)

  found-IsChain :
      (trip : ℕ) (s : AssignmentService)
      → IsKept s
      → (c : ChainContext) → find (of_trip trip) s.chains ≡ some c
      → IsChain c
  found-IsChain trip s h c q = (h.held c (find-In (of_trip trip) s.chains c q).0).0

  rejected_with-IsKept :
      (k driver : ℕ) (s : AssignmentService) (r : Result DbError RejectOutcome × Db)
      → DriversIn ids r.1
      → IsKept s
      → IsKept (rejected_with e k driver s r).0
  rejected_with-IsKept k driver s (ok (RejectOutcome.done_with trip), db) d h =
      resume-IsKept (find (of_trip trip) s.chains) _ db d (found-IsChain trip s h)
        (same_chains refl h)
  rejected_with-IsKept k driver s (ok RejectOutcome.not_found, db) d h = h
  rejected_with-IsKept k driver s (ok RejectOutcome.not_driver, db) d h = h
  rejected_with-IsKept k driver s (ok RejectOutcome.invalid_status, db) d h = h
  rejected_with-IsKept k driver s (err x, db) d h = h

handle-IsKept :
    (ids : List ℕ) (a : Arrival) (call : Call) (s : AssignmentService)
    → IsCalm ids a.around
    → DriversIn ids a.db
    → IsKept s
    → IsKept (handle call a s).0
unfolding start handle_expiration handle_reject handle_accept handle_cancel
    on_trip_request_cancelled
handle-IsKept ids a (trip_request_created trip municipality origin) s calm d h =
    start_with-IsKept ids a.around calm trip municipality origin _ s a.db d h
handle-IsKept ids a (timer_fires k trip) s calm d h =
    expire_in-IsKept ids a.around calm k (find (of_trip trip) s.chains) (clear_timer k s) a.db d
      (found-IsChain ids a.around calm trip s h) (same_chains refl h)
handle-IsKept ids a (rejects k driver company reason) s calm d h =
    rejected_with-IsKept ids a.around calm k driver s _
      (run_in_tenant-keeps (DriversIn ids) _
        (reject-DriversIn ids a.around.now k driver company reason) a.db d)
      h
handle-IsKept ids a (accepts locked fresh k driver company) s calm d h =
    finish_acceptance-IsKept k driver company _ s h
handle-IsKept ids a (cancels fresh k driver company reason) s calm d h =
    cancelled_with-IsKept k driver _ s h
handle-IsKept ids a (trip_request_cancelled trip) s calm d h =
    cancel_current-IsKept a.around.now _ (delete_chain trip s) a.db (deleted trip s h)

-- What an arrival may be: its surroundings are calm, and its tables have drivers among `ids` only.
abbrev pub Arrives : List ℕ → Arrival → Type 0
Arrives ids a = IsCalm ids a.around × DriversIn ids a.db

-- Where the drivers of all tables are among finitely many, and each search has fuel for them all:
-- through any requests, timers and events, each with any such tables, every chain that the service
-- keeps waits for the answer to an offer, has made offers within its retries and has asked no driver
-- twice, and a trip has one chain at most.
pub run-IsKept :
    (ids : List ℕ) (arrivals : List Arrival) (s : AssignmentService)
    → All (Arrives ids) arrivals
    → IsKept s
    → IsKept (run s arrivals)
unfolding run
run-IsKept ids [] s calm h = h
run-IsKept ids (a ∷ rest) s calm h =
    run-IsKept ids rest (handle a.call a s).0 calm.1
      (handle-IsKept ids a a.call s calm.0.0 calm.0.1 h)
