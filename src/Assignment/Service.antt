-- ===== src/Assignment/Service.antt =====
-- apps/api/src/modules/assignment/assignment.service.ts: the chains that the service keeps, its
-- timers and its events, and what each request and each event does to them. A request runs to its
-- end before the next touches a chain; what others do to the tables meanwhile is in the rounds.
pub mod Kept
pub mod Chains
pub mod Run
use voyya_backend.Prelude.{
  In, All-In, All-of, All-map, All-filter, All-++, In-filter, filter-In, In-length, any-In, In-map,
  map-In, Result, ok, err, ℕ, zero, suc, ◌+◌, ◌-◌, ◌*◌, ◌/◌, ◌%◌, ◌≤◌, ◌<◌, compare, Ordering, min,
  max, String, str_eq, eq_iff, ◌≡◌, refl, sym, ap, ap₂, ◌∙◌, subst, ◌≢◌, ◌↔◌, ◌⊎◌, inl, inr, Bool,
  true, false, not, ◌&&◌, ◌||◌, Option, none, some, List, [], ◌∷◌, ◌++◌, map, arith, ltb, leb, ◌==◌,
  if◌then◌else◌, is_none, is_some, or_else, Bool-cases, Option-cases, ltb→lt, lt→ltb, leb→le,
  le→leb, ==→eq, ==_refl, length, length-append, find, filter, update_where, any, count, All,
  Rowwise, All-update_where, Rowwise-update_where, any-eq_false, All-find, Rowwise-refl,
  Rowwise-trans, find-update_where, keep, find-and, count-update_where, update_where-none, any-find,
  not→false, &&→right, find-In,
}
use voyya_backend.Contracts.TripStatus.{TripStatus, pending_assignment, same}
use voyya_backend.Db.Rows.{TripRequest, Assignment, Coordinate, Db}
use voyya_backend.Db.Tx.{DbError, run_in_tenant}
use voyya_backend.Assignment.Statements.{mark_timeout, cancel_offer}
use voyya_backend.Assignment.Candidates.{Geo}
use voyya_backend.Assignment.Take.{AcceptResult, accept}
use voyya_backend.Assignment.Take
use voyya_backend.Assignment.Cancel.{RejectOutcome, CancelOutcome, reject, cancel_by_driver}
use voyya_backend.Assignment.Cancel
use voyya_backend.Assignment.Dispatch.{
  Round, ChainContext, CurrentOffer, OperationalParams, SearchEnd, Searched, offered, exhausted,
  failed, out_of_fuel, try_next,
}

pub data AssignmentEvent : Type 0 where
  -- the assignment, the trip, the driver, the company, the order and the end of the offer
  assignment_created : ℕ → ℕ → ℕ → ℕ → ℕ → Option ℕ → AssignmentEvent
  -- the assignment, the trip, the driver and the order
  assignment_expired : ℕ → ℕ → ℕ → ℕ → AssignmentEvent
  -- the assignment, the trip and the driver
  assignment_rejected : ℕ → ℕ → ℕ → AssignmentEvent
  -- the trip, the passenger, the assignment, the driver, the vehicle and the company
  driver_assigned : ℕ → ℕ → ℕ → ℕ → ℕ → ℕ → AssignmentEvent
  -- the assignment, the trip, the passenger, the driver and the trip's status
  assignment_cancelled_by_driver : ℕ → ℕ → ℕ → ℕ → TripStatus → AssignmentEvent
  -- the trip, the attempts and the final radius
  search_exhausted : ℕ → ℕ → ℕ → AssignmentEvent

pub record AssignmentService : Type 0 where
  pub chains : List ChainContext
  pub timers : List ℕ
  pub events : List AssignmentEvent

-- The map `chains` is keyed by the trip.
abbrev pub of_trip : ℕ → ChainContext → Bool
of_trip trip ctx = ctx.trip_request_id == trip

abbrev pub delete_chain : ℕ → AssignmentService → AssignmentService
delete_chain trip s = record s { chains = filter (λ c. not (of_trip trip c)) s.chains }

abbrev pub set_chain : ChainContext → AssignmentService → AssignmentService
set_chain ctx s = record s {
  chains = ctx ∷ filter (λ c. not (of_trip ctx.trip_request_id c)) s.chains;
}

abbrev pub emit : AssignmentEvent → AssignmentService → AssignmentService
emit e s = record s { events = s.events ++ e ∷ [] }

-- armTimeout, clearTimer
abbrev pub arm_timeout : ℕ → AssignmentService → AssignmentService
arm_timeout k s = record s { timers = k ∷ filter (λ t. not (t == k)) s.timers }

abbrev pub clear_timer : ℕ → AssignmentService → AssignmentService
clear_timer k s = record s { timers = filter (λ t. not (t == k)) s.timers }

abbrev pub created_event : Assignment → AssignmentEvent
created_event a =
    assignment_created a.assignment_id a.trip_request_id a.driver_id a.company_id a.attempt_order
      a.expires_at

-- What tryNext does to the service as it ends: a new offer is announced and its timer armed, and a
-- search that is given up is deleted and announced (finishNoDriver, emitNoDriver).
abbrev pub settle : Searched → SearchEnd → AssignmentService → AssignmentService
settle r (offered row) s =
    arm_timeout row.assignment_id (emit (created_event row) (set_chain r.ctx s))
settle r (exhausted attempts radius) s =
    emit (search_exhausted r.ctx.trip_request_id attempts radius)
      (delete_chain r.ctx.trip_request_id s)
settle r (failed e) s = set_chain r.ctx s
settle r out_of_fuel s = set_chain r.ctx s

-- What surrounds the calls of one request.
pub record Surroundings : Type 0 where
  pub geo : Geo
  pub rounds : ℕ → Round
  pub fuel : ℕ
  pub now : ℕ
  pub params_of : ℕ → ℕ → OperationalParams

abbrev pub go_on : Surroundings → ChainContext → AssignmentService → Db → AssignmentService × Db
go_on e ctx s db = let r = try_next e.geo e.rounds e.fuel ctx db in (settle r r.end s, r.db)

abbrev pub new_chain : Surroundings → ℕ → ℕ → Coordinate → TripRequest → ChainContext
new_chain e trip municipality origin t = record {
  trip_request_id = trip;
  municipality_id = municipality;
  service_type = t.service_type;
  requested_company_id = t.requested_company_id;
  origin = origin;
  params = e.params_of municipality t.service_type;
  attempted = [];
  order = 0;
  expanded = false;
  current_offer = none;
}

abbrev pub start_with :
    Surroundings
    → ℕ
    → ℕ
    → Coordinate
    → Option TripRequest
    → AssignmentService
    → Db
    → AssignmentService × Db
start_with e trip municipality origin none s db = (s, db)
start_with e trip municipality origin (some t) s db =
    let ctx = new_chain e trip municipality origin t in
    if not (same t.status pending_assignment) then (s, db) else go_on e ctx (set_chain ctx s) db

-- start, on TRIP_REQUEST_CREATED
unfoldable pub start :
    Surroundings → ℕ → ℕ → Coordinate → AssignmentService → Db → AssignmentService × Db
start e trip municipality origin s db =
    start_with e trip municipality origin
      (find (λ (t : TripRequest). t.trip_request_id == trip) db.trips) s db

-- handleExpiration, when the timer of the offer `k` fires
abbrev pub expired_with :
    Surroundings
    → ℕ
    → ChainContext
    → AssignmentService
    → Result DbError (Option ℕ) × Db
    → AssignmentService × Db
expired_with e k ctx s (err x, db) = (s, db)
expired_with e k ctx s (ok none, db) = (s, db)
expired_with e k ctx s (ok (some driver), db) =
    let ctx' = record ctx { current_offer = none } in
    go_on e ctx'
      (emit (assignment_expired k ctx.trip_request_id driver ctx.order) (set_chain ctx' s)) db

abbrev pub expire_offer :
    Surroundings
    → ℕ
    → ChainContext
    → Option CurrentOffer
    → AssignmentService
    → Db
    → AssignmentService × Db
expire_offer e k ctx none s db = (s, db)
expire_offer e k ctx (some offer) s db =
    if not (offer.assignment_id == k)
    then (s, db)
    else expired_with e k ctx s (run_in_tenant (mark_timeout e.now k offer.company_id) db)

abbrev pub expire_in :
    Surroundings → ℕ → Option ChainContext → AssignmentService → Db → AssignmentService × Db
expire_in e k none s db = (s, db)
expire_in e k (some ctx) s db = expire_offer e k ctx ctx.current_offer s db

unfoldable pub handle_expiration :
    Surroundings → ℕ → ℕ → AssignmentService → Db → AssignmentService × Db
handle_expiration e k trip s db = expire_in e k (find (of_trip trip) s.chains) (clear_timer k s) db

-- reject
abbrev pub resume :
    Surroundings → Option ChainContext → AssignmentService → Db → AssignmentService × Db
resume e none s db = (s, db)
resume e (some ctx) s db =
    let ctx' = record ctx { current_offer = none } in go_on e ctx' (set_chain ctx' s) db

abbrev pub rejected_with :
    Surroundings
    → ℕ
    → ℕ
    → AssignmentService
    → Result DbError RejectOutcome × Db
    → AssignmentService × Db
rejected_with e k driver s (ok (RejectOutcome.done_with trip), db) =
    resume e (find (of_trip trip) s.chains)
      (emit (assignment_rejected k trip driver) (clear_timer k s)) db
rejected_with e k driver s (r, db) = (s, db)

unfoldable pub handle_reject :
    Surroundings → ℕ → ℕ → ℕ → Option String → AssignmentService → Db → AssignmentService × Db
handle_reject e k driver company reason s db =
    rejected_with e k driver s (run_in_tenant (reject e.now k driver company reason) db)

-- accept, with finishAcceptance
abbrev pub finish_acceptance : ℕ → ℕ → ℕ → AcceptResult → AssignmentService → AssignmentService
finish_acceptance k driver company (AcceptResult.accepted trip vehicle passenger) s =
    emit (driver_assigned trip passenger k driver vehicle company)
      (delete_chain trip (clear_timer k s))
finish_acceptance k driver company _ s = s

unfoldable pub handle_accept :
    (ℕ → Bool) → String → ℕ → ℕ → ℕ → ℕ → ℕ → AssignmentService → Db → AssignmentService × Db
handle_accept locked fresh clock now k driver company s db =
    let (r, db') = accept locked fresh clock now k driver company db in
    (finish_acceptance k driver company r s, db')

-- cancelByDriver
abbrev pub announce_cancel :
    ℕ → ℕ → ℕ → ℕ → TripStatus → Bool → AssignmentService → AssignmentService
announce_cancel k driver trip passenger status true s =
    emit (assignment_cancelled_by_driver k trip passenger driver status) s
announce_cancel k driver trip passenger status false s = s

abbrev pub cancelled_with :
    ℕ → ℕ → Result DbError CancelOutcome × Db → AssignmentService → AssignmentService × Db
cancelled_with k driver (ok (CancelOutcome.cancelled trip passenger status applied), db) s = (
  announce_cancel k driver trip passenger status applied (delete_chain trip (clear_timer k s)),
  db,
)
cancelled_with k driver (r, db) s = (s, db)

unfoldable pub handle_cancel :
    String → ℕ → ℕ → ℕ → ℕ → String → AssignmentService → Db → AssignmentService × Db
handle_cancel fresh now k driver company reason s db =
    cancelled_with k driver (run_in_tenant (cancel_by_driver fresh now k driver company reason) db)
      s

-- onTripRequestCancelled
abbrev pub offer_of : Option ChainContext → Option CurrentOffer
offer_of none = none
offer_of (some ctx) = ctx.current_offer

abbrev pub cancel_current :
    ℕ → Option CurrentOffer → AssignmentService → Db → AssignmentService × Db
cancel_current now none s db = (s, db)
cancel_current now (some offer) s db = (
  clear_timer offer.assignment_id s,
  (run_in_tenant (cancel_offer now offer.assignment_id offer.company_id) db).1,
)

unfoldable pub on_trip_request_cancelled : ℕ → ℕ → AssignmentService → Db → AssignmentService × Db
on_trip_request_cancelled now trip s db =
    cancel_current now (offer_of (find (of_trip trip) s.chains)) (delete_chain trip s) db
