-- ===== src/Assignment/Dispatch.antt =====
-- apps/api/src/modules/assignment/assignment.service.ts: the search of a driver for a trip, offer by
-- offer (start, tryNext, findNearestCandidate, finishNoDriver). What the other requests, the clocks
-- and the keys are at each round of a search is a function of the round; a search runs on fuel.
pub mod Rounds
pub mod Nearest
pub mod Searches
pub mod Chains
use voyya_backend.Prelude.{
  true, false, Result, ok, err, ℕ, zero, suc, ◌+◌, ◌*◌, Bool, not, Option, none, some, List, [],
  ◌∷◌, ltb, leb, if◌then◌else◌, not→false, &&→right, find-In, In, All-In, All-of, All-map,
  All-filter, All-++, In-filter, filter-In, In-length, any-In, In-map, map-In, ◌-◌, ◌/◌, ◌%◌, ◌≤◌,
  ◌<◌, compare, Ordering, min, max, String, str_eq, eq_iff, ◌≡◌, refl, sym, ap, ap₂, ◌∙◌, subst,
  ◌≢◌, ◌↔◌, ◌⊎◌, inl, inr, ◌&&◌, ◌||◌, ◌++◌, map, arith, ◌==◌, is_none, is_some, or_else,
  Bool-cases, Option-cases, ltb→lt, lt→ltb, leb→le, le→leb, ==→eq, ==_refl, length, length-append,
  find, filter, update_where, any, count, All, Rowwise, All-update_where, Rowwise-update_where,
  any-eq_false, All-find, Rowwise-refl, Rowwise-trans, find-update_where, keep, find-and,
  count-update_where, update_where-none, any-find,
}
use voyya_backend.Contracts.AssignmentStatus.{notified}
use voyya_backend.Db.Rows.{Assignment, Coordinate, Db}
use voyya_backend.Db.Tx.{DbError, run_in_tenant}
use voyya_backend.Assignment.Statements.{create_offer_if_driver_free}
use voyya_backend.Assignment.Candidates.{
  Geo, DbCandidate, CandidateSearch, CompanyCandidate, find_candidates, pick_nearest,
}
use voyya_backend.Tenancy.DispatchCompanies.{resolve}

pub record OperationalParams : Type 0 where
  pub search_radius_km : ℕ
  pub expansion_radius_km : ℕ
  pub acceptance_timeout_sec : ℕ
  pub max_auto_retries : ℕ
  pub tiebreak_window_hours : ℕ
  pub location_stale_min : ℕ

pub record CurrentOffer : Type 0 where
  pub assignment_id : ℕ
  pub company_id : ℕ

pub record ChainContext : Type 0 where
  pub trip_request_id : ℕ
  pub municipality_id : ℕ
  pub service_type : ℕ
  pub requested_company_id : Option ℕ
  pub origin : Coordinate
  pub params : OperationalParams
  pub attempted : List ℕ
  pub order : ℕ
  pub expanded : Bool
  pub current_offer : Option CurrentOffer

-- What a round finds: `resolving` is what other requests do before the companies are read,
-- `searching` what they have done when a company is searched, `offering` before the offer is made.
pub record Round : Type 0 where
  pub clock : ℕ
  pub now : ℕ
  pub next_id : ℕ
  pub choice : ℕ → ℕ
  pub resolving : Db → Db
  pub searching : ℕ → Db → Db
  pub offering : Db → Db

abbrev pub radius_of : ChainContext → ℕ
radius_of ctx = if ctx.expanded then ctx.params.expansion_radius_km else ctx.params.search_radius_km

abbrev pub search_of : ChainContext → ℕ → CandidateSearch
search_of ctx company = record {
  company_id = company;
  trip_request_id = ctx.trip_request_id;
  origin = ctx.origin;
  radius_km = radius_of ctx;
  tiebreak_window_hours = ctx.params.tiebreak_window_hours;
  location_stale_min = ctx.params.location_stale_min;
  limit = 1;
  exclude = ctx.attempted;
}

abbrev pub with_company : ℕ → List DbCandidate → List CompanyCandidate → List CompanyCandidate
with_company company [] rest = rest
with_company company (c ∷ cs) rest = record { candidate = c; company_id = company } ∷ rest

-- The loop over the companies: the nearest of each.
abbrev pub nearest_per_company : Geo → Round → ChainContext → Db → List ℕ → List CompanyCandidate
nearest_per_company geo round ctx db [] = []
nearest_per_company geo round ctx db (company ∷ rest) =
    with_company company
      (find_candidates geo round.now (search_of ctx company) (round.searching company db))
      (nearest_per_company geo round ctx db rest)

abbrev pub companies_of : ChainContext → Db → List ℕ
companies_of ctx db =
    resolve ctx.municipality_id
      (record {
        service_type = some ctx.service_type;
        requested_company_id = ctx.requested_company_id;
        exclude_company_id = none;
      })
      db

-- findNearestCandidate
unfoldable pub find_nearest_candidate : Geo → Round → ChainContext → Db → Option CompanyCandidate
find_nearest_candidate geo round ctx db =
    pick_nearest round.choice (
      nearest_per_company geo round ctx (round.resolving db)
        (companies_of ctx (round.resolving db)))

abbrev pub offer_for : Round → ChainContext → CompanyCandidate → Assignment
offer_for round ctx cand = record {
  assignment_id = round.next_id;
  trip_request_id = ctx.trip_request_id;
  driver_id = cand.driver_id;
  vehicle_id = cand.vehicle_id;
  company_id = cand.company_id;
  status = notified;
  attempt_order = ctx.order + 1;
  assigned_at = round.now;
  expires_at = some (round.clock + ctx.params.acceptance_timeout_sec * 1000);
  responded_at = none;
  cancellation_reason = none;
}

-- How a call of tryNext ends. An offer is the row that was created.
pub data SearchEnd : Type 0 where
  offered : Assignment → SearchEnd
  -- with the attempts and the final radius
  exhausted : ℕ → ℕ → SearchEnd
  failed : DbError → SearchEnd
  out_of_fuel : SearchEnd

pub record Searched : Type 0 where
  pub end : SearchEnd
  pub ctx : ChainContext
  pub db : Db

abbrev pub final_radius : ChainContext → ℕ
final_radius ctx = if ltb 0 (radius_of ctx) then radius_of ctx else 1

abbrev pub no_driver : ChainContext → Db → Searched
no_driver ctx db = record { end = exhausted ctx.order (final_radius ctx); ctx = ctx; db = db }

abbrev pub attempt : CompanyCandidate → ChainContext → ChainContext
attempt cand ctx = record ctx { attempted = cand.driver_id ∷ ctx.attempted }

abbrev pub hold_offer : Assignment → ChainContext → ChainContext
hold_offer row ctx = record ctx {
  order = ctx.order + 1;
  current_offer = some (record { assignment_id = row.assignment_id; company_id = row.company_id });
}

-- A driver counts as attempted once the transaction has ended, with an offer or without.
abbrev pub after_offer :
    (ChainContext → Db → Searched)
    → CompanyCandidate
    → ChainContext
    → Result DbError (Option Assignment) × Db
    → Searched
after_offer again cand ctx (err e, db) = record { end = failed e; ctx = ctx; db = db }
after_offer again cand ctx (ok none, db) = again (attempt cand ctx) db
after_offer again cand ctx (ok (some row), db) = record {
  end = offered row;
  ctx = hold_offer row (attempt cand ctx);
  db = db;
}

abbrev pub make_offer :
    (ChainContext → Db → Searched) → Round → ChainContext → Db → CompanyCandidate → Searched
make_offer again round ctx db cand = after_offer again cand ctx (
    run_in_tenant (create_offer_if_driver_free round.now (offer_for round ctx cand))
      (round.offering db))

abbrev pub widen_or_stop : (ChainContext → Db → Searched) → ChainContext → Db → Bool → Searched
widen_or_stop again ctx db false = again (record ctx { expanded = true }) db
widen_or_stop again ctx db true = no_driver ctx db

abbrev pub with_candidate :
    (ChainContext → Db → Searched) → Round → ChainContext → Db → Option CompanyCandidate → Searched
with_candidate again round ctx db none = widen_or_stop again ctx db ctx.expanded
with_candidate again round ctx db (some cand) = make_offer again round ctx db cand

abbrev pub search_round :
    Geo → (ChainContext → Db → Searched) → Round → ChainContext → Db → Searched
search_round geo again round ctx db =
    if leb ctx.params.max_auto_retries ctx.order
    then no_driver ctx db
    else with_candidate again round ctx (round.resolving db)
        (find_nearest_candidate geo round ctx db)

-- tryNext
unfoldable pub try_next : Geo → (ℕ → Round) → ℕ → ChainContext → Db → Searched
try_next geo rounds zero ctx db = record { end = out_of_fuel; ctx = ctx; db = db }
try_next geo rounds (suc fuel) ctx db =
    search_round geo (λ ctx' db'. try_next geo rounds fuel ctx' db') (rounds fuel) ctx db
