-- ===== src/Assignment/DispatchExamples.antt =====
-- The search of a driver on the sample tables: two free drivers, whose offers have run out.
use voyya_backend.Prelude.{ℕ, ◌≡◌, refl, ◌⊎◌, true, false, none, some, List, [], ◌∷◌, arith}
use voyya_backend.Samples.{sample_db}
use voyya_backend.Assignment.Statements.{create_offer_if_driver_free}
use voyya_backend.Db.Tx.{run_in_tenant}
use voyya_backend.Tenancy.DispatchCompanies.{resolve}
use voyya_backend.Assignment.Candidates.{find_candidates, pick_nearest, Geo}
use voyya_backend.Assignment.Dispatch.{
  OperationalParams, Round, ChainContext, companies_of, find_nearest_candidate, try_next,
}
use voyya_backend.Assignment.Dispatch.Nearest.{Nobody, NearestOf, find_nearest_candidate_lem}
use voyya_backend.Assignment.Dispatch.Rounds.{IsClosed}
use voyya_backend.Assignment.Dispatch.Searches.{Searches, try_next-Searches}
use voyya_backend.Assignment.Dispatch.Chains.{SearchKept, try_next_kept}
use voyya_backend.Assignment.Service.{
  handle_expiration, handle_reject, handle_accept, handle_cancel, on_trip_request_cancelled, start,
  assignment_created, AssignmentService, Surroundings,
}
use voyya_backend.Assignment.Service.Chains.{IsKept, IsCalm}
use voyya_backend.Assignment.Service.Run.{
  Arrives, Arrival, Call, trip_request_created, timer_fires, rejects, run, run-IsKept,
}

abbrev flat : Geo
flat = record { distance = λ p q. p.lat; within_km = λ p q r. true }

abbrev quiet : Round
quiet = record {
  clock = 40000;
  now = 40000;
  next_id = 14;
  choice = λ n. 0;
  resolving = λ db. db;
  searching = λ company db. db;
  offering = λ db. db;
}

abbrev params : OperationalParams
params = record {
  search_radius_km = 2;
  expansion_radius_km = 5;
  acceptance_timeout_sec = 20;
  max_auto_retries = 3;
  tiebreak_window_hours = 3;
  location_stale_min = 0;
}

abbrev chain : ChainContext
chain = record {
  trip_request_id = 1;
  municipality_id = 3;
  service_type = 1;
  requested_company_id = none;
  origin = record { lat = 0; lng = 0 };
  params = params;
  attempted = [];
  order = 0;
  expanded = false;
  current_offer = none;
}

find_nearest_candidate_lem_example :
    Nobody flat quiet chain sample_db
      (companies_of chain sample_db)
      (find_nearest_candidate flat quiet chain sample_db)
    ⊎ NearestOf flat quiet chain sample_db
        (companies_of chain sample_db)
        (find_nearest_candidate flat quiet chain sample_db)
find_nearest_candidate_lem_example =
    find_nearest_candidate_lem flat quiet chain sample_db (λ n h. h)

abbrev ids : List ℕ
ids = 5 ∷ 6 ∷ 9 ∷ []

ids-IsClosed : IsClosed ids (λ n. quiet)
ids-IsClosed = record {
  resolving = λ n db h. h;
  searching = λ n company db h. h;
  offering = λ n db h. h;
}

try_next-Searches_example :
    Searches flat (λ n. quiet) chain sample_db (try_next flat (λ n. quiet) 6 chain sample_db)
try_next-Searches_example =
    try_next-Searches flat (λ n. quiet) ids ids-IsClosed (λ n m h. h) 6 chain sample_db
      (refl, (refl, (refl, tt))) (omega arith)

try_next_kept_example :
    SearchKept flat (λ n. quiet) chain (try_next flat (λ n. quiet) 6 chain sample_db)
try_next_kept_example =
    try_next_kept flat (λ n. quiet) ids ids-IsClosed (λ n m h. h) 6 chain sample_db
      (refl, (refl, (refl, tt))) (omega arith)
      (record { within_retries = omega arith; asked = omega arith; once = tt })

abbrev around : Surroundings
around = record {
  geo = flat;
  rounds = λ n. quiet;
  fuel = 6;
  now = 40000;
  params_of = λ municipality service. params;
}

abbrev arrival : Call → Arrival
arrival call = record { call = call; clock = 40000; around = around; db = sample_db }

around-IsCalm : IsCalm ids around
around-IsCalm = record { closed = ids-IsClosed; in_range = λ n m h. h; enough = omega arith }

abbrev idle : AssignmentService
idle = record { chains = []; timers = []; events = [] }

idle-IsKept : IsKept idle
idle-IsKept = record { held = λ c m. absurd m; single = λ trip. omega arith }

abbrev day : List Arrival
day =
    arrival (trip_request_created 1 3 (record { lat = 0; lng = 0 }))
    ∷ arrival (timer_fires 14 1)
    ∷ arrival (rejects 11 5 7 none)
    ∷ []

arrival-Arrives : (call : Call) → Arrives ids (arrival call)
arrival-Arrives call = (around-IsCalm, (refl, (refl, (refl, tt))))

run-IsKept_example : IsKept (run idle day)
run-IsKept_example =
    run-IsKept ids day idle
      (
        arrival-Arrives (trip_request_created 1 3 (record { lat = 0; lng = 0 })),
        (arrival-Arrives (timer_fires 14 1), (arrival-Arrives (rejects 11 5 7 none), tt)),
      )
      idle-IsKept

-- The nearer driver is asked; an offer that nobody answers leaves the chain with one that waits.
asks_first :
    (run idle (arrival (trip_request_created 1 3 (record { lat = 0; lng = 0 })) ∷ [])).events
    ≡ assignment_created 14 1 5 7 1 (some 60000) ∷ []
unfolding run handle_expiration handle_reject handle_accept handle_cancel on_trip_request_cancelled
    start try_next run_in_tenant find_nearest_candidate find_candidates pick_nearest resolve
    create_offer_if_driver_free
asks_first = refl
