-- ===== src/Assignment/Candidates.antt =====
-- apps/api/src/modules/assignment/candidate.repository.ts and nearest-candidate.ts: the drivers that
-- an offer may go to, and the nearest of them. Distances come from PostGIS, a parameter: a distance
-- is a double that is not negative, and its 64 bits order it as a number. Radii are kilometres.
pub mod Nearest
use voyya_backend.Prelude.{
  Result, ok, err, ℕ, zero, suc, ◌+◌, ◌-◌, ◌*◌, ◌/◌, ◌%◌, ◌≤◌, ◌<◌, compare, Ordering, min, max,
  String, str_eq, eq_iff, ◌≡◌, refl, sym, ap, ap₂, ◌∙◌, subst, ◌≢◌, ◌↔◌, ◌⊎◌, inl, inr, Bool, true,
  false, not, ◌&&◌, ◌||◌, Option, none, some, List, [], ◌∷◌, ◌++◌, map, arith, ltb, leb, ◌==◌,
  if◌then◌else◌, is_none, is_some, or_else, Bool-cases, Option-cases, ltb→lt, lt→ltb, leb→le,
  le→leb, ==→eq, ==_refl, length, length-append, find, filter, update_where, any, count, All,
  Rowwise, All-update_where, Rowwise-update_where, any-eq_false, All-find, Rowwise-refl,
  Rowwise-trans, find-update_where, keep, find-and, count-update_where, update_where-none, any-find,
}
use voyya_backend.Contracts.AssignmentStatus.{
  accepted, rejected, timeout, cancelled, same, includes,
}
use voyya_backend.Db.Rows.{Assignment, Driver, Coordinate, Db, available, same_driver_status}
use voyya_backend.Assignment.Statements.{is_live_offer}
use voyya_backend.Tenancy.DispatchCompanies.{has_id}

-- ST_Distance and ST_DWithin on geography.
pub record Geo : Type 0 where
  pub distance : Coordinate → Coordinate → ℕ
  pub within_km : Coordinate → Coordinate → ℕ → Bool

pub record DbCandidate : Type 0 where
  pub driver_id : ℕ
  pub vehicle_id : ℕ
  pub distance_m : ℕ
  pub trips_last_3h : ℕ

pub record CandidateSearch : Type 0 where
  pub company_id : ℕ
  pub trip_request_id : ℕ
  pub origin : Coordinate
  pub radius_km : ℕ
  pub tiebreak_window_hours : ℕ
  pub location_stale_min : ℕ
  pub limit : ℕ
  pub exclude : List ℕ

-- `location_updated_at > now() - stale`, which a stale time of zero does not ask for.
abbrev pub is_fresh : ℕ → ℕ → Option ℕ → Bool
is_fresh now stale none = stale == 0
is_fresh now stale (some at) = stale == 0 || ltb now (at + stale * 60000)

abbrev pub lies_within : Geo → CandidateSearch → Option Coordinate → Bool
lies_within geo q none = false
lies_within geo q (some p) = geo.within_km p q.origin q.radius_km

-- An offer of the trip that the driver has refused, let pass or given back.
abbrev pub is_refusal : ℕ → ℕ → Assignment → Bool
is_refusal trip driver a =
    a.driver_id == driver
    && a.trip_request_id == trip
    && includes (rejected ∷ timeout ∷ cancelled ∷ []) a.status

-- The part that `hasAvailableDrivers` asks for, too.
abbrev pub may_serve : ℕ → ℕ → ℕ → Driver → Bool
may_serve now company stale d =
    d.company_id == company
    && same_driver_status d.status available
    && not d.pin_must_change
    && is_some d.current_vehicle_id
    && is_some d.location
    && is_fresh now stale d.location_updated_at

abbrev pub is_candidate : Geo → ℕ → CandidateSearch → Db → Driver → Bool
is_candidate geo now q db d =
    may_serve now q.company_id q.location_stale_min d
    && lies_within geo q d.location
    && not (any (is_live_offer now d.driver_id) db.assignments)
    && not (any (is_refusal q.trip_request_id d.driver_id) db.assignments)
    && not (has_id d.driver_id q.exclude)

abbrev pub counts_lately : ℕ → ℕ → ℕ → Assignment → Bool
counts_lately now hours driver a =
    a.driver_id == driver && same a.status accepted && ltb now (a.assigned_at + hours * 3600000)

abbrev pub distance_to : Geo → Coordinate → Option Coordinate → ℕ
distance_to geo origin none = 0
distance_to geo origin (some p) = geo.distance p origin

-- The selected columns; a candidate has a vehicle and a location.
abbrev pub to_candidate : Geo → ℕ → CandidateSearch → Db → Driver → DbCandidate
to_candidate geo now q db d = record {
  driver_id = d.driver_id;
  vehicle_id = or_else d.current_vehicle_id 0;
  distance_m = distance_to geo q.origin d.location;
  trips_last_3h = count (counts_lately now q.tiebreak_window_hours d.driver_id) db.assignments;
}

-- ORDER BY "distanceM" ASC, "tripsLast3h" ASC
abbrev pub comes_before : ℕ → ℕ → ℕ → ℕ → Bool
comes_before distance trips distance' trips' =
    ltb distance distance' || distance == distance' && leb trips trips'

abbrev pub insert_candidate : DbCandidate → List DbCandidate → List DbCandidate
insert_candidate c [] = c ∷ []
insert_candidate c (x ∷ xs) =
    let rest = insert_candidate c xs in
    if comes_before c.distance_m c.trips_last_3h x.distance_m x.trips_last_3h
    then c ∷ x ∷ xs
    else x ∷ rest

abbrev pub order_candidates : List DbCandidate → List DbCandidate
order_candidates [] = []
order_candidates (c ∷ cs) = insert_candidate c (order_candidates cs)

-- LIMIT
abbrev pub take {ℓ} : {A : Type ℓ} → ℕ → List A → List A
take zero xs = []
take (suc n) [] = []
take (suc n) (x ∷ xs) = x ∷ take n xs

-- findCandidates
unfoldable pub find_candidates : Geo → ℕ → CandidateSearch → Db → List DbCandidate
find_candidates geo now q db = take q.limit (
    order_candidates
      (map (to_candidate geo now q db) (filter (is_candidate geo now q db) db.drivers)))

-- hasAvailableDrivers
unfoldable pub has_available_drivers : ℕ → ℕ → ℕ → Db → Bool
has_available_drivers now company stale db = any (may_serve now company stale) db.drivers

pub record CompanyCandidate : Type 0 where
  pub candidate : DbCandidate
  pub open candidate use *
  pub company_id : ℕ

-- Math.min(...values) of a list that is not empty.
abbrev pub least : (CompanyCandidate → ℕ) → CompanyCandidate → List CompanyCandidate → ℕ
least f c [] = f c
least f c (x ∷ xs) = min (f c) (least f x xs)

abbrev pub get_elem? {ℓ} : {A : Type ℓ} → List A → ℕ → Option A
get_elem? [] i = none
get_elem? (x ∷ xs) zero = some x
get_elem? (x ∷ xs) (suc i) = get_elem? xs i

abbrev pub one_of : (ℕ → ℕ) → List CompanyCandidate → Option CompanyCandidate
one_of choice tied = get_elem? tied (choice (length tied))

abbrev pub fewest_trips : (ℕ → ℕ) → List CompanyCandidate → Option CompanyCandidate
fewest_trips choice [] = none
fewest_trips choice (c ∷ cs) = one_of choice (
    filter (λ (x : CompanyCandidate). x.trips_last_3h == least (λ x. x.trips_last_3h) c cs)
      (c ∷ cs))

-- pickNearest; `choice n` is `Math.floor(random() * n)`.
unfoldable pub pick_nearest : (ℕ → ℕ) → List CompanyCandidate → Option CompanyCandidate
pick_nearest choice [] = none
pick_nearest choice (c ∷ cs) =
    fewest_trips choice
      (filter (λ (x : CompanyCandidate). x.distance_m == least (λ x. x.distance_m) c cs) (c ∷ cs))
