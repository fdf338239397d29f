-- ===== src/Assignment/Dispatch/Chains.antt =====
-- What holds of a chain of offers through a search: tryNext of
-- apps/api/src/modules/assignment/assignment.service.ts.
use voyya_backend.Prelude.{
  ℕ, ◌+◌, ◌≤◌, ◌<◌, ◌≡◌, refl, ◌∙◌, ◌⊎◌, inl, inr, true, false, some, List, [], ◌∷◌, arith, length,
}
use voyya_backend.Db.Rows.{Assignment, Db}
use voyya_backend.Tenancy.DispatchCompanies.{has_id}
use voyya_backend.Assignment.Candidates.{Geo, CompanyCandidate}
use voyya_backend.Assignment.Dispatch.{
  Round, ChainContext, Searched, offered, exhausted, final_radius, attempt, offer_for, try_next,
  companies_of, find_nearest_candidate,
}
use voyya_backend.Assignment.Dispatch.Rounds.{IsClosed, DriversIn, rounds_left}
use voyya_backend.Assignment.Dispatch.Nearest.{Nobody}
use voyya_backend.Assignment.Dispatch.Searches.{
  Searches, spent, nobody, widened, passed_over, made, try_next-Searches,
}

abbrev pub IsDistinct : List ℕ → Type 0
IsDistinct [] = Unit
IsDistinct (x ∷ xs) = (has_id x xs ≡ false) × IsDistinct xs

-- The chain has made offers within its retries, to drivers whom it asked once each.
pub record IsChain (ctx : ChainContext) : Type 0 where
  pub within_retries : ctx.order ≤ ctx.params.max_auto_retries
  pub asked : ctx.order ≤ length ctx.attempted
  pub once : IsDistinct ctx.attempted

-- The chain `ctx'` goes on from `ctx`: of the same trip, with the drivers asked still known as asked.
pub record GoesOn (ctx ctx' : ChainContext) : Type 0 where
  pub same_trip : ctx'.trip_request_id ≡ ctx.trip_request_id
  pub same_params : ctx'.params ≡ ctx.params
  pub remembers : (k : ℕ) → has_id k ctx.attempted ≡ true → has_id k ctx'.attempted ≡ true

GoesOn-refl : (ctx : ChainContext) → GoesOn ctx ctx
GoesOn-refl ctx = record { same_trip = refl; same_params = refl; remembers = λ k e. e }

GoesOn-trans : {a b c : ChainContext} → GoesOn a b → GoesOn b c → GoesOn a c
GoesOn-trans p q = record {
  same_trip = q.same_trip ∙ p.same_trip;
  same_params = q.same_params ∙ p.same_params;
  remembers = λ k e. q.remembers k (p.remembers k e);
}

GoesOn-attempt : (ctx : ChainContext) (cand : CompanyCandidate) → GoesOn ctx (attempt cand ctx)
GoesOn-attempt ctx cand = record {
  same_trip = refl;
  same_params = refl;
  remembers = λ k e. ground (arith, e);
}

-- The last round of the search has looked for a driver in the wider radius, on the tables that it
-- leaves, and found nobody.
abbrev pub NobodyWider : Geo → (ℕ → Round) → Searched → Type 0
NobodyWider geo rounds r =
    (r.ctx.expanded ≡ true)
    × ((n : ℕ) × (db : Db) × (r.db ≡ (rounds n).resolving db)
        × Nobody geo (rounds n) r.ctx r.db (companies_of r.ctx r.db)
            (find_nearest_candidate geo (rounds n) r.ctx db))

-- How a search of a chain ends: with one more offer, to a driver who was not asked before, or given
-- up, since the retries are spent or a round searched the wider radius and found nobody there.
abbrev pub EndsWell : Geo → (ℕ → Round) → ChainContext → Searched → Type 0
EndsWell geo rounds ctx r =
    ((row : Assignment) × (r.end ≡ offered row)
      × (row.trip_request_id ≡ ctx.trip_request_id)
      × (has_id row.driver_id ctx.attempted ≡ false)
      × (has_id row.driver_id r.ctx.attempted ≡ true)
      × (row.attempt_order ≡ ctx.order + 1)
      × (r.ctx.order ≡ ctx.order + 1)
      × (r.ctx.current_offer
          ≡ some (record { assignment_id = row.assignment_id; company_id = row.company_id })))
    ⊎ ((r.end ≡ exhausted ctx.order (final_radius r.ctx))
        × (r.ctx.order ≡ ctx.order)
        × ((ctx.params.max_auto_retries ≤ ctx.order) ⊎ NobodyWider geo rounds r))

abbrev pub SearchKept : Geo → (ℕ → Round) → ChainContext → Searched → Type 0
SearchKept geo rounds ctx r = IsChain r.ctx × GoesOn ctx r.ctx × EndsWell geo rounds ctx r

-- An end that is reached from the chain after one more driver is asked is one of the chain.
asked_before :
    (geo : Geo) (rounds : ℕ → Round) (ctx : ChainContext) (cand : CompanyCandidate) (r : Searched)
    → EndsWell geo rounds (attempt cand ctx) r
    → EndsWell geo rounds ctx r
asked_before geo rounds ctx cand r (inl (row, e, t, new, known, o, p, held)) =
    inl (row, e, t, not_there row.driver_id cand.driver_id ctx.attempted new, known, o, p, held)
  where
    not_there : (k j : ℕ) (xs : List ℕ) → has_id k (j ∷ xs) ≡ false → has_id k xs ≡ false
    not_there k j xs h = ground (arith, h)
asked_before geo rounds ctx cand r (inr h) = inr h

wider_before :
    (geo : Geo) (rounds : ℕ → Round) (ctx : ChainContext) (r : Searched)
    → EndsWell geo rounds (record ctx { expanded = true }) r
    → EndsWell geo rounds ctx r
wider_before geo rounds ctx r (inl h) = inl h
wider_before geo rounds ctx r (inr h) = inr h

attempt-IsChain :
    (ctx : ChainContext) (cand : CompanyCandidate)
    → has_id cand.driver_id ctx.attempted ≡ false
    → IsChain ctx
    → IsChain (attempt cand ctx)
attempt-IsChain ctx cand new c = record {
  within_retries = c.within_retries;
  asked = omega (arith, c.asked);
  once = (new, c.once);
}

module _ {geo : Geo} {rounds : ℕ → Round} where
  Searches-kept :
      {ctx : ChainContext} {db : Db} {r : Searched}
      → Searches geo rounds ctx db r
      → IsChain ctx
      → SearchKept geo rounds ctx r
  Searches-kept (spent ctx db h) c = (c, GoesOn-refl ctx, inr (refl, refl, inl h))
  Searches-kept (nobody n ctx db e h) c =
      (c, GoesOn-refl ctx, inr (refl, refl, inr (e, (n, db, refl, h))))
  Searches-kept (widened n ctx db r e h s) c =
      let (c', g, w) =
        Searches-kept s
          (record { within_retries = c.within_retries; asked = c.asked; once = c.once }) in
      (
        c',
        GoesOn-trans (record { same_trip = refl; same_params = refl; remembers = λ k q. q }) g,
        wider_before geo rounds ctx r w,
      )
  Searches-kept (passed_over n ctx db cand r few next busy s) c =
      let (c', g, w) = Searches-kept s (attempt-IsChain ctx cand next.1 c) in
      (c', GoesOn-trans (GoesOn-attempt ctx cand) g, asked_before geo rounds ctx cand r w)
  Searches-kept (made n ctx db cand few next free idle) c = (
    record {
      within_retries = omega arith;
      asked = omega (arith, c.asked);
      once = (next.1, c.once);
    },
    record {
      same_trip = refl;
      same_params = refl;
      remembers = (GoesOn-attempt ctx cand).remembers;
    },
    inl (offer_for (rounds n) ctx cand, refl, refl, next.1, ground arith, refl, refl, refl),
  )

-- Where the drivers are among finitely many, and the fuel is more than the drivers not asked and the
-- wider radius: tryNext ends, with one more offer of the trip, to a driver whom the chain had not
-- asked, and the chain holds it; or given up, since the retries are spent or its last round has looked in
-- the wider radius, over all the companies, and found nobody. The offers stay within the retries, and no driver is asked twice.
pub try_next_kept :
    (geo : Geo) (rounds : ℕ → Round) (ids : List ℕ)
    → IsClosed ids rounds
    → ((n m : ℕ) → 0 < m → (rounds n).choice m < m)
    → (fuel : ℕ) (ctx : ChainContext) (db : Db) → DriversIn ids db
    → rounds_left ids ctx < fuel
    → IsChain ctx
    → SearchKept geo rounds ctx (try_next geo rounds fuel ctx db)
try_next_kept geo rounds ids closed in_range fuel ctx db s enough c =
    Searches-kept (try_next-Searches geo rounds ids closed in_range fuel ctx db s enough) c
