-- ===== src/Assignment/Dispatch/Searches.antt =====
-- What a call of tryNext of apps/api/src/modules/assignment/assignment.service.ts may do, as a
-- relation on searches, where the drivers are finitely many.
use voyya_backend.Assignment.Dispatch.Rounds.{DriversIn, IsClosed, fewer, rounds_left}
use voyya_backend.Prelude.{
  not→false, &&→right, All-In, ok, ℕ, zero, suc, ◌≤◌, ◌<◌, ◌≡◌, refl, sym, ap, subst, ◌⊎◌, inl, inr,
  true, false, none, some, List, [], ◌∷◌, ◌++◌, arith, leb, Bool-cases, leb→le, any,
}
use voyya_backend.Db.Rows.{Driver, Assignment, Db}
use voyya_backend.Db.Tx.{run_in_tenant, run_in_tenant-done}
use voyya_backend.Tenancy.DispatchCompanies.{has_id}
use voyya_backend.Assignment.Statements.{is_free_driver, is_live_offer, create_offer_if_driver_free}
use voyya_backend.Assignment.Candidates.{Geo, CompanyCandidate}
use voyya_backend.Assignment.Dispatch.{
  Round, ChainContext, Searched, offered, no_driver, attempt, hold_offer, offer_for, make_offer,
  with_candidate, widen_or_stop, companies_of, find_nearest_candidate, try_next,
}
use voyya_backend.Assignment.Dispatch.Nearest.{
  StandsFor, Nobody, NearestOf, find_nearest_candidate_lem,
}

module _ (geo : Geo) (rounds : ℕ → Round) where
  -- The candidate is the nearest that round `n` finds, and was not asked by this chain.
  abbrev pub IsNext : ℕ → ChainContext → Db → CompanyCandidate → Type 0
  IsNext n ctx db cand =
      let tables = (rounds n).resolving db in
      NearestOf geo (rounds n) ctx tables (companies_of ctx tables) (some cand)
      × (has_id cand.driver_id ctx.attempted ≡ false)

  abbrev pub add_offer : Assignment → Db → Db
  add_offer row db = record db { assignments = db.assignments ++ row ∷ [] }

  -- What a round offers on: the tables, after what others do before the offer.
  abbrev pub offer_tables : ℕ → Db → Db
  offer_tables n db = (rounds n).offering ((rounds n).resolving db)

  -- A search, from a chain and tables to the end that it comes to.
  pub data Searches : ChainContext → Db → Searched → Type 0 where
    spent :
        (ctx : ChainContext) (db : Db)
        → ctx.params.max_auto_retries ≤ ctx.order
        → Searches ctx db (no_driver ctx db)
    nobody :
        (n : ℕ) (ctx : ChainContext) (db : Db)
        → ctx.expanded ≡ true
        → (let tables = (rounds n).resolving db in
            Nobody geo
              (rounds n)
              ctx
              tables
              (companies_of ctx tables)
              (find_nearest_candidate geo (rounds n) ctx db))
        → Searches ctx db (no_driver ctx ((rounds n).resolving db))
    widened :
        (n : ℕ) (ctx : ChainContext) (db : Db) (r : Searched)
        → ctx.expanded ≡ false
        → (let tables = (rounds n).resolving db in
            Nobody geo
              (rounds n)
              ctx
              tables
              (companies_of ctx tables)
              (find_nearest_candidate geo (rounds n) ctx db))
        → Searches (record ctx { expanded = true }) ((rounds n).resolving db) r
        → Searches ctx db r
    passed_over :
        (n : ℕ) (ctx : ChainContext) (db : Db) (cand : CompanyCandidate) (r : Searched)
        → ctx.order < ctx.params.max_auto_retries
        → IsNext n ctx db cand
        → (any (is_free_driver cand.driver_id cand.company_id) (offer_tables n db).drivers ≡ false)
          ⊎ (any (is_live_offer (rounds n).now cand.driver_id) (offer_tables n db).assignments
              ≡ true)
        → Searches (attempt cand ctx) (offer_tables n db) r
        → Searches ctx db r
    made :
        (n : ℕ) (ctx : ChainContext) (db : Db) (cand : CompanyCandidate)
        → ctx.order < ctx.params.max_auto_retries
        → IsNext n ctx db cand
        → any (is_free_driver cand.driver_id cand.company_id) (offer_tables n db).drivers ≡ true
        → any (is_live_offer (rounds n).now cand.driver_id) (offer_tables n db).assignments ≡ false
        → Searches ctx db (record {
          end = offered (offer_for (rounds n) ctx cand);
          ctx = hold_offer (offer_for (rounds n) ctx cand) (attempt cand ctx);
          db = add_offer (offer_for (rounds n) ctx cand) (offer_tables n db);
        })

module _ (geo : Geo) (rounds : ℕ → Round) (ids : List ℕ) (closed : IsClosed ids rounds)
    (in_range : (n m : ℕ) → 0 < m → (rounds n).choice m < m) where
  -- Whom a round finds is a driver that the chain has not asked, one of `ids`.
  not_asked :
      (n : ℕ) (ctx : ChainContext) (tables : Db) (companies : List ℕ) (cand : CompanyCandidate)
      → DriversIn ids tables
      → StandsFor geo (rounds n) ctx tables companies cand
      → (has_id cand.driver_id ids ≡ true) × (has_id cand.driver_id ctx.attempted ≡ false)
  not_asked n ctx tables companies cand s (m, (d, (there, ok'), e)) =
      let same : cand.driver_id ≡ d.driver_id = ap (λ c. c.driver_id) e in
      let known =
        All-In (λ (x : Driver). has_id x.driver_id ids ≡ true) d _
          (closed.searching n cand.company_id tables s) there in
      let new : has_id d.driver_id ctx.attempted ≡ false = not→false _ (&&→right _ _ ok') in
      (
        subst (λ k. has_id k ids ≡ true) (sym same) known,
        subst (λ k. has_id k ctx.attempted ≡ false) (sym same) new,
      )

  -- What an offer's transaction comes to: the driver was not free, and the tables stay; or the row
  -- of the offer is added.
  offer_made :
      (n : ℕ) (ctx : ChainContext) (tables : Db) (cand : CompanyCandidate)
      → let r =
          run_in_tenant
            (create_offer_if_driver_free (rounds n).now (offer_for (rounds n) ctx cand))
            tables in
        ((r ≡ (ok none, tables))
          × ((any (is_free_driver cand.driver_id cand.company_id) tables.drivers ≡ false)
              ⊎ (any (is_live_offer (rounds n).now cand.driver_id) tables.assignments ≡ true)))
        ⊎ ((r ≡ (
          ok (some (offer_for (rounds n) ctx cand)),
          add_offer geo rounds (offer_for (rounds n) ctx cand) tables,
        ))
            × (any (is_free_driver cand.driver_id cand.company_id) tables.drivers ≡ true)
            × (any (is_live_offer (rounds n).now cand.driver_id) tables.assignments ≡ false))
  unfolding create_offer_if_driver_free
  offer_made n ctx tables cand =
      elim (Bool-cases (any (is_free_driver cand.driver_id cand.company_id) tables.drivers)) [
        | inr busy ↦ inl (
          run_in_tenant-done
              (create_offer_if_driver_free (rounds n).now (offer_for (rounds n) ctx cand)) tables
              (rw busy refl),
          inl busy,
        )
        | inl free ↦
            elim (Bool-cases
              (any (is_live_offer (rounds n).now cand.driver_id) tables.assignments)) [
                | inl live ↦ inl (
                  run_in_tenant-done
                      (create_offer_if_driver_free (rounds n).now (offer_for (rounds n) ctx cand))
                      tables (rw (free, live) refl),
                  inr live,
                )
                | inr idle ↦ inr (
                  run_in_tenant-done
                      (create_offer_if_driver_free (rounds n).now (offer_for (rounds n) ctx cand))
                      tables (rw (free, idle) refl),
                  free,
                  idle,
                )
              ]
      ]

  -- Where the calls on the next rounds are searches, so is the call.
  abbrev IsSearch : (ChainContext → Db → Searched) → ℕ → Type 0
  IsSearch again fuel =
      (ctx : ChainContext) (db : Db)
      → DriversIn ids db
      → rounds_left ids ctx < fuel
      → Searches geo rounds ctx db (again ctx db)

  try_candidate :
      (n : ℕ) (again : ChainContext → Db → Searched) (ctx : ChainContext) (db : Db)
      (cand : CompanyCandidate) (fuel : ℕ)
      → IsSearch again fuel
      → DriversIn ids db
      → rounds_left ids ctx < suc fuel
      → ctx.order < ctx.params.max_auto_retries
      → IsNext geo rounds n ctx db cand
      → has_id cand.driver_id ids ≡ true
      → Searches geo rounds ctx db (make_offer again (rounds n) ctx ((rounds n).resolving db) cand)
  try_candidate n again ctx db cand fuel h s enough few next known =
      elim (offer_made n ctx (offer_tables geo rounds n db) cand) [
        | inl (e, busy) ↦ rw e (
            passed_over n ctx db cand _ few next busy (
              h (attempt cand ctx) (offer_tables geo rounds n db)
                (closed.offering n _ (closed.resolving n db s))
                (omega (arith, fewer cand.driver_id ctx.attempted ids known next.1))))
        | inr (e, free, idle) ↦ rw e (made n ctx db cand few next free idle)
      ]

  wider :
      (ctx : ChainContext) (fuel : ℕ)
      → ctx.expanded ≡ false
      → rounds_left ids ctx < suc fuel
      → rounds_left ids (record ctx { expanded = true }) < fuel
  wider ctx fuel e enough = ground arith

  try_round :
      (n : ℕ) (again : ChainContext → Db → Searched) (ctx : ChainContext) (db : Db) (fuel : ℕ)
      → IsSearch again fuel
      → DriversIn ids db
      → rounds_left ids ctx < suc fuel
      → ctx.order < ctx.params.max_auto_retries
      → Searches geo rounds ctx db (
          with_candidate again
            (rounds n)
            ctx
            ((rounds n).resolving db)
            (find_nearest_candidate geo (rounds n) ctx db))
  try_round n again ctx db fuel h s enough few =
      elim (find_nearest_candidate_lem geo (rounds n) ctx db (in_range n)) [
        | inl none' ↦ elim (Bool-cases ctx.expanded) [
          | inl e ↦ rw none'.0 (
              subst
                (λ b.
                  Searches geo rounds ctx db (widen_or_stop again ctx ((rounds n).resolving db) b))
                (sym e) (nobody n ctx db e none'))
          | inr e ↦ rw none'.0 (
              subst
                (λ b.
                  Searches geo rounds ctx db (widen_or_stop again ctx ((rounds n).resolving db) b))
                (sym e)
                (widened n ctx db _ e none' (
                  h (record ctx { expanded = true }) ((rounds n).resolving db)
                    (closed.resolving n db s) (wider ctx fuel e enough))))
        ]
        | inr (cand, e, stands, least') ↦
            let (known, new) =
              not_asked n ctx ((rounds n).resolving db) _ cand (closed.resolving n db s) stands in
            rw e (
              try_candidate n again ctx db cand fuel h s enough few
                ((cand, refl, stands, least'), new) known)
      ]

  -- Where the drivers are among finitely many: with more fuel than the drivers not asked and the
  -- wider radius, a call of tryNext is a search, and comes to its end.
  pub try_next-Searches :
      (fuel : ℕ) (ctx : ChainContext) (db : Db)
      → DriversIn ids db
      → rounds_left ids ctx < fuel
      → Searches geo rounds ctx db (try_next geo rounds fuel ctx db)
  unfolding try_next
  try_next-Searches zero ctx db s enough = absurd (omega arith)
  try_next-Searches (suc fuel) ctx db s enough =
      elim (Bool-cases (leb ctx.params.max_auto_retries ctx.order)) [
        | inl e ↦ rw e (spent ctx db (leb→le _ _ e))
        | inr e ↦ rw e (
            try_round fuel (λ c d. try_next geo rounds fuel c d) ctx db fuel
              (λ c d. try_next-Searches fuel c d) s enough (ground arith))
      ]
