-- ===== src/Assignment/Dispatch/Nearest.antt =====
-- findNearestCandidate of apps/api/src/modules/assignment/assignment.service.ts: the nearest of each
-- company, and of these the nearest.
use voyya_backend.Prelude.{
  In, All-In, All-map, In-filter, filter-In, In-map, map-In, ℕ, ◌<◌, ◌≡◌, refl, sym, subst, ◌⊎◌,
  inl, inr, true, Option, none, some, List, [], ◌∷◌, map, filter, All,
}
use voyya_backend.Db.Rows.{Driver, Db}
use voyya_backend.Assignment.Candidates.{
  Geo, DbCandidate, CompanyCandidate, is_candidate, to_candidate, order_candidates, take,
  find_candidates, pick_nearest,
}
use voyya_backend.Assignment.Candidates.Nearest.{
  NotAfter, NotAfter-trans, IsFirst, order_candidates-IsFirst, pick_nearest_lem,
}
use voyya_backend.Assignment.Dispatch.{
  Round, ChainContext, search_of, with_company, nearest_per_company, companies_of,
  find_nearest_candidate,
}

module _ (geo : Geo) (round : Round) (ctx : ChainContext) (db : Db) where
  -- What the search of a company sees.
  abbrev pub seen : ℕ → Db
  seen company = round.searching company db

  -- A driver of the company whom its search finds.
  abbrev pub IsEligible : ℕ → Driver → Type 0
  IsEligible company d =
      In d (seen company).drivers
      × (is_candidate geo round.now (search_of ctx company) (seen company) d ≡ true)

  abbrev pub row_of : ℕ → Driver → DbCandidate
  row_of company d = to_candidate geo round.now (search_of ctx company) (seen company) d

  abbrev rows_of : ℕ → List DbCandidate
  rows_of company = map (row_of company) (
      filter (is_candidate geo round.now (search_of ctx company) (seen company))
        (seen company).drivers)

  row_of-IsEligible :
      (company : ℕ) (c : DbCandidate)
      → In c (rows_of company)
      → (d : Driver) × IsEligible company d × (c ≡ row_of company d)
  row_of-IsEligible company c m =
      let (d, e, n) = map-In (row_of company) c _ m in
      (d, filter-In _ d (seen company).drivers n, e)

  eligible_row :
      (company : ℕ) (d : Driver) → IsEligible company d → In (row_of company d) (rows_of company)
  eligible_row company d h =
      In-map (row_of company) d _ (In-filter _ d (seen company).drivers h.0 h.1)

  -- The first row, if any, is an eligible driver's, and no eligible driver comes before it.
  abbrev IsFound : ℕ → List DbCandidate → Type 0
  IsFound company [] = (d : Driver) → IsEligible company d → ⊥
  IsFound company (c ∷ cs) =
      ((d : Driver) × IsEligible company d × (c ≡ row_of company d))
      × ((d : Driver) → IsEligible company d → NotAfter c (row_of company d))

  first-IsFound :
      (company : ℕ) (sorted : List DbCandidate)
      → IsFirst sorted (rows_of company)
      → IsFound company (take 1 sorted)
  first-IsFound company [] e = λ d h. subst (In (row_of company d)) e (eligible_row company d h)
  first-IsFound company (c ∷ cs) h = (
    row_of-IsEligible company c h.0,
    λ d k.
        All-In (λ x. NotAfter c x) (row_of company d) (rows_of company) h.1
          (eligible_row company d k),
  )

  find_candidates-IsFound :
      (company : ℕ)
      → IsFound company (find_candidates geo round.now (search_of ctx company) (seen company))
  unfolding find_candidates
  find_candidates-IsFound company =
      first-IsFound company (order_candidates (rows_of company))
        (order_candidates-IsFirst (rows_of company))

  -- An eligible driver of one of the companies, and the candidate that stands for the driver.
  abbrev pub StandsFor : List ℕ → CompanyCandidate → Type 0
  StandsFor companies x =
      In x.company_id companies
      × ((d : Driver) × IsEligible x.company_id d × (x.candidate ≡ row_of x.company_id d))

  widen :
      (companies : List ℕ) (k : ℕ) (x : CompanyCandidate)
      → StandsFor companies x
      → StandsFor (k ∷ companies) x
  widen companies k x h = (inr h.0, h.1)

  one_company :
      (company : ℕ) (rest : List ℕ) (cs : List DbCandidate) (more : List CompanyCandidate)
      → IsFound company cs
      → All (StandsFor rest) more
      → All (StandsFor (company ∷ rest)) (with_company company cs more)
  one_company company rest [] more f h =
      All-map (StandsFor rest) (StandsFor (company ∷ rest)) more (λ x. widen rest company x) h
  one_company company rest (c ∷ cs) more f h = (
    (inl refl, f.0),
    All-map (StandsFor rest) (StandsFor (company ∷ rest)) more (λ x. widen rest company x) h,
  )

  per_company-StandsFor :
      (companies : List ℕ)
      → All (StandsFor companies) (nearest_per_company geo round ctx db companies)
  per_company-StandsFor [] = tt
  per_company-StandsFor (company ∷ rest) =
      one_company company rest _ _ (find_candidates-IsFound company) (per_company-StandsFor rest)

  -- No eligible driver of the company comes before one of the candidates.
  abbrev Covers : List CompanyCandidate → ℕ → Type 0
  Covers xs company =
      (d : Driver)
      → IsEligible company d
      → (x : CompanyCandidate) × In x xs × NotAfter x.candidate (row_of company d)

  Covers-more :
      (company k : ℕ) (cs : List DbCandidate) (more : List CompanyCandidate)
      → Covers more company
      → Covers (with_company k cs more) company
  Covers-more company k [] more h = h
  Covers-more company k (c ∷ cs) more h = λ d e. let (x, m, b) = h d e in (x, inr m, b)

  Covers-own :
      (company : ℕ) (cs : List DbCandidate) (more : List CompanyCandidate)
      → IsFound company cs
      → Covers (with_company company cs more) company
  Covers-own company [] more f = λ d e. absurd (f d e)
  Covers-own company (c ∷ cs) more f =
      λ d e. (record { candidate = c; company_id = company }, inl refl, f.1 d e)

  per_company-Covers :
      (companies : List ℕ) (company : ℕ)
      → In company companies
      → Covers (nearest_per_company geo round ctx db companies) company
  per_company-Covers [] company m = absurd m
  per_company-Covers (k ∷ rest) company (inl q) =
      subst (Covers (nearest_per_company geo round ctx db (k ∷ rest))) (sym q)
        (Covers-own k _ (nearest_per_company geo round ctx db rest) (find_candidates-IsFound k))
  per_company-Covers (k ∷ rest) company (inr m) =
      Covers-more company k _ _ (per_company-Covers rest company m)

  -- Nobody is found.
  abbrev pub Nobody : List ℕ → Option CompanyCandidate → Type 0
  Nobody companies found =
      (found ≡ none)
      × ((company : ℕ) (d : Driver) → In company companies → IsEligible company d → ⊥)

  -- The nearest eligible driver is found.
  abbrev pub NearestOf : List ℕ → Option CompanyCandidate → Type 0
  NearestOf companies found =
      (cand : CompanyCandidate) × (found ≡ some cand)
      × StandsFor companies cand
      × ((company : ℕ) (d : Driver)
          → In company companies
          → IsEligible company d
          → NotAfter cand.candidate (row_of company d))

  picked :
      (companies : List ℕ) (xs : List CompanyCandidate)
      → ((n : ℕ) → 0 < n → round.choice n < n)
      → All (StandsFor companies) xs
      → ((company : ℕ) → In company companies → Covers xs company)
      → Nobody companies (pick_nearest round.choice xs)
        ⊎ NearestOf companies (pick_nearest round.choice xs)
  unfolding pick_nearest
  picked companies [] in_range h k = inl (refl, λ company d m e. (k company m d e).1)
  picked companies (c ∷ cs) in_range h k =
      let (best, found, m, least') = pick_nearest_lem round.choice in_range c cs in
      inr (
        best,
        found,
        All-In (StandsFor companies) best (c ∷ cs) h m,
        λ company d n e.
            let (x, i, b) = k company n d e in
            NotAfter-trans best.candidate x.candidate (row_of company d) (least' x i) b,
      )

-- The search of a round, with the tables that each company's search sees: it finds nobody, and no
-- company that may serve the trip has an eligible driver; or it finds an eligible driver of such a
-- company, and no eligible driver of any of them is nearer, or as near with fewer trips. The random
-- choice is among those that are level.
pub find_nearest_candidate_lem :
    (geo : Geo) (round : Round) (ctx : ChainContext) (db : Db)
    → ((n : ℕ) → 0 < n → round.choice n < n)
    → let tables = round.resolving db in
      let companies = companies_of ctx tables in
      Nobody geo round ctx tables companies (find_nearest_candidate geo round ctx db)
      ⊎ NearestOf geo round ctx tables companies (find_nearest_candidate geo round ctx db)
unfolding find_nearest_candidate
find_nearest_candidate_lem geo round ctx db in_range =
    let tables = round.resolving db in
    let companies = companies_of ctx tables in
    picked geo round ctx tables companies (nearest_per_company geo round ctx tables companies)
      in_range (per_company-StandsFor geo round ctx tables companies)
      (per_company-Covers geo round ctx tables companies)
