-- ===== src/Assignment/Candidates/Nearest.antt =====
-- The nearest candidate of a list, and of a query:
-- apps/api/src/modules/assignment/nearest-candidate.ts and candidate.repository.ts.
use voyya_backend.Prelude.{
  In, All-map, In-filter, filter-In, In-length, ℕ, zero, suc, ◌≤◌, ◌<◌, ◌≡◌, refl, sym, ◌∙◌, subst,
  inl, inr, true, some, List, [], ◌∷◌, arith, leb, ◌==◌, Bool-cases, ==→eq, ==_refl, length, filter,
  All,
}
use voyya_backend.Assignment.Candidates.{
  DbCandidate, CompanyCandidate, comes_before, insert_candidate, order_candidates, least, get_elem?,
  one_of, fewest_trips, pick_nearest,
}

-- The candidate `c` is as near as `x`, and has as few trips where they are as near.
abbrev pub NotAfter : DbCandidate → DbCandidate → Type 0
NotAfter c x = comes_before c.distance_m c.trips_last_3h x.distance_m x.trips_last_3h ≡ true

pub NotAfter-trans : (a b c : DbCandidate) → NotAfter a b → NotAfter b c → NotAfter a c
NotAfter-trans a b c p q = ground arith

least-le :
    (f : CompanyCandidate → ℕ) (c : CompanyCandidate) (xs : List CompanyCandidate)
    (x : CompanyCandidate)
    → In x (c ∷ xs)
    → least f c xs ≤ f x
least-le f c [] x (inl e) = subst (λ z. f c ≤ f z) (sym e) (omega arith)
least-le f c [] x (inr m) = elim m [ ]
least-le f c (y ∷ ys) x (inl e) = subst (λ z. least f c (y ∷ ys) ≤ f z) (sym e) (omega arith)
least-le f c (y ∷ ys) x (inr m) = omega (arith, least-le f y ys x m)

least_attained :
    (f : CompanyCandidate → ℕ) (c : CompanyCandidate) (xs : List CompanyCandidate)
    → (x : CompanyCandidate) × In x (c ∷ xs) × (f x ≡ least f c xs)
least_attained f c [] = (c, inl refl, refl)
least_attained f c (y ∷ ys) =
    let (x, m, e) = least_attained f y ys in
    elim (Bool-cases (leb (f c) (least f y ys))) [
      | inl h ↦ (c, inl refl, ground arith)
      | inr h ↦ (x, inr m, e ∙ ground arith)
    ]

get_elem?-In :
    (xs : List CompanyCandidate) (i : ℕ)
    → i < length xs
    → (x : CompanyCandidate) × (get_elem? xs i ≡ some x) × In x xs
get_elem?-In [] i h = absurd (omega arith)
get_elem?-In (x ∷ xs) zero h = (x, refl, inl refl)
get_elem?-In (x ∷ xs) (suc i) h = let (y, e, m) = get_elem?-In xs i (omega arith) in (y, e, inr m)

module _ (choice : ℕ → ℕ) (in_range : (n : ℕ) → 0 < n → choice n < n) where
  one_of-In :
      (xs : List CompanyCandidate) (x : CompanyCandidate)
      → In x xs
      → (y : CompanyCandidate) × (one_of choice xs ≡ some y) × In y xs
  one_of-In xs x m = get_elem?-In xs (choice (length xs)) (in_range (length xs) (In-length x xs m))

  fewest_trips_lem :
      (xs : List CompanyCandidate) (x : CompanyCandidate)
      → In x xs
      → (best : CompanyCandidate) × (fewest_trips choice xs ≡ some best)
        × In best xs
        × ((y : CompanyCandidate) → In y xs → best.trips_last_3h ≤ y.trips_last_3h)
  fewest_trips_lem [] x m = absurd m
  fewest_trips_lem (c ∷ cs) x m =
      let trips = λ (y : CompanyCandidate). y.trips_last_3h in
      let fewest = λ (y : CompanyCandidate). y.trips_last_3h == least trips c cs in
      let (z, n, e) = least_attained trips c cs in
      let (best, found, k) =
        one_of-In (filter fewest (c ∷ cs)) z (In-filter fewest z (c ∷ cs) n (rw e (==_refl _))) in
      let (there, t) = filter-In fewest best (c ∷ cs) k in
      (
        best,
        found,
        there,
        λ y h. rw (==→eq best.trips_last_3h (least trips c cs) t) (least-le trips c cs y h),
      )

  -- A list that is not empty has a nearest candidate, one of the list: no other is nearer, and none
  -- as near has taken fewer trips, whatever the choice among those that are level.
  pub pick_nearest_lem :
      (c : CompanyCandidate) (cs : List CompanyCandidate)
      → (best : CompanyCandidate) × (pick_nearest choice (c ∷ cs) ≡ some best)
        × In best (c ∷ cs)
        × ((y : CompanyCandidate) → In y (c ∷ cs) → NotAfter best.candidate y.candidate)
  unfolding pick_nearest
  pick_nearest_lem c cs =
      let far = λ (y : CompanyCandidate). y.distance_m in
      let closest = λ (y : CompanyCandidate). y.distance_m == least far c cs in
      let (z, n, e) = least_attained far c cs in
      let (best, found, k, few) =
        fewest_trips_lem (filter closest (c ∷ cs)) z
          (In-filter closest z (c ∷ cs) n (rw e (==_refl _))) in
      let (there, t) = filter-In closest best (c ∷ cs) k in
      let near = ==→eq best.distance_m (least far c cs) t in
      (
        best,
        found,
        there,
        λ y h.
            before best y near (least-le far c cs y h)
              (λ q. few y (In-filter closest y (c ∷ cs) h q)),
      )
    where
      before :
          (best y : CompanyCandidate)
          → best.distance_m ≡ least (λ y. y.distance_m) c cs
          → least (λ y. y.distance_m) c cs ≤ y.distance_m
          → ((y.distance_m == least (λ y. y.distance_m) c cs) ≡ true
              → best.trips_last_3h ≤ y.trips_last_3h)
          → NotAfter best.candidate y.candidate
      before best y near h few =
          elim (Bool-cases (y.distance_m == least (λ y. y.distance_m) c cs)) [
            | inl q ↦ let k = few q in ground arith
            | inr q ↦ ground arith
          ]

-- The head of an ordered list, if any, is one of the rows, and no row comes before it.
abbrev pub IsFirst : List DbCandidate → List DbCandidate → Type 0
IsFirst [] rows = rows ≡ []
IsFirst (c ∷ cs) rows = In c rows × All (λ x. NotAfter c x) rows

insert_candidate-IsFirst :
    (c : DbCandidate) (sorted rows : List DbCandidate)
    → IsFirst sorted rows
    → IsFirst (insert_candidate c sorted) (c ∷ rows)
insert_candidate-IsFirst c [] rows e = rw e (inl refl, (ground arith, tt))
insert_candidate-IsFirst c (x ∷ xs) rows h =
    elim (Bool-cases (comes_before c.distance_m c.trips_last_3h x.distance_m x.trips_last_3h)) [
      | inl e ↦ rw e (
        inl refl,
        (
          ground arith,
          All-map (λ y. NotAfter x y) (λ y. NotAfter c y) rows (λ y q. NotAfter-trans c x y e q)
              h.1,
        ),
      )
      | inr e ↦ rw e (inr h.0, (ground arith, h.1))
    ]

pub order_candidates-IsFirst : (rows : List DbCandidate) → IsFirst (order_candidates rows) rows
order_candidates-IsFirst [] = refl
order_candidates-IsFirst (c ∷ cs) =
    insert_candidate-IsFirst c (order_candidates cs) cs (order_candidates-IsFirst cs)
