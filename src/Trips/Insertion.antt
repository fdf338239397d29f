-- ===== src/Trips/Insertion.antt =====
-- What an insertion of a request answers: insertTripRequest of
-- apps/api/src/modules/trips/trips.service.ts.
use voyya_backend.Prelude.{
  In, any-In, In-any, ok, err, ℕ, ◌≡◌, refl, sym, ap, ◌∙◌, subst, ◌⊎◌, inl, inr, Bool, true, false,
  not, ◌&&◌, ◌||◌, none, some, List, [], ◌∷◌, ◌++◌, arith, ltb, ◌==◌, Bool-cases, Option-cases,
  ==→eq, ==_refl, filter, any,
}
use voyya_backend.Db.Rows.{TripRequest, Company, Db}
use voyya_backend.Db.Tx.{done, thrown, unique_violation, requested_company_rejected}
use voyya_backend.Trips.Repository.{
  find_active_trip_request, create_trip_request, is_active_of, latest, serves,
  is_requested_company_rejected,
}
use voyya_backend.Trips.Create.{
  Meanwhile, active_trip_request_exists, company_not_available, database, insert_trip_request,
  insertion, winner_or,
}

latest_of :
    (x : TripRequest) (xs : List TripRequest)
    → (t : TripRequest) × (latest (x ∷ xs) ≡ some t) × ((t ≡ x) ⊎ (latest xs ≡ some t))
unfolding latest
latest_of x xs = elim (Option-cases (latest xs)) [
  | inl e ↦ (x, rw e, inl refl)
  | inr (best, e) ↦
      let newer =
        ltb best.requested_at x.requested_at
        || best.requested_at == x.requested_at && ltb best.trip_request_id x.trip_request_id in
      elim (Bool-cases newer) [
        | inl q ↦ (x, rw (e, q), inl refl)
        | inr q ↦ (best, rw (e, q), inr e)
      ]
]

abbrev pub listed_in : List TripRequest → TripRequest → Bool
listed_in xs t = any (λ (r : TripRequest). r.trip_request_id == t.trip_request_id) xs

latest_in :
    (p : TripRequest → Bool) (xs : List TripRequest) (t : TripRequest)
    → latest (filter p xs) ≡ some t
    → (p t ≡ true) × (listed_in xs t ≡ true)
unfolding latest
latest_in p [] t h = cc
latest_in p (x ∷ xs) t h = elim (Bool-cases (p x)) [
  | inr e ↦ let (yes', in') = latest_in p xs t (rw e at h) in (yes', ground (arith, in'))
  | inl e ↦
      let (best, q, from) = latest_of x (filter p xs) in
      let h' : latest (x ∷ filter p xs) ≡ some t = rw e at h in
      let same' : some best ≡ some t = sym q ∙ h' in
      let same_trip : best ≡ t = cc in
      elim from [
        | inl first ↦
            subst (λ (r : TripRequest). (p r ≡ true) × (listed_in (x ∷ xs) r ≡ true))
              (sym first ∙ same_trip) (e, rw (==_refl x.trip_request_id))
        | inr later' ↦
            let (yes', in') = latest_in p xs t (later' ∙ same') in (yes', ground (arith, in'))
      ]
]

latest_found :
    (p : TripRequest → Bool) (xs : List TripRequest)
    → any p xs ≡ true
    → (t : TripRequest) × (latest (filter p xs) ≡ some t)
latest_found p [] h = cc
latest_found p (x ∷ xs) h = elim (Bool-cases (p x)) [
  | inl e ↦ let (t, q, from) = latest_of x (filter p xs) in (t, rw e q)
  | inr e ↦ let (t, q) = latest_found p xs (rw e at h) in (t, rw e q)
]

filter-none : (p : TripRequest → Bool) (xs : List TripRequest) → any p xs ≡ false → filter p xs ≡ []
filter-none p [] h = refl
filter-none p (x ∷ xs) h = elim (Bool-cases (p x)) [
  | inl e ↦ cc (rw e at h)
  | inr e ↦ rw e (filter-none p xs (rw e at h))
]

-- The company that a request asks for may serve it: one of its municipality, active, with its service.
abbrev pub IsServed : TripRequest → Db → Type 0
IsServed row db =
    (j : ℕ)
    → row.requested_company_id ≡ some j
    → (c : Company) × In c db.companies
      × (c.company_id ≡ j)
      × (c.municipality_id ≡ row.municipality_id)
      × (c.active ≡ true)
      × In row.service_type c.service_types

-- A request asks for a company, and no company of that identifier may serve it.
abbrev pub IsUnserved : TripRequest → Db → Type 0
IsUnserved row db =
    (j : ℕ) × (row.requested_company_id ≡ some j)
    × ((c : Company)
        → In c db.companies
        → c.company_id ≡ j
        → c.municipality_id ≡ row.municipality_id
        → c.active ≡ true
        → ¬ In row.service_type c.service_types)

-- The winner that the loser of a race names, or the error as it is where there is none any more.
abbrev pub Lost : Meanwhile → TripRequest → Db → Type 0
Lost m row db =
    ((w : TripRequest) × (is_active_of row.passenger_id w ≡ true)
      × (listed_in (m.later db).trips w ≡ true)
      × (insert_trip_request m row db ≡ (err (active_trip_request_exists w), m.later db)))
    ⊎ ((any (is_active_of row.passenger_id) (m.later db).trips ≡ false)
        × (insert_trip_request m row db ≡ (err database, m.later db)))

served :
    (row : TripRequest) (db : Db) → is_requested_company_rejected row db ≡ false → IsServed row db
served row db h j e =
    let kept : not (any (serves row j) db.companies) ≡ false = rw e at h in
    let (c, m, q) = any-In (serves row j) db.companies (ground (arith, kept)) in
    let (has, n, same_service) =
      any-In (λ has. has == row.service_type) c.service_types (ground (arith, q)) in
    (
      c,
      m,
      ==→eq c.company_id j (ground (arith, q)),
      ==→eq c.municipality_id row.municipality_id (ground (arith, q)),
      ground (arith, q),
      subst (λ z. In z c.service_types) (==→eq has row.service_type same_service) n,
    )

unserved :
    (row : TripRequest) (db : Db) → is_requested_company_rejected row db ≡ true → IsUnserved row db
unserved row db h = elim (Option-cases row.requested_company_id) [
  | inl e ↦ cc (rw e at h)
  | inr (j, e) ↦
      let turned : not (any (serves row j) db.companies) ≡ true = rw e at h in
      (
        j,
        e,
        λ c m own town active offers.
            let offered : any (λ has. has == row.service_type) c.service_types ≡ true =
              In-any (λ has. has == row.service_type) c.service_types row.service_type offers
                (==_refl row.service_type) in
            let there : serves row j c ≡ true =
              rw (own, town, active, offered, ==_refl j, ==_refl row.municipality_id) in
            let some_serves = In-any (serves row j) db.companies c m there in
            absurd (ground (arith, turned, some_serves)),
      )
]

-- The loser of a race.
lost :
    (m : Meanwhile) (row : TripRequest) (db : Db)
    → m.fails ≡ false
    → create_trip_request row db ≡ thrown unique_violation
    → Lost m row db
unfolding insert_trip_request find_active_trip_request
lost m row db goes stopped =
    let p = is_active_of row.passenger_id in
    let told : insert_trip_request m row db
        ≡ (err (winner_or (latest (filter p (m.later db).trips))), m.later db) =
      rw goes (ap (insertion m row db) stopped) in
    elim (Bool-cases (any p (m.later db).trips)) [
      | inr e ↦
          let none_there : latest (filter p (m.later db).trips) ≡ none =
            ap latest (filter-none p (m.later db).trips e) in
          inr (e, told ∙ ap (λ o. (err (winner_or o), m.later db)) none_there)
      | inl e ↦
          let (w, q) = latest_found p (m.later db).trips e in
          let (yes', in') = latest_in p (m.later db).trips w q in
          inl (w, yes', in', told ∙ ap (λ o. (err (winner_or o), m.later db)) q)
    ]

-- What an insertion answers, in every case. The database fails: nothing is written. The request asks
-- for a company and no company of that identifier is active in the municipality with the service: it
-- is told that the company is not available. Otherwise, where the passenger has no active request, the
-- row is added; where there is one, nothing is written, and the answer names a listed active request
-- of the passenger, by then, or is the violation itself if there is none any more.
pub insert_trip_request_lem :
    (m : Meanwhile) (row : TripRequest) (db : Db)
    → ((m.fails ≡ true) × (insert_trip_request m row db ≡ (err database, db)))
      ⊎ (((m.fails ≡ false)
            × IsUnserved row db
            × (insert_trip_request m row db ≡ (err company_not_available, db)))
          ⊎ (((m.fails ≡ false)
                × IsServed row db
                × (any (is_active_of row.passenger_id) db.trips ≡ false)
                × (insert_trip_request m row db
                    ≡ (ok row, record db { trips = db.trips ++ row ∷ [] })))
              ⊎ ((m.fails ≡ false)
                  × IsServed row db
                  × (any (is_active_of row.passenger_id) db.trips ≡ true)
                  × Lost m row db)))
unfolding insert_trip_request create_trip_request
insert_trip_request_lem m row db = elim (Bool-cases m.fails) [
  | inl f ↦ inl (f, rw f)
  | inr f ↦ elim (Bool-cases (is_requested_company_rejected row db)) [
    | inl e ↦
        let stopped : create_trip_request row db ≡ thrown requested_company_rejected = rw e in
        inr (inl (f, unserved row db e, rw f (ap (insertion m row db) stopped)))
    | inr e ↦ elim (Bool-cases (any (is_active_of row.passenger_id) db.trips)) [
      | inr free ↦
          let added : create_trip_request row db
              ≡ done row (record db { trips = db.trips ++ row ∷ [] }) =
            rw (e, free) in
          inr (inr (inl (f, served row db e, free, rw f (ap (insertion m row db) added))))
      | inl taken ↦
          let stopped : create_trip_request row db ≡ thrown unique_violation = rw (e, taken) in
          inr (inr (inr (f, served row db e, taken, lost m row db f stopped)))
    ]
  ]
]
