-- ===== src/Trips/QuoteToCreate.antt =====
-- From a quote to a request, through `quote` and `create` of
-- apps/api/src/modules/trips/trips.service.ts.
use voyya_backend.Prelude.{
  sym, ok, ℕ, ◌+◌, ◌*◌, ◌/◌, ◌≤◌, String, ◌≡◌, ap, ◌∙◌, inl, inr, true, false, none, some, List,
  arith, ltb, ◌==◌, Bool-cases, ==_refl, length,
}
use voyya_backend.Prelude.Int.{ℤ, ◌-ℤ◌}
use voyya_backend.Db.Rows.{Db}
use voyya_backend.Trips.Repository.{find_active_trip_request, new_trip_request}
use voyya_backend.Trips.Fare.{FareBreakdown, MunicipalityFareRow, calculate_fare, to_fare_params}
use voyya_backend.Trips.QuoteToken.{payload_at, Point, Quote, valid, sign, verify, verify-sign}
use voyya_backend.Tenancy.DispatchCompanies.{resolve, has_id}
use voyya_backend.Trips.Create.{
  Meanwhile, Environment, QuoteFare, CreateTripRequest, quote, create, create_with, create_unless,
  quote_at, in_coverage, any_company, token_matches, close_to, almost_equal, insert_trip_request,
}

almost_equal_refl : (a : ℤ) → almost_equal a a ≡ true
unfolding ◌-ℤ◌
almost_equal_refl a = ground arith

close_to_refl : (a : Point) → close_to a a ≡ true
close_to_refl a = rw (almost_equal_refl a.lat, almost_equal_refl a.lng)

abbrev pub quoted_for : QuoteFare → ℕ → FareBreakdown → Quote
quoted_for dto fare_id fare = record {
  municipality_id = dto.municipality_id;
  municipality_fare_id = fare_id;
  service_type = dto.service_type;
  origin = dto.origin;
  destination = dto.destination;
  fare = fare;
}

quoted_for_matches :
    (dto : QuoteFare) (fare_id : ℕ) (fare : FareBreakdown)
    → token_matches (quoted_for dto fare_id fare) dto ≡ true
quoted_for_matches dto fare_id fare = rw (
  ==_refl dto.municipality_id,
  ==_refl dto.service_type,
  close_to_refl dto.origin,
  close_to_refl dto.destination,
)

-- A quote that is given has passed the catalog and the coverage.
quote_inv :
    (env : Environment) (clock : ℕ) (dto : QuoteFare) (db : Db) (fare_id : ℕ)
    (config : MunicipalityFareRow) (fare : FareBreakdown) (token : List String)
    → env.current_fare dto.municipality_id dto.service_type ≡ some (fare_id, config)
    → quote env clock dto db ≡ ok (fare, token)
    → (has_id dto.service_type env.active_service_types ≡ true)
      × (in_coverage env dto ≡ true)
      × (fare ≡ calculate_fare (to_fare_params config) clock env.calendar)
      × (token ≡ sign env.codec env.ttl clock (quoted_for dto fare_id fare))
unfolding quote
quote_inv env clock dto db fare_id config fare token current h =
    elim (Bool-cases (has_id dto.service_type env.active_service_types)) [
      | inr e ↦ cc (rw e at h)
      | inl e ↦ elim (Bool-cases (in_coverage env dto)) [
        | inr c ↦ cc (rw (e, c) at h)
        | inl c ↦
            elim (Bool-cases (length (resolve dto.municipality_id (any_company dto) db) == 0)) [
              | inl n ↦ cc (rw (e, c, n) at h)
              | inr n ↦
                  let given : quote_at env clock dto (some (fare_id, config)) ≡ ok (fare, token) =
                    rw (e, c, n, current) at h in
                  let q : calculate_fare (to_fare_params config) clock env.calendar ≡ fare = cc in
                  let signed : sign env.codec env.ttl clock (
                        quoted_for dto fare_id
                          (calculate_fare (to_fare_params config) clock env.calendar))
                      ≡ token =
                    cc in
                  (
                    e,
                    c,
                    sym q,
                    sym signed
                        ∙ ap (λ f. sign env.codec env.ttl clock (quoted_for dto fare_id f)) q,
                  )
            ]
      ]
    ]

-- Where the codec decodes the quote's payload as it was encoded: a quote that has been given at the
-- municipality's current fare, presented for the same trip while it is valid by a passenger with no
-- active request, for no company in particular, gets as far as the insertion of a request with the
-- fare that was quoted, whatever other transactions do in between and after.
pub create-quote :
    (env : Environment) (clock clock' now k passenger fare_id : ℕ) (dto : QuoteFare)
    (config : MunicipalityFareRow) (db db' : Db) (m : Meanwhile) (fare : FareBreakdown)
    (token : List String)
    → let payload = payload_at env.ttl clock (quoted_for dto fare_id fare) in
      env.codec.decode (env.codec.encode payload) ≡ some payload
      → env.current_fare dto.municipality_id dto.service_type ≡ some (fare_id, config)
      → quote env clock dto db ≡ ok (fare, token)
      → clock' ≤ (clock / 1000 + env.ttl) * 1000
      → find_active_trip_request passenger db' ≡ none
      → (fare ≡ calculate_fare (to_fare_params config) clock env.calendar)
        × (create env clock' now k passenger
              (record { quote_token = token; asked = dto; requested_company_id = none })
              m
              db'
            ≡ insert_trip_request m
                (new_trip_request k passenger dto.municipality_id dto.service_type now fare.total
                  none)
                (m.between db'))
unfolding create
create-quote env clock clock' now k passenger fare_id dto config db db' m fare token round current
      quoted in_time no_active =
    let (active, covered, at_fare, signed) =
      quote_inv env clock dto db fare_id config fare token current quoted in
    let request : CreateTripRequest = record {
      quote_token = token;
      asked = dto;
      requested_company_id = none;
    } in
    let payload = payload_at env.ttl clock (quoted_for dto fare_id fare) in
    let not_late : ltb ((clock / 1000 + env.ttl) * 1000) clock' ≡ false = ground arith in
    let verified : verify env.codec clock' token ≡ valid payload =
      ap (verify env.codec clock') signed
      ∙ verify-sign env.codec env.ttl clock clock' (quoted_for dto fare_id fare) round
      ∙ (rw not_late) in
    let row =
      new_trip_request k passenger dto.municipality_id dto.service_type now fare.total none in
    let passes : create_with env now k passenger request m db' (valid payload)
        ≡ create_unless (find_active_trip_request passenger db') row db' m =
      rw (quoted_for_matches dto fare_id fare, covered) in
    (
      at_fare,
      (rw active)
          ∙ ap (create_with env now k passenger request m db') verified
          ∙ passes
          ∙ ap (λ o. create_unless o row db' m) no_active,
    )
