-- ===== src/Trips/Fare.antt =====
-- apps/api/src/modules/trips/domain/fare.calculator.ts, and what
-- apps/api/src/modules/trips/trips.service.ts makes of a stored fare. Money is whole pesos but for
-- the configured base fare, which is hundredths of a peso; percentages are hundredths, and
-- are taken in doubles. The clock of
-- Bogota and the holidays are parameters.
use voyya_backend.Prelude.{
  ℕ, ◌+◌, ◌/◌, ◌≡◌, refl, Bool, ◌||◌, Option, none, some, arith, ltb, leb, ◌==◌, if◌then◌else◌, sym,
  ◌∙◌, inl, inr, Bool-cases, ==→eq, ap,
}
use voyya_backend.Db.Rows.{TripRequest}
use voyya_backend.Trips.Double.{whole, hundredths, times, over, math_round}

pub record Calendar : Type 0 where
  pub hour_in_bogota : ℕ → ℕ
  pub is_sunday_in_bogota : ℕ → Bool
  pub is_listed_holiday : ℕ → Bool

pub record FareParams : Type 0 where
  pub base_fare : ℕ
  pub night_surcharge_pct : ℕ
  pub holiday_surcharge_pct : ℕ
  pub commission_pct : ℕ

pub record FareBreakdown : Type 0 where
  pub base_fare : ℕ
  pub night_surcharge : ℕ
  pub holiday_surcharge : ℕ
  pub total : ℕ
  pub commission : ℕ

abbrev pub night_start_hour : ℕ
night_start_hour = 21

abbrev pub night_end_hour : ℕ
night_end_hour = 5

abbrev pub is_night_time : Calendar → ℕ → Bool
is_night_time calendar date =
    let hour = calendar.hour_in_bogota date in leb night_start_hour hour || ltb hour night_end_hour

abbrev pub is_holiday : Calendar → ℕ → Bool
is_holiday calendar date = calendar.is_sunday_in_bogota date || calendar.is_listed_holiday date

-- Math.round((base * pct) / 100), in doubles
unfoldable pub percentage : ℕ → ℕ → ℕ
percentage base pct = math_round (over (times (whole base) (hundredths pct)) (whole 100))

unfoldable pub calculate_fare : FareParams → ℕ → Calendar → FareBreakdown
unfolding percentage
calculate_fare params date calendar =
    let base = (params.base_fare + 50) / 100 in
    let night =
      if is_night_time calendar date then percentage base params.night_surcharge_pct else 0 in
    let holiday =
      if is_holiday calendar date then percentage base params.holiday_surcharge_pct else 0 in
    let total = base + night + holiday in
    record {
      base_fare = base;
      night_surcharge = night;
      holiday_surcharge = holiday;
      total = total;
      commission = percentage total params.commission_pct;
    }

-- The row of a municipality's fare.
pub record MunicipalityFareRow : Type 0 where
  pub base_fare : ℕ
  pub night_surcharge_pct : ℕ
  pub holiday_surcharge_pct : ℕ

abbrev pub to_fare_params : MunicipalityFareRow → FareParams
to_fare_params config = record {
  base_fare = config.base_fare;
  night_surcharge_pct = config.night_surcharge_pct;
  holiday_surcharge_pct = config.holiday_surcharge_pct;
  commission_pct = 0;
}

abbrev flat_fare : ℕ → FareBreakdown
flat_fare total = record {
  base_fare = total;
  night_surcharge = 0;
  holiday_surcharge = 0;
  total = total;
  commission = 0;
}

-- rebuildFare, given the fare row that the trip names, if it names one that is found.
unfoldable pub rebuild_fare : Calendar → Option MunicipalityFareRow → TripRequest → FareBreakdown
rebuild_fare calendar none t = flat_fare t.fare
rebuild_fare calendar (some config) t =
    let rebuilt = calculate_fare (to_fare_params config) t.requested_at calendar in
    if rebuilt.total == t.fare then rebuilt else flat_fare t.fare

calculate_fare-total :
    (params : FareParams) (date : ℕ) (calendar : Calendar)
    → let fare = calculate_fare params date calendar in
      fare.total ≡ fare.base_fare + fare.night_surcharge + fare.holiday_surcharge
unfolding calculate_fare
calculate_fare-total params date calendar = refl

-- The breakdown that a passenger sees of a stored trip adds up to the fare of the trip, whatever
-- has become of the municipality's fare; and it is the one that the fare row of the trip gives at the
-- instant of the request, where that comes to the fare of the trip.
pub rebuild_fare_lem :
    (calendar : Calendar) (config : Option MunicipalityFareRow) (t : TripRequest)
    → let fare = rebuild_fare calendar config t in
      (fare.total ≡ t.fare)
      × (fare.base_fare + fare.night_surcharge + fare.holiday_surcharge ≡ t.fare)
      × ((row : MunicipalityFareRow)
          → config ≡ some row
          → (calculate_fare (to_fare_params row) t.requested_at calendar).total ≡ t.fare
          → fare ≡ calculate_fare (to_fare_params row) t.requested_at calendar)
unfolding rebuild_fare
rebuild_fare_lem calendar none t = (refl, omega arith, λ row e h. cc)
rebuild_fare_lem calendar (some config) t =
    let rebuilt = calculate_fare (to_fare_params config) t.requested_at calendar in
    elim (Bool-cases (rebuilt.total == t.fare)) [
      | inl e ↦
          let same_total = ==→eq rebuilt.total t.fare e in
          rw e (
            same_total,
            sym (calculate_fare-total (to_fare_params config) t.requested_at calendar) ∙ same_total,
            λ row q h. same_config config row q,
          )
      | inr e ↦ rw e (
        refl,
        omega arith,
        λ row q h.
            let q' : config ≡ row = cc in
            let total : rebuilt.total ≡ t.fare = rw q' h in absurd (ground (arith, total, e)),
      )
    ]
  where
    same_config :
        (config row : MunicipalityFareRow)
        → some config ≡ some row
        → calculate_fare (to_fare_params config) t.requested_at calendar
          ≡ calculate_fare (to_fare_params row) t.requested_at calendar
    same_config config row q =
        let q' : config ≡ row = cc in
        ap (λ c. calculate_fare (to_fare_params c) t.requested_at calendar) q'
