-- ===== src/ServiceConfig/Provisioner.antt =====
-- apps/api/src/modules/service-config/service-config-provisioner.ts: what the approval of a company
-- writes, in the transaction of the approval. `between` stands for what others commit between a read
-- and the write that follows it; an error ends the transaction.
pub mod Current
pub mod Approval
pub mod Same
use voyya_backend.Prelude.{
  not→false, &&→right, find-In, In, All-In, All-of, All-map, All-filter, All-++, In-filter,
  filter-In, In-length, any-In, In-map, map-In, Result, ok, err, ℕ, zero, suc, ◌+◌, ◌-◌, ◌*◌, ◌/◌,
  ◌%◌, ◌≤◌, ◌<◌, compare, Ordering, min, max, String, str_eq, eq_iff, ◌≡◌, refl, sym, ap, ap₂, ◌∙◌,
  subst, ◌≢◌, ◌↔◌, ◌⊎◌, inl, inr, Bool, true, false, not, ◌&&◌, ◌||◌, Option, none, some, List, [],
  ◌∷◌, ◌++◌, map, arith, ltb, leb, ◌==◌, if◌then◌else◌, is_none, is_some, or_else, Bool-cases,
  Option-cases, ltb→lt, lt→ltb, leb→le, le→leb, ==→eq, ==_refl, length, length-append, find, filter,
  update_where, any, count, All, Rowwise, All-update_where, Rowwise-update_where, any-eq_false,
  All-find, Rowwise-refl, Rowwise-trans, find-update_where, keep, find-and, count-update_where,
  update_where-none, any-find,
}
use voyya_backend.ServiceConfig.Versions.{
  NewVersion, company_approval, find_current, replace_open_version, insert_if_no_open_version,
}
use voyya_backend.ServiceConfig.Tables.{
  ServiceType, rank, MunicipalityService, FareValues, OperationalValues, MunicipalityFareRow,
  CompanyCommissionRow, Tables, ConfigError, municipality_fare_required, commission_not_written,
  company_key, service_key, NewCompanyCommissionVersion, NewFareVersion,
  NewOperationalParamsVersion, current_fare, insert_first_fare, insert_first_params,
}
use voyya_backend.ServiceConfig.Params.{no_values}

abbrev pub default_night_surcharge_pct : ℕ
default_night_surcharge_pct = 2000

abbrev pub default_holiday_surcharge_pct : ℕ
default_holiday_surcharge_pct = 1500

pub record InitialMunicipalityFare : Type 0 where
  pub base_fare : ℕ
  pub night_surcharge_pct : Option ℕ
  pub holiday_surcharge_pct : Option ℕ

pub record EnsureForApproval : Type 0 where
  pub company_id : ℕ
  pub municipality_id : ℕ
  pub service_types : List ServiceType
  pub initial_fare : Option InitialMunicipalityFare
  pub commission_pct : ℕ
  pub created_by : Option ℕ

pub record ProvisionedMunicipalityFare : Type 0 where
  pub service_type : ServiceType
  pub municipality_fare_id : ℕ
  pub created : Bool

pub record ProvisionedServiceConfig : Type 0 where
  pub municipality_fares : List ProvisionedMunicipalityFare
  pub company_commission_id : ℕ

-- What the sequences give, the start of the transaction, and what others do.
pub record Approving : Type 0 where
  pub fare_id : ServiceType → ℕ
  pub params_id : ServiceType → ℕ
  pub commission_id : ℕ
  pub now : ℕ
  pub between : Tables → Tables

abbrev pub insert_service : ServiceType → List ServiceType → List ServiceType
insert_service s [] = s ∷ []
insert_service s (x ∷ xs) =
    let rest = insert_service s xs in if ltb (rank x) (rank s) then x ∷ rest else s ∷ x ∷ xs

-- `[...serviceTypes].sort()`
abbrev pub sort_services : List ServiceType → List ServiceType
sort_services [] = []
sort_services (s ∷ ss) = insert_service s (sort_services ss)

abbrev pub service_of : EnsureForApproval → ServiceType → MunicipalityService
service_of input service = record {
  municipality_id = input.municipality_id;
  service_type = service;
}

abbrev pub first_fare : EnsureForApproval → ServiceType → InitialMunicipalityFare → NewFareVersion
first_fare input service fare = record {
  key = service_of input service;
  values = record {
    base_fare = fare.base_fare;
    night_surcharge_pct = or_else fare.night_surcharge_pct default_night_surcharge_pct;
    holiday_surcharge_pct = or_else fare.holiday_surcharge_pct default_holiday_surcharge_pct;
    is_official = false;
    official_reference = none;
  };
  origin = company_approval;
  origin_company_id = some input.company_id;
  created_by = input.created_by;
}

abbrev pub Step : Type 0 → Type 0
Step A = Result ConfigError (A × Tables)

abbrev pub winner_fare :
    ServiceType → Tables → Option MunicipalityFareRow → Step ProvisionedMunicipalityFare
winner_fare service t none = err municipality_fare_required
winner_fare service t (some winner) =
    ok (record { service_type = service; municipality_fare_id = winner.id; created = false }, t)

abbrev pub inserted_fare :
    EnsureForApproval → ServiceType → Tables → Option ℕ → Step ProvisionedMunicipalityFare
inserted_fare input service t none =
    winner_fare service t (current_fare (service_of input service) t.fares)
inserted_fare input service t (some id) =
    ok (record { service_type = service; municipality_fare_id = id; created = true }, t)

abbrev pub insert_fare :
    Approving
    → EnsureForApproval
    → ServiceType
    → Tables
    → Option InitialMunicipalityFare
    → Step ProvisionedMunicipalityFare
insert_fare a input service t none = err municipality_fare_required
insert_fare a input service t (some fare) =
    let (inserted, fares) =
      insert_first_fare (a.fare_id service) a.now (first_fare input service fare) t.fares in
    inserted_fare input service (record t { fares = fares }) inserted

-- ensureFare
abbrev pub existing_fare :
    Approving
    → EnsureForApproval
    → ServiceType
    → Tables
    → Option MunicipalityFareRow
    → Step ProvisionedMunicipalityFare
existing_fare a input service t none = insert_fare a input service (a.between t) input.initial_fare
existing_fare a input service t (some existing) =
    ok (record { service_type = service; municipality_fare_id = existing.id; created = false }, t)

unfoldable pub ensure_fare :
    Approving → EnsureForApproval → ServiceType → Tables → Step ProvisionedMunicipalityFare
ensure_fare a input service t =
    existing_fare a input service t (current_fare (service_of input service) t.fares)

-- PLATFORM_DEFAULT_PARAMS, for the company that is approved
abbrev pub first_params : EnsureForApproval → ServiceType → NewOperationalParamsVersion
first_params input service = record {
  key = service_of input service;
  values = no_values;
  origin = company_approval;
  origin_company_id = some input.company_id;
  created_by = input.created_by;
}

-- ensureParams
unfoldable pub ensure_params : Approving → EnsureForApproval → ServiceType → Tables → Tables
ensure_params a input service t = record t {
  params =
      (insert_first_params (a.params_id service) a.now (first_params input service) t.params).1;
}

abbrev pub first_commission : EnsureForApproval → NewCompanyCommissionVersion
first_commission input = record {
  key = input.company_id;
  values = input.commission_pct;
  origin = company_approval;
  origin_company_id = none;
  created_by = input.created_by;
}

abbrev pub written_commission : Tables → Option ℕ × List CompanyCommissionRow → Step ℕ
written_commission t (none, versions) = err commission_not_written
written_commission t (some id, versions) = ok (id, record t { commissions = versions })

abbrev pub write_commission :
    Approving
    → EnsureForApproval
    → Tables
    → Option CompanyCommissionRow
    → Option ℕ × List CompanyCommissionRow
write_commission a input t none =
    insert_if_no_open_version a.commission_id a.now (first_commission input) t.commissions
write_commission a input t (some current) =
    replace_open_version a.commission_id a.now current.id (first_commission input) t.commissions

-- ensureCommission
unfoldable pub ensure_commission : Approving → EnsureForApproval → Tables → Step ℕ
ensure_commission a input t =
    let current = find_current input.company_id t.commissions in
    written_commission (a.between t) (write_commission a input (a.between t) current)

infixl 5 ◌>>=◌
abbrev pub ◌>>=◌ : {A B : Type 0} → Step A → (A × Tables → Step B) → Step B
err e >>= f = err e
ok r >>= f = f r

-- The loop over the services
unfoldable pub ensure_services :
    Approving
    → EnsureForApproval
    → List ServiceType
    → Tables
    → Step (List ProvisionedMunicipalityFare)
unfolding ensure_fare ensure_params
ensure_services a input [] t = ok ([], t)
ensure_services a input (s ∷ ss) t = do
  (fare, t1) ← ensure_fare a input s t
  (rest, t2) ← ensure_services a input ss (ensure_params a input s t1)
  ok (fare ∷ rest, t2)

-- ensureForApproval
unfoldable pub ensure_for_approval :
    Approving → EnsureForApproval → Tables → Step ProvisionedServiceConfig
unfolding ensure_services ensure_commission
ensure_for_approval a input t = do
  (fares, t1) ← ensure_services a input (sort_services input.service_types) t
  (id, t2) ← ensure_commission a input t1
  ok (record { municipality_fares = fares; company_commission_id = id }, t2)
