-- ===== src/ServiceConfig/Commissions.antt =====
-- apps/api/src/modules/service-config/platform-commission.service.ts: the update of a commission.
-- `id` is the next identifier, `now` the start of the transaction; `deadlocks` says that the database
-- ends it by a deadlock.
pub mod Once
use voyya_backend.Prelude.{
  not→false, &&→right, find-In, In, All-In, All-of, All-map, All-filter, All-++, In-filter,
  filter-In, In-length, any-In, In-map, map-In, Result, ok, err, ℕ, zero, suc, ◌+◌, ◌-◌, ◌*◌, ◌/◌,
  ◌%◌, ◌≤◌, ◌<◌, compare, Ordering, min, max, String, str_eq, eq_iff, ◌≡◌, refl, sym, ap, ap₂, ◌∙◌,
  subst, ◌≢◌, ◌↔◌, ◌⊎◌, inl, inr, Bool, true, false, not, ◌&&◌, ◌||◌, Option, none, some, List, [],
  ◌∷◌, ◌++◌, map, arith, ltb, leb, ◌==◌, if◌then◌else◌, is_none, is_some, or_else, Bool-cases,
  Option-cases, ltb→lt, lt→ltb, leb→le, le→leb, ==→eq, ==_refl, length, length-append, find, filter,
  update_where, any, count, All, Rowwise, All-update_where, Rowwise-update_where, any-eq_false,
  All-find, Rowwise-refl, Rowwise-trans, find-update_where, keep, find-and, count-update_where,
  update_where-none, any-find,
}
use voyya_backend.ServiceConfig.Versions.{
  Key, Version, NewVersion, platform_edit, find_current, replace_open_version,
  insert_if_no_open_version,
}
use voyya_backend.ServiceConfig.Tables.{
  ServiceType, MunicipalityService, FareValues, OperationalValues, CompanyCommissionRow,
  MunicipalityFareRow, OperationalParamsRow, Tables, ConfigError, service_not_available,
  municipality_not_found, company_not_found, fare_not_found, not_read_back, settings_conflict,
  Platform, conflict_with, company_key, service_key, NewCompanyCommissionVersion, NewFareVersion,
  NewOperationalParamsVersion, current_fare, current_params, insert_first_params, replace_open_fare,
  replace_open_params,
}

pub record UpdateCompanyCommission : Type 0 where
  pub version : Option ℕ
  pub commission_pct : ℕ

abbrev pub edited_commission : ℕ → UpdateCompanyCommission → ℕ → NewCompanyCommissionVersion
edited_commission company dto user = record {
  key = company;
  values = dto.commission_pct;
  origin = platform_edit;
  origin_company_id = none;
  created_by = some user;
}

-- The first version of the company, or the next after the one that is expected.
abbrev pub write_commission_version :
    ℕ
    → ℕ
    → Option ℕ
    → NewCompanyCommissionVersion
    → List CompanyCommissionRow
    → Option ℕ × List CompanyCommissionRow
write_commission_version id now none next commissions =
    insert_if_no_open_version id now next commissions
write_commission_version id now (some version) next commissions =
    replace_open_version id now version next commissions

-- `newId === null || !latest`
abbrev pub commission_written :
    Platform
    → Tables
    → List CompanyCommissionRow
    → Option ℕ
    → Option CompanyCommissionRow
    → Result ConfigError CompanyCommissionRow × Tables
commission_written s t versions none latest = (err (conflict_with s latest), t)
commission_written s t versions (some id) none = (err (settings_conflict none none), t)
commission_written s t versions (some id) (some latest) =
    (ok latest, record t { commissions = versions })

-- PlatformCommissionService.update
unfoldable pub update_commission :
    Platform
    → ℕ
    → ℕ
    → Bool
    → ℕ
    → UpdateCompanyCommission
    → ℕ
    → Tables
    → Result ConfigError CompanyCommissionRow × Tables
update_commission s id now deadlocks company dto user t =
    if not (s.company_exists company)
    then (err company_not_found, t)
    else if deadlocks
    then (err (settings_conflict none none), t)
    else let (new_id, versions) =
        write_commission_version id now dto.version (edited_commission company dto user)
          t.commissions in
      commission_written s t versions new_id (find_current company versions)
