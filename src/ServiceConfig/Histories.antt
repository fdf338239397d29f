-- ===== src/ServiceConfig/Histories.antt =====
-- apps/api/src/modules/service-config: the histories of platform-commission.service.ts,
-- platform-fare.service.ts and platform-operational-params.service.ts, by pages.
use voyya_backend.Prelude.{Result, ok, err, ℕ, ◌+◌, not, Option, some, List, map, if◌then◌else◌}
use voyya_backend.ServiceConfig.Versions.{
  Version, VersionPage, find_current, list_versions, page_versions,
}
use voyya_backend.ServiceConfig.Tables.{
  MunicipalityService, FareValues, Tables, Platform, ConfigError, company_not_found,
  municipality_not_found, service_not_available, current_fare, list_fares, current_params,
  list_params, company_key,
}
use voyya_backend.ServiceConfig.Params.{OperationalNumbers, OperationalParamsSnapshot, resolve}

pub record CompanyCommissionHistory : Type 0 where
  pub current : Option (Version ℕ ℕ)
  pub page : VersionPage ℕ ℕ

-- PlatformCommissionService.history
unfoldable pub commission_history :
    Platform → ℕ → Option ℕ → ℕ → Tables → Result ConfigError CompanyCommissionHistory
unfolding list_versions page_versions
commission_history s company before limit t =
    if not (s.company_exists company)
    then err company_not_found
    else ok (record {
      current = find_current company t.commissions;
      page = page_versions (list_versions company before (limit + 1) t.commissions) limit;
    })

pub record MunicipalityFareHistory : Type 0 where
  pub current : Option (Version MunicipalityService FareValues)
  pub page : VersionPage MunicipalityService FareValues

-- PlatformFareService.history
unfoldable pub fare_history :
    Platform
    → MunicipalityService
    → Option ℕ
    → ℕ
    → Tables
    → Result ConfigError MunicipalityFareHistory
unfolding list_versions page_versions
fare_history s key before limit t =
    if not (s.active key.service_type)
    then err service_not_available
    else if not (s.municipality_exists key.municipality_id)
    then err municipality_not_found
    else ok (record {
      current = current_fare key t.fares;
      page = page_versions (list_fares key before (limit + 1) t.fares) limit;
    })

pub record OperationalParamsHistory : Type 0 where
  pub current : OperationalParamsSnapshot
  pub versions : List OperationalParamsSnapshot
  pub next_before : Option ℕ

-- PlatformOperationalParamsService.history
unfoldable pub params_history :
    Platform
    → OperationalNumbers
    → MunicipalityService
    → Option ℕ
    → ℕ
    → Tables
    → Result ConfigError OperationalParamsHistory
unfolding list_versions page_versions resolve
params_history s defaults key before limit t =
    let page = page_versions (list_params key before (limit + 1) t.params) limit in
    if not (s.active key.service_type)
    then err service_not_available
    else if not (s.municipality_exists key.municipality_id)
    then err municipality_not_found
    else ok (record {
      current = resolve defaults (current_params key t.params);
      versions = map (λ row. resolve defaults (some row)) page.versions;
      next_before = page.next_before;
    })
