-- ===== src/ServiceConfig/Fares.antt =====
-- apps/api/src/modules/service-config/platform-fare.service.ts: the update of a fare. The next
-- identifier, the start of the transaction and whether the database ends it by a deadlock are
-- arguments.
use voyya_backend.Prelude.{
  Result, ok, err, ℕ, String, Bool, not, Option, none, some, List, ◌==◌, if◌then◌else◌, is_none,
  find,
}
use voyya_backend.ServiceConfig.Versions.{platform_edit}
use voyya_backend.ServiceConfig.Tables.{
  MunicipalityService, MunicipalityFareRow, Tables, ConfigError, service_not_available,
  municipality_not_found, fare_not_found, not_read_back, settings_conflict, Platform, conflict_with,
  company_key, service_key, NewFareVersion, current_fare, replace_open_fare,
}

pub record UpdateMunicipalityFare : Type 0 where
  pub version : ℕ
  pub base_fare : ℕ
  pub night_surcharge_pct : ℕ
  pub holiday_surcharge_pct : ℕ
  pub is_official : Bool
  pub official_reference : Option String

abbrev pub edited_fare : MunicipalityService → UpdateMunicipalityFare → ℕ → NewFareVersion
edited_fare key dto user = record {
  key = key;
  values = record {
    base_fare = dto.base_fare;
    night_surcharge_pct = dto.night_surcharge_pct;
    holiday_surcharge_pct = dto.holiday_surcharge_pct;
    is_official = dto.is_official;
    official_reference = if dto.is_official then dto.official_reference else none;
  };
  origin = platform_edit;
  origin_company_id = none;
  created_by = some user;
}

-- findById
abbrev pub fare_by_id : ℕ → List MunicipalityFareRow → Option MunicipalityFareRow
fare_by_id id fares = find (λ (f : MunicipalityFareRow). f.id == id) fares

abbrev pub fare_read_back :
    Tables
    → List MunicipalityFareRow
    → Option MunicipalityFareRow
    → Result ConfigError MunicipalityFareRow × Tables
fare_read_back t fares none = (err not_read_back, t)
fare_read_back t fares (some created) = (ok created, record t { fares = fares })

abbrev pub fare_written :
    Platform
    → MunicipalityService
    → Tables
    → List MunicipalityFareRow
    → Option ℕ
    → Result ConfigError MunicipalityFareRow × Tables
fare_written s key t fares none = (err (conflict_with s (current_fare key fares)), t)
fare_written s key t fares (some id) = fare_read_back t fares (fare_by_id id fares)

-- PlatformFareService.update
unfoldable pub update_fare :
    Platform
    → ℕ
    → ℕ
    → Bool
    → MunicipalityService
    → UpdateMunicipalityFare
    → ℕ
    → Tables
    → Result ConfigError MunicipalityFareRow × Tables
update_fare s id now deadlocks key dto user t =
    if not (s.active key.service_type)
    then (err service_not_available, t)
    else if not (s.municipality_exists key.municipality_id)
    then (err municipality_not_found, t)
    else if is_none (current_fare key t.fares)
    then (err fare_not_found, t)
    else if deadlocks
    then (err (settings_conflict none none), t)
    else let (new_id, fares) =
        replace_open_fare id now dto.version (edited_fare key dto user) t.fares in
      fare_written s key t fares new_id
