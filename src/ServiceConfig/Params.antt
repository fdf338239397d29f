-- ===== src/ServiceConfig/Params.antt =====
-- apps/api/src/modules/service-config/operational-params.service.ts, the values that hold, and
-- platform-operational-params.service.ts, their update: the next identifier, the start of the transaction
-- and whether the database ends it by a deadlock are arguments.
pub mod Edited
use voyya_backend.Prelude.{
  Result, ok, err, ℕ, Bool, not, Option, none, some, List, [], ◌∷◌, if◌then◌else◌, is_none, or_else,
  filter, not→false, &&→right, find-In, In, All-In, All-of, All-map, All-filter, All-++, In-filter,
  filter-In, In-length, any-In, In-map, map-In, zero, suc, ◌+◌, ◌-◌, ◌*◌, ◌/◌, ◌%◌, ◌≤◌, ◌<◌,
  compare, Ordering, min, max, String, str_eq, eq_iff, ◌≡◌, refl, sym, ap, ap₂, ◌∙◌, subst, ◌≢◌,
  ◌↔◌, ◌⊎◌, inl, inr, true, false, ◌&&◌, ◌||◌, ◌++◌, map, arith, ltb, leb, ◌==◌, is_some,
  Bool-cases, Option-cases, ltb→lt, lt→ltb, leb→le, le→leb, ==→eq, ==_refl, length, length-append,
  find, update_where, any, count, All, Rowwise, All-update_where, Rowwise-update_where,
  any-eq_false, All-find, Rowwise-refl, Rowwise-trans, find-update_where, keep, find-and,
  count-update_where, update_where-none, any-find,
}
use voyya_backend.ServiceConfig.Versions.{platform_edit}
use voyya_backend.ServiceConfig.Tables.{
  MunicipalityService, OperationalValues, OperationalParamsRow, Tables, ConfigError,
  service_not_available, municipality_not_found, settings_conflict, Platform, conflict_with,
  company_key, service_key, NewOperationalParamsVersion, current_params, insert_first_params,
  replace_open_params,
}

-- The numbers that hold for a municipality and a service; platformDefaults has them from the
-- environment.
pub record OperationalNumbers : Type 0 where
  pub search_radius_km : ℕ
  pub expansion_radius_km : ℕ
  pub acceptance_timeout_sec : ℕ
  pub max_auto_retries : ℕ
  pub tiebreak_window_hours : ℕ
  pub location_stale_min : ℕ
  pub avg_speed_kmh : ℕ
  pub cancellation_window_min : ℕ
  pub no_show_grace_min : ℕ

-- OPERATIONAL_PARAM_KEYS
pub data OperationalParamKey : Type 0 where
  search_radius_km : OperationalParamKey
  expansion_radius_km : OperationalParamKey
  acceptance_timeout_sec : OperationalParamKey
  max_auto_retries : OperationalParamKey
  tiebreak_window_hours : OperationalParamKey
  location_stale_min : OperationalParamKey
  avg_speed_kmh : OperationalParamKey
  cancellation_window_min : OperationalParamKey
  no_show_grace_min : OperationalParamKey

abbrev pub operational_param_keys : List OperationalParamKey
operational_param_keys =
    OperationalParamKey.search_radius_km ∷ OperationalParamKey.expansion_radius_km
    ∷ OperationalParamKey.acceptance_timeout_sec ∷ OperationalParamKey.max_auto_retries
    ∷ OperationalParamKey.tiebreak_window_hours ∷ OperationalParamKey.location_stale_min
    ∷ OperationalParamKey.avg_speed_kmh ∷ OperationalParamKey.cancellation_window_min
    ∷ OperationalParamKey.no_show_grace_min ∷ []

abbrev pub stored : OperationalValues → OperationalParamKey → Option ℕ
stored v OperationalParamKey.search_radius_km = v.search_radius_km
stored v OperationalParamKey.expansion_radius_km = v.expansion_radius_km
stored v OperationalParamKey.acceptance_timeout_sec = v.acceptance_timeout_sec
stored v OperationalParamKey.max_auto_retries = v.max_auto_retries
stored v OperationalParamKey.tiebreak_window_hours = v.tiebreak_window_hours
stored v OperationalParamKey.location_stale_min = v.location_stale_min
stored v OperationalParamKey.avg_speed_kmh = v.avg_speed_kmh
stored v OperationalParamKey.cancellation_window_min = v.cancellation_window_min
stored v OperationalParamKey.no_show_grace_min = v.no_show_grace_min

abbrev pub no_values : OperationalValues
no_values = record {
  search_radius_km = none;
  expansion_radius_km = none;
  acceptance_timeout_sec = none;
  max_auto_retries = none;
  tiebreak_window_hours = none;
  location_stale_min = none;
  avg_speed_kmh = none;
  cancellation_window_min = none;
  no_show_grace_min = none;
}

abbrev pub values_of : Option OperationalParamsRow → OperationalValues
values_of none = no_values
values_of (some row) = row.values

pub record OperationalParamsSnapshot : Type 0 where
  pub params : OperationalNumbers
  pub platform_default_keys : List OperationalParamKey
  pub row : Option OperationalParamsRow

-- OperationalParamsService.resolve
unfoldable pub resolve :
    OperationalNumbers → Option OperationalParamsRow → OperationalParamsSnapshot
resolve defaults row =
    let v = values_of row in
    record {
      params = record {
        search_radius_km = or_else v.search_radius_km defaults.search_radius_km;
        expansion_radius_km = or_else v.expansion_radius_km defaults.expansion_radius_km;
        acceptance_timeout_sec = or_else v.acceptance_timeout_sec defaults.acceptance_timeout_sec;
        max_auto_retries = or_else v.max_auto_retries defaults.max_auto_retries;
        tiebreak_window_hours = or_else v.tiebreak_window_hours defaults.tiebreak_window_hours;
        location_stale_min = or_else v.location_stale_min defaults.location_stale_min;
        avg_speed_kmh = or_else v.avg_speed_kmh defaults.avg_speed_kmh;
        cancellation_window_min =
            or_else v.cancellation_window_min defaults.cancellation_window_min;
        no_show_grace_min = or_else v.no_show_grace_min defaults.no_show_grace_min;
      };
      platform_default_keys = filter (λ key. is_none (stored v key)) operational_param_keys;
      row = row;
    }

-- OperationalParamsService.snapshot
abbrev pub snapshot :
    OperationalNumbers → MunicipalityService → List OperationalParamsRow → OperationalParamsSnapshot
unfolding resolve
snapshot defaults key params = resolve defaults (current_params key params)

pub record UpdateOperationalParams : Type 0 where
  pub version : Option ℕ
  pub values : OperationalNumbers

-- pickValues
abbrev pub pick_values : OperationalNumbers → OperationalValues
pick_values n = record {
  search_radius_km = some n.search_radius_km;
  expansion_radius_km = some n.expansion_radius_km;
  acceptance_timeout_sec = some n.acceptance_timeout_sec;
  max_auto_retries = some n.max_auto_retries;
  tiebreak_window_hours = some n.tiebreak_window_hours;
  location_stale_min = some n.location_stale_min;
  avg_speed_kmh = some n.avg_speed_kmh;
  cancellation_window_min = some n.cancellation_window_min;
  no_show_grace_min = some n.no_show_grace_min;
}

abbrev pub edited_params :
    MunicipalityService → UpdateOperationalParams → ℕ → NewOperationalParamsVersion
edited_params key dto user = record {
  key = key;
  values = pick_values dto.values;
  origin = platform_edit;
  origin_company_id = none;
  created_by = some user;
}

abbrev pub write_params_version :
    ℕ
    → ℕ
    → Option ℕ
    → NewOperationalParamsVersion
    → List OperationalParamsRow
    → Option ℕ × List OperationalParamsRow
write_params_version id now none next params = insert_first_params id now next params
write_params_version id now (some version) next params =
    replace_open_params id now version next params

abbrev pub params_written :
    Platform
    → OperationalNumbers
    → MunicipalityService
    → Tables
    → List OperationalParamsRow
    → Option ℕ
    → Result ConfigError OperationalParamsSnapshot × Tables
params_written s defaults key t params none = (err (conflict_with s (current_params key params)), t)
params_written s defaults key t params (some id) =
    (ok (snapshot defaults key params), record t { params = params })

-- PlatformOperationalParamsService.update
unfoldable pub update_params :
    Platform
    → OperationalNumbers
    → ℕ
    → ℕ
    → Bool
    → MunicipalityService
    → UpdateOperationalParams
    → ℕ
    → Tables
    → Result ConfigError OperationalParamsSnapshot × Tables
update_params s defaults id now deadlocks key dto user t =
    if not (s.active key.service_type)
    then (err service_not_available, t)
    else if not (s.municipality_exists key.municipality_id)
    then (err municipality_not_found, t)
    else if deadlocks
    then (err (settings_conflict none none), t)
    else let (new_id, params) =
        write_params_version id now dto.version (edited_params key dto user) t.params in
      params_written s defaults key t params new_id
