-- ===== src/ServiceConfig/Examples.antt =====
-- A company whose commission is edited twice, and one that is approved for two services.
use voyya_backend.Prelude.{
  In, ℕ, suc, ◌+◌, ◌≡◌, refl, true, ◌&&◌, none, some, List, [], ◌∷◌, arith, length, filter, count,
}
use voyya_backend.ServiceConfig.Params.{
  OperationalNumbers, OperationalParamsSnapshot, UpdateOperationalParams, edited_params, snapshot,
  update_params, resolve,
}
use voyya_backend.ServiceConfig.Params.Edited.{update_params_lem}
use voyya_backend.ServiceConfig.Tables.{MunicipalityService, OperationalParamsRow}
use voyya_backend.ServiceConfig.Versions.{
  NewVersion, opened, close, is_open, is_for, order_desc, company_approval,
  insert_if_no_open_version, replace_open_version,
}
use voyya_backend.ServiceConfig.Versions.Chains.{in_force}
use voyya_backend.ServiceConfig.Versions.Timeline.{
  Table, Write, replaces, inserts, write_all, write_all-IsTable, write_all_lem,
}
use voyya_backend.ServiceConfig.Versions.Pages.{walk, walk_lem}
use voyya_backend.ServiceConfig.Tables.{
  ServiceType, rank, taxi, comfort, Tables, Platform, company_key, service_key,
}
use voyya_backend.ServiceConfig.Commissions.{
  UpdateCompanyCommission, edited_commission, update_commission,
}
use voyya_backend.ServiceConfig.Commissions.Once.{EditedOnce, update_commission_once}
use voyya_backend.ServiceConfig.Provisioner.{
  InitialMunicipalityFare, EnsureForApproval, ProvisionedServiceConfig, Approving, first_fare,
  first_params, first_commission, ensure_for_approval, ensure_services, ensure_fare, ensure_params,
  ensure_commission, service_of,
}
use voyya_backend.ServiceConfig.Provisioner.Same.{Same}
use voyya_backend.ServiceConfig.Provisioner.Approval.{
  IsServed, KeepsCurrent, HasCommission, ensure_for_approval_lem,
}

abbrev ten_percent : NewVersion ℕ ℕ
ten_percent = record {
  key = 7;
  values = 1000;
  origin = company_approval;
  origin_company_id = none;
  created_by = none;
}

abbrev twelve_percent : UpdateCompanyCommission
twelve_percent = record { version = some 1; commission_pct = 1200 }

abbrev empty_table : Table ℕ ℕ
empty_table = record { versions = []; sequence = 1 }

-- The second transaction has started before the first, and the third expects an old version.
abbrev edits : List (Write ℕ ℕ)
edits =
    inserts 0 100 ten_percent
    ∷ replaces 0 60 1 (edited_commission 7 twelve_percent 30)
    ∷ replaces 2 200 1 (edited_commission 7 twelve_percent 31)
    ∷ []

write_all_lem_example :
    let versions = (write_all edits empty_table).versions in
    (count (λ v. is_for 7 v && in_force 100 v) versions ≡ 1)
    × (count (λ v. is_for 7 v && is_open v) versions ≡ 1)
unfolding write_all replace_open_version insert_if_no_open_version
write_all_lem_example = write_all_lem edits empty_table 7 100 (λ key. tt, tt) refl

walk_lem_example :
    let versions = (write_all edits empty_table).versions in
    walk (suc (length (order_desc (filter (is_for 7) versions)))) 7 1 none versions
    ≡ order_desc (filter (is_for 7) versions)
walk_lem_example =
    walk_lem 7 (write_all edits empty_table).versions
      (write_all-IsTable edits empty_table (λ key. tt, tt)).0 1 (omega arith)

abbrev platform : Platform
platform = record {
  active = λ s. true;
  municipality_exists = λ m. true;
  company_exists = λ c. true;
  author = λ user. some "Ana";
}

abbrev first_table : Table ℕ ℕ
first_table = record { versions = opened 1 100 ten_percent ∷ []; sequence = 2 }

abbrev first_tables : Tables
first_tables = record { commissions = first_table.versions; fares = []; params = [] }

abbrev second_tables : Tables
second_tables = record first_tables {
  commissions =
      close 150 (opened 1 100 ten_percent)
      ∷ opened 2 150 (edited_commission 7 twelve_percent 30)
      ∷ [];
}

update_commission_once_example :
    EditedOnce platform 2 150 7 30 1 twelve_percent first_tables
      (opened 2 150 (edited_commission 7 twelve_percent 30))
      second_tables
unfolding update_commission write_all insert_if_no_open_version replace_open_version
update_commission_once_example =
    update_commission_once platform 2 150 7 30 1 twelve_percent first_tables
      (opened 2 150 (edited_commission 7 twelve_percent 30)) second_tables refl
      (write_all-IsTable (inserts 0 100 ten_percent ∷ []) empty_table (λ key. tt, tt)).0
      (omega arith, tt) refl refl

abbrev approving : Approving
approving = record {
  fare_id = λ s. 40 + rank s;
  params_id = λ s. 50 + rank s;
  commission_id = 3;
  now = 900;
  between = λ t. t;
}

abbrev some_fare : InitialMunicipalityFare
some_fare = record { base_fare = 8000; night_surcharge_pct = none; holiday_surcharge_pct = some 0 }

abbrev approval : EnsureForApproval
approval = record {
  company_id = 7;
  municipality_id = 9;
  service_types = taxi ∷ comfort ∷ [];
  initial_fare = some some_fare;
  commission_pct = 900;
  created_by = some 30;
}

abbrev others : (t : Tables) → KeepsCurrent t t
others t key = (λ h. h, λ h. h)

abbrev approved_tables : Tables
approved_tables = record {
  commissions =
      close 900 (opened 1 100 ten_percent) ∷ opened 3 900 (first_commission approval) ∷ [];
  fares =
      opened 40 900 (first_fare approval comfort some_fare)
      ∷ opened 43 900 (first_fare approval taxi some_fare)
      ∷ [];
  params =
      opened 50 900 (first_params approval comfort)
      ∷ opened 53 900 (first_params approval taxi)
      ∷ [];
}

abbrev approved : ProvisionedServiceConfig
approved = record {
  municipality_fares =
      record { service_type = comfort; municipality_fare_id = 40; created = true }
      ∷ record { service_type = taxi; municipality_fare_id = 43; created = true }
      ∷ [];
  company_commission_id = 3;
}

ensure_for_approval_lem_example :
    ((s : ServiceType)
      → In s (taxi ∷ comfort ∷ [])
      → IsServed approving approval others approved_tables s)
    × KeepsCurrent first_tables approved_tables
    × ((key : MunicipalityService)
        → ((u : Tables) → Same key u (approving.between u))
        → Same key first_tables approved_tables)
    × HasCommission approving approval others 3 approved_tables
unfolding ensure_for_approval ensure_services ensure_fare ensure_params ensure_commission
    insert_if_no_open_version replace_open_version
ensure_for_approval_lem_example =
    ensure_for_approval_lem approving approval others first_tables approved approved_tables refl

abbrev numbers : ℕ → OperationalNumbers
numbers n = record {
  search_radius_km = n;
  expansion_radius_km = n;
  acceptance_timeout_sec = n;
  max_auto_retries = n;
  tiebreak_window_hours = n;
  location_stale_min = n;
  avg_speed_kmh = n;
  cancellation_window_min = n;
  no_show_grace_min = n;
}

abbrev edit_params : UpdateOperationalParams
edit_params = record { version = some 50; values = numbers 6 }

abbrev taxi_params : OperationalParamsRow
taxi_params = opened 50 900 (first_params approval taxi)

abbrev unedited_tables : Tables
unedited_tables = record first_tables { params = taxi_params ∷ [] }

abbrev edited_tables : Tables
edited_tables = record first_tables {
  params =
      close 950 taxi_params
      ∷ opened 51 950 (edited_params (service_of approval taxi) edit_params 30)
      ∷ [];
}

abbrev edited_snapshot : OperationalParamsSnapshot
unfolding resolve
edited_snapshot = snapshot (numbers 3) (service_of approval taxi) edited_tables.params

update_params_lem_example :
    (edited_snapshot.params ≡ numbers 6)
    × (edited_snapshot.platform_default_keys ≡ [])
    × (snapshot (numbers 3) (service_of approval taxi) edited_tables.params ≡ edited_snapshot)
unfolding update_params resolve write_all insert_if_no_open_version replace_open_version
update_params_lem_example =
    update_params_lem platform (numbers 3) 51 950 30 (service_of approval taxi) edit_params
      unedited_tables edited_snapshot edited_tables refl refl
      (write_all-IsTable (inserts 0 900 (first_params approval taxi) ∷ [])
        (record { versions = []; sequence = 50 }) (λ key. tt, tt)).0
      (omega arith, tt) refl
