-- ===== src/ServiceConfig/Tables.antt =====
-- apps/api/src/modules/service-config: the rows of service-config.types.ts, the three repositories
-- (company-commission.repository.ts, municipality-fare.repository.ts, operational-params.repository.ts)
-- and service-catalog.ts. Money is whole pesos, a percentage hundredths of a percent.
use voyya_backend.Prelude.{
  ℕ, zero, suc, String, ◌≡◌, refl, sym, ap, ap₂, ◌∙◌, subst, ◌↔◌, Bool, true, ◌&&◌, Option, none,
  some, List, arith, ◌==◌, ==→eq, ==_refl,
}
use voyya_backend.ServiceConfig.Versions.{
  Key, Version, NewVersion, replace_open_version, insert_if_no_open_version, find_current,
  list_versions,
}

pub data ServiceType : Type 0 where
  taxi motorcycle comfort delivery : ServiceType

-- The place of a service in the order of their names.
abbrev pub rank : ServiceType → ℕ
rank comfort = 0
rank delivery = 1
rank motorcycle = 2
rank taxi = 3

abbrev of_rank : ℕ → ServiceType
of_rank zero = comfort
of_rank (suc zero) = delivery
of_rank (suc (suc zero)) = motorcycle
of_rank _ = taxi

of_rank-rank : (s : ServiceType) → of_rank (rank s) ≡ s
of_rank-rank taxi = refl
of_rank-rank motorcycle = refl
of_rank-rank comfort = refl
of_rank-rank delivery = refl

pub record MunicipalityService : Type 0 where
  pub municipality_id : ℕ
  pub service_type : ServiceType

abbrev pub same_service : MunicipalityService → MunicipalityService → Bool
same_service a b =
    a.municipality_id == b.municipality_id && rank a.service_type == rank b.service_type

pub same_service_iff : (a b : MunicipalityService) → (same_service a b ≡ true) ↔ (a ≡ b)
same_service_iff a b = (
  to,
  λ q.
      subst (λ x. same_service a x ≡ true) q
        (rw (==_refl a.municipality_id) (==_refl (rank a.service_type))),
)
  where
    to : same_service a b ≡ true → a ≡ b
    to e =
        let m : a.municipality_id ≡ b.municipality_id = ==→eq _ _ (ground (arith, e)) in
        let r : rank a.service_type ≡ rank b.service_type = ==→eq _ _ (ground (arith, e)) in
        let s : a.service_type ≡ b.service_type =
          sym (of_rank-rank a.service_type) ∙ ap of_rank r ∙ of_rank-rank b.service_type in
        ap₂ (λ x y. record { municipality_id = x; service_type = y }) m s

instance abbrev pub company_key : Key ℕ
company_key = record {
  same = λ a b. a == b;
  same_iff = λ a b. (==→eq a b, λ q. subst (λ x. (a == x) ≡ true) q (==_refl a));
}

instance abbrev pub service_key : Key MunicipalityService
service_key = record { same = same_service; same_iff = same_service_iff }

pub record FareValues : Type 0 where
  pub base_fare : ℕ
  pub night_surcharge_pct : ℕ
  pub holiday_surcharge_pct : ℕ
  pub is_official : Bool
  pub official_reference : Option String

pub record OperationalValues : Type 0 where
  pub search_radius_km : Option ℕ
  pub expansion_radius_km : Option ℕ
  pub acceptance_timeout_sec : Option ℕ
  pub max_auto_retries : Option ℕ
  pub tiebreak_window_hours : Option ℕ
  pub location_stale_min : Option ℕ
  pub avg_speed_kmh : Option ℕ
  pub cancellation_window_min : Option ℕ
  pub no_show_grace_min : Option ℕ

abbrev pub CompanyCommissionRow : Type 0
CompanyCommissionRow = Version ℕ ℕ

abbrev pub MunicipalityFareRow : Type 0
MunicipalityFareRow = Version MunicipalityService FareValues

abbrev pub OperationalParamsRow : Type 0
OperationalParamsRow = Version MunicipalityService OperationalValues

abbrev pub NewCompanyCommissionVersion : Type 0
NewCompanyCommissionVersion = NewVersion ℕ ℕ

abbrev pub NewFareVersion : Type 0
NewFareVersion = NewVersion MunicipalityService FareValues

abbrev pub NewOperationalParamsVersion : Type 0
NewOperationalParamsVersion = NewVersion MunicipalityService OperationalValues

-- tenancy.company_commission, trips.municipality_fare, admin.municipality_operational_params
pub record Tables : Type 0 where
  pub commissions : List CompanyCommissionRow
  pub fares : List MunicipalityFareRow
  pub params : List OperationalParamsRow

pub data ConfigError : Type 0 where
  service_not_available municipality_not_found company_not_found fare_not_found : ConfigError
  municipality_fare_required not_read_back commission_not_written : ConfigError
  settings_conflict : Option ℕ → Option String → ConfigError

-- What the services read of other tables and of the environment.
pub record Platform : Type 0 where
  pub active : ServiceType → Bool
  pub municipality_exists : ℕ → Bool
  pub company_exists : ℕ → Bool
  -- the name of the user who wrote a version, if the user is still there
  pub author : ℕ → Option String

abbrev pub name_of : Platform → Option ℕ → Option String
name_of s none = none
name_of s (some user) = s.author user

-- The conflict that tells who has written the current version.
abbrev pub conflict_with : {K V : Type 0} → Platform → Option (Version K V) → ConfigError
conflict_with s none = settings_conflict none none
conflict_with s (some v) = settings_conflict (some v.id) (name_of s v.created_by)

-- MunicipalityFareRepository: findCurrent, listVersions, replaceOpenVersion, insertIfNoOpenVersion
abbrev pub current_fare :
    MunicipalityService → List MunicipalityFareRow → Option MunicipalityFareRow
current_fare key fares = find_current key fares

abbrev pub list_fares :
    MunicipalityService → Option ℕ → ℕ → List MunicipalityFareRow → List MunicipalityFareRow
list_fares key before n fares = list_versions key before n fares

abbrev pub replace_open_fare :
    ℕ → ℕ → ℕ → NewFareVersion → List MunicipalityFareRow → Option ℕ × List MunicipalityFareRow
replace_open_fare id now expected next fares = replace_open_version id now expected next fares

abbrev pub insert_first_fare :
    ℕ → ℕ → NewFareVersion → List MunicipalityFareRow → Option ℕ × List MunicipalityFareRow
insert_first_fare id now next fares = insert_if_no_open_version id now next fares

-- OperationalParamsRepository: the same
abbrev pub current_params :
    MunicipalityService → List OperationalParamsRow → Option OperationalParamsRow
current_params key params = find_current key params

abbrev pub list_params :
    MunicipalityService → Option ℕ → ℕ → List OperationalParamsRow → List OperationalParamsRow
list_params key before n params = list_versions key before n params

abbrev pub replace_open_params :
    ℕ
    → ℕ
    → ℕ
    → NewOperationalParamsVersion
    → List OperationalParamsRow
    → Option ℕ × List OperationalParamsRow
replace_open_params id now expected next params = replace_open_version id now expected next params

abbrev pub insert_first_params :
    ℕ
    → ℕ
    → NewOperationalParamsVersion
    → List OperationalParamsRow
    → Option ℕ × List OperationalParamsRow
insert_first_params id now next params = insert_if_no_open_version id now next params
