-- ===== src/Tenancy/Examples.antt =====
-- The companies of the sample tables.
use voyya_backend.Prelude.{◌≡◌, refl, none, some, [], ◌∷◌, In, ℕ, ◌≢◌, ◌↔◌, true}
use voyya_backend.Samples.{sample_db}
use voyya_backend.Db.Rows.{Company, CompanyCommission}
use voyya_backend.Tenancy.DispatchCompanies.{
  DispatchCompaniesOptions, resolve, has_id, IsAscending, resolve_lem,
}

abbrev without_eight : DispatchCompaniesOptions
without_eight = record {
  service_type = some 1;
  requested_company_id = none;
  exclude_company_id = some 8;
}

resolve_lem_example :
    ((has_id 7 (resolve 3 without_eight sample_db) ≡ true) ↔ (
      (c : Company) × In c sample_db.companies
      × (c.company_id ≡ 7)
      × (c.municipality_id ≡ 3)
      × (c.active ≡ true)
      × ((row : CompanyCommission) × In row sample_db.commissions
          × (row.company_id ≡ 7)
          × (row.valid_to ≡ none))
      × ((s : ℕ) → without_eight.service_type ≡ some s → In s c.service_types)
      × ((j : ℕ) → without_eight.requested_company_id ≡ some j → 7 ≡ j)
      × ((j : ℕ) → without_eight.exclude_company_id ≡ some j → 7 ≢ j)))
    × IsAscending (resolve 3 without_eight sample_db)
resolve_lem_example = resolve_lem 3 without_eight sample_db 7

-- The excluded company is left out.
resolve-without_eight : resolve 3 without_eight sample_db ≡ 7 ∷ []
unfolding resolve
resolve-without_eight = refl
