-- ===== src/ServiceConfig/Provisioner/Same.antt =====
-- The versions that an approval leaves as they are: ensureForApproval of
-- apps/api/src/modules/service-config/service-config-provisioner.ts.
use voyya_backend.ServiceConfig.Provisioner.Current.{insert-finds}
use voyya_backend.Prelude.{ok, err, ℕ, ◌≡◌, refl, ap, subst, Option, none, some, List, [], ◌∷◌}
use voyya_backend.ServiceConfig.Versions.{find_current, insert_if_no_open_version}
use voyya_backend.ServiceConfig.Tables.{
  ServiceType, MunicipalityService, MunicipalityFareRow, OperationalParamsRow, CompanyCommissionRow,
  Tables, service_key, company_key,
}
use voyya_backend.ServiceConfig.Provisioner.{
  ◌>>=◌, InitialMunicipalityFare, EnsureForApproval, ProvisionedMunicipalityFare, Approving, Step,
  service_of, first_fare, winner_fare, inserted_fare, insert_fare, existing_fare, ensure_fare,
  first_params, ensure_params, write_commission, ensure_commission, ensure_services,
  written_commission,
}

-- The fare and the parameters that were current for the key are the current ones still.
abbrev pub Same : MunicipalityService → Tables → Tables → Type 0
Same key t t' =
    ((v : MunicipalityFareRow)
      → find_current key t.fares ≡ some v
      → find_current key t'.fares ≡ some v)
    × ((v : OperationalParamsRow)
        → find_current key t.params ≡ some v
        → find_current key t'.params ≡ some v)

abbrev pub Undisturbed : Approving → Tables → Tables → Type 0
Undisturbed a t t' =
    (key : MunicipalityService) → ((u : Tables) → Same key u (a.between u)) → Same key t t'

Same-refl : (key : MunicipalityService) (t : Tables) → Same key t t
Same-refl key t = (λ v e. e, λ v e. e)

pub Same-trans :
    (key : MunicipalityService) (t u w : Tables) → Same key t u → Same key u w → Same key t w
Same-trans key t u w f g = (λ v e. g.0 v (f.0 v e), λ v e. g.1 v (f.1 v e))

tables_of : {A : Type 0} → Tables → Step A → Tables
tables_of t (err e) = t
tables_of t (ok r) = r.1

pub same_tables :
    {A : Type 0} (a b : A) (t t' : Tables) → ◌≡◌ {A = Step A} (ok (a, t)) (ok (b, t')) → t ≡ t'
unfolding tables_of
same_tables a b t t' e = ap (tables_of t) e

-- Two steps that end well are two that end well.
pub >>=-ok :
    {A B : Type 0} (m : Step A) (f : A × Tables → Step B) (r : B × Tables)
    → ◌>>=◌ m f ≡ ok r
    → (x : A × Tables) × (m ≡ ok x) × (f x ≡ ok r)
>>=-ok (err e) f r h = cc
>>=-ok (ok x) f r h = (x, refl, h)

pub inserted_fare-tables :
    (input : EnsureForApproval) (s : ServiceType) (t : Tables) (i : Option ℕ)
    (f : ProvisionedMunicipalityFare) (t' : Tables)
    → inserted_fare input s t i ≡ ok (f, t')
    → t ≡ t'
inserted_fare-tables input s t (some i) f t' e = same_tables _ _ t t' e
inserted_fare-tables input s t none f t' e = go (find_current (service_of input s) t.fares) e
  where
    go : (found : Option MunicipalityFareRow) → winner_fare s t found ≡ ok (f, t') → t ≡ t'
    go none h = cc
    go (some w) h = same_tables _ _ t t' h

module _ (a : Approving) (input : EnsureForApproval) (key : MunicipalityService)
    (others : (t : Tables) → Same key t (a.between t)) where
  existing_fare-Same :
      (s : ServiceType) (t : Tables) (found : Option MunicipalityFareRow)
      (f : ProvisionedMunicipalityFare) (t' : Tables)
      → existing_fare a input s t found ≡ ok (f, t')
      → Same key t t'
  existing_fare-Same s t (some v) f t' e =
      subst (λ u. Same key t u) (same_tables _ _ t t' e) (Same-refl key t)
  existing_fare-Same s t none f t' e = go input.initial_fare e
    where
      go :
          (fare : Option InitialMunicipalityFare)
          → insert_fare a input s (a.between t) fare ≡ ok (f, t')
          → Same key t t'
      go none h = cc
      go (some fare) h =
          let u = a.between t in
          let next = first_fare input s fare in
          let r = insert_if_no_open_version (a.fare_id s) a.now next u.fares in
          subst (λ u'. Same key t u')
            (inserted_fare-tables input s (record u { fares = r.1 }) r.0 f t' h)
            (
              λ v p. insert-finds (a.fare_id s) a.now next u.fares key v ((others t).0 v p),
              λ v p. (others t).1 v p,
            )

  params-Same : (s : ServiceType) (t : Tables) → Same key t (ensure_params a input s t)
  unfolding ensure_params
  params-Same s t =
      (λ v e. e, λ v e. insert-finds (a.params_id s) a.now (first_params input s) t.params key v e)

  pub ensure_services-Same :
      (ss : List ServiceType) (t : Tables) (fares : List ProvisionedMunicipalityFare) (t' : Tables)
      → ensure_services a input ss t ≡ ok (fares, t')
      → Same key t t'
  unfolding ensure_services ensure_fare
  ensure_services-Same [] t fares t' e =
      subst (λ u. Same key t u) (same_tables _ _ t t' e) (Same-refl key t)
  ensure_services-Same (s ∷ ss) t fares t' e =
      let ((fare, t1), e1, h1) = >>=-ok (ensure_fare a input s t) _ (fares, t') e in
      let t1' = ensure_params a input s t1 in
      let ((rest, t2), e2, h2) = >>=-ok (ensure_services a input ss t1') _ (fares, t') h1 in
      let first = existing_fare-Same s t (find_current (service_of input s) t.fares) fare t1 e1 in
      let after = ensure_services-Same ss t1' rest t2 e2 in
      subst (λ u. Same key t u) (same_tables _ _ t2 t' h2)
        (Same-trans key t t1 t2 first (Same-trans key t1 t1' t2 (params-Same s t1) after))

  written_commission-Same :
      (t : Tables) (r : Option ℕ × List CompanyCommissionRow) (id : ℕ) (t' : Tables)
      → written_commission t r ≡ ok (id, t')
      → Same key t t'
  written_commission-Same t (none, vs) id t' e = cc
  written_commission-Same t (some i, vs) id t' e =
      subst (λ u. Same key t u) (same_tables _ _ (record t { commissions = vs }) t' e)
        (λ v p. p, λ v p. p)

  pub ensure_commission-Same :
      (t : Tables) (id : ℕ) (t' : Tables)
      → ensure_commission a input t ≡ ok (id, t')
      → Same key t t'
  unfolding ensure_commission
  ensure_commission-Same t id t' e =
      let u = a.between t in
      let current = find_current input.company_id t.commissions in
      Same-trans key t u t' (others t)
        (written_commission-Same u (write_commission a input u current) id t' e)
