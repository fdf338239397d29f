-- ===== src/ServiceConfig/Provisioner/Approval.antt =====
-- What an approved company has: apps/api/src/modules/service-config/service-config-provisioner.ts.
use voyya_backend.ServiceConfig.Provisioner.Current.{
  HasCurrent, In-sort, Wrote, found-HasCurrent, insert-HasCurrent, insert-Wrote, insert-keeps,
  replace-Wrote,
}
use voyya_backend.ServiceConfig.Provisioner.Same.{
  >>=-ok, same_tables, inserted_fare-tables, Same, Same-trans, Undisturbed, ensure_services-Same,
  ensure_commission-Same,
}
use voyya_backend.Prelude.{
  In, All-In, ok, err, ℕ, ◌≡◌, refl, ap, subst, true, Option, none, some, List, [], ◌∷◌, All,
}
use voyya_backend.ServiceConfig.Versions.{is_current, find_current, insert_if_no_open_version}
use voyya_backend.ServiceConfig.Tables.{
  ServiceType, MunicipalityService, MunicipalityFareRow, CompanyCommissionRow, Tables, company_key,
  service_key,
}
use voyya_backend.ServiceConfig.Provisioner.{
  InitialMunicipalityFare, EnsureForApproval, ProvisionedMunicipalityFare, ProvisionedServiceConfig,
  Approving, Step, sort_services, service_of, first_fare, insert_fare, existing_fare, ensure_fare,
  first_params, ensure_params, first_commission, write_commission, ensure_commission,
  ensure_services, written_commission, ensure_for_approval,
}

-- What was current stays so.
abbrev pub KeepsCurrent : Tables → Tables → Type 0
KeepsCurrent t t' =
    (key : MunicipalityService)
    → (HasCurrent key t.fares → HasCurrent key t'.fares)
      × (HasCurrent key t.params → HasCurrent key t'.params)

KeepsCurrent-trans : (t u v : Tables) → KeepsCurrent t u → KeepsCurrent u v → KeepsCurrent t v
KeepsCurrent-trans t u v f g key = (λ h. (g key).0 ((f key).0 h), λ h. (g key).1 ((f key).1 h))

module _ (a : Approving) (input : EnsureForApproval)
    (others : (t : Tables) → KeepsCurrent t (a.between t)) where
  abbrev pub IsServed : Tables → ServiceType → Type 0
  IsServed t s = HasCurrent (service_of input s) t.fares × HasCurrent (service_of input s) t.params

  -- The service has a fare, and what was current stays so.
  abbrev Priced : ServiceType → Tables → Tables → Type 0
  Priced s t t' = HasCurrent (service_of input s) t'.fares × KeepsCurrent t t'

  existing_fare-Priced :
      (s : ServiceType) (t : Tables) (found : Option MunicipalityFareRow)
      (f : ProvisionedMunicipalityFare) (t' : Tables)
      → find_current (service_of input s) t.fares ≡ found
      → existing_fare a input s t found ≡ ok (f, t')
      → Priced s t t'
  existing_fare-Priced s t (some v) f t' q e =
      subst (λ u. Priced s t u) (same_tables _ _ t t' e)
        (found-HasCurrent (service_of input s) t.fares v q, λ key. (λ h. h, λ h. h))
  existing_fare-Priced s t none f t' q e = go input.initial_fare e
    where
      go :
          (fare : Option InitialMunicipalityFare)
          → insert_fare a input s (a.between t) fare ≡ ok (f, t')
          → Priced s t t'
      go none h = cc
      go (some fare) h =
          let u = a.between t in
          let next = first_fare input s fare in
          let r = insert_if_no_open_version (a.fare_id s) a.now next u.fares in
          subst (λ u'. Priced s t u')
            (inserted_fare-tables input s (record u { fares = r.1 }) r.0 f t' h)
            (
              insert-HasCurrent (a.fare_id s) a.now next u.fares,
              λ key. (
                λ p. insert-keeps (a.fare_id s) a.now next u.fares key ((others t key).0 p),
                λ p. (others t key).1 p,
              ),
            )

  params-KeepsCurrent : (s : ServiceType) (t : Tables) → KeepsCurrent t (ensure_params a input s t)
  unfolding ensure_params
  params-KeepsCurrent s t key =
      (λ h. h, λ h. insert-keeps (a.params_id s) a.now (first_params input s) t.params key h)

  params-HasCurrent :
      (s : ServiceType) (t : Tables)
      → HasCurrent (service_of input s) (ensure_params a input s t).params
  unfolding ensure_params
  params-HasCurrent s t = insert-HasCurrent (a.params_id s) a.now (first_params input s) t.params

  abbrev Provisioned : List ServiceType → Tables → Tables → Type 0
  Provisioned ss t t' = All (IsServed t') ss × KeepsCurrent t t'

  ensure_services-Provisioned :
      (ss : List ServiceType) (t : Tables) (fares : List ProvisionedMunicipalityFare) (t' : Tables)
      → ensure_services a input ss t ≡ ok (fares, t')
      → Provisioned ss t t'
  unfolding ensure_services ensure_fare
  ensure_services-Provisioned [] t fares t' e =
      subst (λ u. Provisioned [] t u) (same_tables _ _ t t' e) (tt, λ key. (λ h. h, λ h. h))
  ensure_services-Provisioned (s ∷ ss) t fares t' e =
      let ((fare, t1), e1, h1) = >>=-ok (ensure_fare a input s t) _ (fares, t') e in
      let ((rest, t2), e2, h2) =
        >>=-ok (ensure_services a input ss (ensure_params a input s t1)) _ (fares, t') h1 in
      let priced =
        existing_fare-Priced s t (find_current (service_of input s) t.fares) fare t1 refl e1 in
      let t1' = ensure_params a input s t1 in
      let (all, kept) = ensure_services-Provisioned ss t1' rest t2 e2 in
      let kept' = KeepsCurrent-trans t1 t1' t2 (params-KeepsCurrent s t1) kept in
      let served : IsServed t2 s = (
        (kept' (service_of input s)).0 priced.0,
        (kept (service_of input s)).1 (params-HasCurrent s t1),
      ) in
      subst (λ u. Provisioned (s ∷ ss) t u) (same_tables _ _ t2 t' h2)
        ((served, all), KeepsCurrent-trans t t1 t2 priced.1 kept')

  -- The commission of the company, as the approval wrote it.
  abbrev pub HasCommission : ℕ → Tables → Type 0
  HasCommission id t =
      (c : CompanyCommissionRow) × In c t.commissions
      × (c.id ≡ id)
      × (c.values ≡ input.commission_pct)
      × (is_current input.company_id c ≡ true)

  write_commission-Wrote :
      (t : Tables) (current : Option CompanyCommissionRow)
      → Wrote (first_commission input) (write_commission a input t current)
  write_commission-Wrote t none =
      insert-Wrote a.commission_id a.now (first_commission input) t.commissions
  write_commission-Wrote t (some c) =
      replace-Wrote a.commission_id a.now c.id (first_commission input) t.commissions

  written_commission_lem :
      (t : Tables) (r : Option ℕ × List CompanyCommissionRow) (id : ℕ) (t' : Tables)
      → Wrote (first_commission input) r
      → written_commission t r ≡ ok (id, t')
      → HasCommission id t' × KeepsCurrent t t'
  written_commission_lem t (none, vs) id t' w e = cc
  written_commission_lem t (some i, vs) id t' w e =
      let q : i ≡ id = same_id e in
      subst (λ u. HasCommission id u × KeepsCurrent t u)
        (same_tables _ _ (record t { commissions = vs }) t' e)
        (w id (ap some q), λ key. (λ h. h, λ h. h))
    where
      same_id : ◌≡◌ {A = Step ℕ} (ok (i, record t { commissions = vs })) (ok (id, t')) → i ≡ id
      same_id h = ap answer h
        where
          answer : Step ℕ → ℕ
          answer (err x) = i
          answer (ok r) = r.0

  ensure_commission_lem :
      (t : Tables) (id : ℕ) (t' : Tables)
      → ensure_commission a input t ≡ ok (id, t')
      → HasCommission id t' × KeepsCurrent t t'
  unfolding ensure_commission
  ensure_commission_lem t id t' e =
      let u = a.between t in
      let current = find_current input.company_id t.commissions in
      let (c, kept) =
        written_commission_lem u (write_commission a input u current) id t'
          (write_commission-Wrote u current) e in
      (c, KeepsCurrent-trans t u t' (others t) kept)

  abbrev Approved : Tables → ProvisionedServiceConfig → Tables → Type 0
  Approved t p t' =
      ((s : ServiceType) → In s input.service_types → IsServed t' s)
      × KeepsCurrent t t'
      × Undisturbed a t t'
      × HasCommission p.company_commission_id t'

  same_answer :
      (t : Tables) (x p : ProvisionedServiceConfig) (u t' : Tables)
      → ◌≡◌ {A = Step ProvisionedServiceConfig} (ok (x, u)) (ok (p, t'))
      → Approved t x u
      → Approved t p t'
  same_answer t x p u t' e h =
      subst (λ y. Approved t y t') (ap answer e)
        (subst (λ v. Approved t x v) (same_tables x p u t' e) h)
    where
      answer : Step ProvisionedServiceConfig → ProvisionedServiceConfig
      answer (err z) = x
      answer (ok r) = r.0

  -- Where others leave no municipality and service without a current fare or current parameters, an
  -- approval that succeeds leaves every service of the company with a current fare and current
  -- parameters in its municipality, and takes none from another; of every municipality
  -- and service whose current fare and parameters others leave, it leaves the very versions that were
  -- current; and it has put the percentage of the approval in an open version of the company's
  -- commission, the one it answers.
  pub ensure_for_approval_lem :
      (t : Tables) (p : ProvisionedServiceConfig) (t' : Tables)
      → ensure_for_approval a input t ≡ ok (p, t')
      → ((s : ServiceType) → In s input.service_types → IsServed t' s)
        × KeepsCurrent t t'
        × ((key : MunicipalityService) → ((u : Tables) → Same key u (a.between u)) → Same key t t')
        × HasCommission p.company_commission_id t'
  unfolding ensure_for_approval
  ensure_for_approval_lem t p t' e =
      let ((fares, t1), e1, h1) =
        >>=-ok (ensure_services a input (sort_services input.service_types) t) _ (p, t') e in
      let ((id, t2), e2, h2) = >>=-ok (ensure_commission a input t1) _ (p, t') h1 in
      let (all, kept) =
        ensure_services-Provisioned (sort_services input.service_types) t fares t1 e1 in
      let (commission, kept') = ensure_commission_lem t1 id t2 e2 in
      let served : (s : ServiceType) → In s input.service_types → IsServed t2 s = λ s m.
        let (f, q) =
          All-In (IsServed t1) s (sort_services input.service_types) all
            (In-sort s input.service_types m) in
        ((kept' (service_of input s)).0 f, (kept' (service_of input s)).1 q) in
      same_answer t _ p t2 t' h2 (
        served,
        KeepsCurrent-trans t t1 t2 kept kept',
        λ key others'.
            let first =
              ensure_services-Same a input key others' (sort_services input.service_types) t fares
                t1 e1 in
            Same-trans key t t1 t2 first (ensure_commission-Same a input key others' t1 id t2 e2),
        commission,
      )
