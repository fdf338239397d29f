-- ===== src/ServiceConfig/Commissions/Once.antt =====
-- Two edits of one version of a commission: apps/api/src/modules/service-config/platform-commission.service.ts.
use voyya_backend.ServiceConfig.Versions.Replaced.{replaced, replaced_current, replaced_unexpected}
use voyya_backend.Prelude.{
  find-In, In, Result, ok, err, ℕ, ◌≡◌, refl, sym, ap, ◌∙◌, subst, true, false, Option, none, some,
  arith, ==→eq, find,
}
use voyya_backend.ServiceConfig.Versions.{
  NewVersion, opened, end_of, is_current, is_expected, find_current, replace_open_version,
  replace_found,
}
use voyya_backend.ServiceConfig.Versions.Chains.{AllBelow}
use voyya_backend.ServiceConfig.Versions.Intervals.{IsTimeline}
use voyya_backend.ServiceConfig.Tables.{
  CompanyCommissionRow, Tables, ConfigError, settings_conflict, Platform, conflict_with,
  company_key,
}
use voyya_backend.ServiceConfig.Commissions.{
  UpdateCompanyCommission, edited_commission, commission_written, update_commission,
}

module _ (s : Platform) (id now company user version : ℕ) (dto : UpdateCompanyCommission) where
  abbrev next : NewVersion ℕ ℕ
  next = edited_commission company dto user

  -- An edit that has written a version, and what another of the same version answers on the
  -- commissions that the first has left.
  abbrev pub EditedOnce : Tables → CompanyCommissionRow → Tables → Type 0
  EditedOnce t row t' =
      (row.id ≡ id)
      × (row.values ≡ dto.commission_pct)
      × ((v : CompanyCommissionRow) × In v t.commissions
          × (v.id ≡ version)
          × (is_current company v ≡ true)
          × (row.valid_from ≡ end_of now v))
      × ((id' now' user' : ℕ) (dto' : UpdateCompanyCommission) (u : Tables)
          → dto'.version ≡ some version
          → u.commissions ≡ t'.commissions
          → update_commission s id' now' false company dto' user' u
            ≡ (err (settings_conflict (some id) (s.author user)), u))

  -- An update that expects the version, by what the search for it finds.
  abbrev outcome :
      ℕ
      → ℕ
      → NewVersion ℕ ℕ
      → Tables
      → Option CompanyCommissionRow
      → Result ConfigError CompanyCommissionRow × Tables
  outcome id' now' next' t found =
      let (new_id, versions) = replace_found id' now' version next' t.commissions found in
      commission_written s t versions new_id (find_current company versions)

  updated :
      (id' now' user' : ℕ) (dto' : UpdateCompanyCommission) (t : Tables)
      → s.company_exists company ≡ true
      → dto'.version ≡ some version
      → update_commission s id' now' false company dto' user' t
        ≡ outcome id' now'
            (edited_commission company dto' user')
            t
            (find (is_expected version company) t.commissions)
  unfolding update_commission replace_open_version
  updated id' now' user' dto' t x q = rw (x, q) refl

  edited :
      (t : Tables) (v : CompanyCommissionRow)
      → s.company_exists company ≡ true
      → IsTimeline t.commissions
      → AllBelow id t.commissions
      → find (is_expected version company) t.commissions ≡ some v
      → EditedOnce t
          (opened id (end_of now v) next)
          (record t { commissions = replaced id now version next t.commissions v })
  edited t v x h b f =
      let (m, c) = find-In (is_expected version company) t.commissions v f in
      (refl, refl, (v, m, ==→eq v.id version (ground (arith, c)), ground (arith, c), refl), later)
    where
      later :
          (id' now' user' : ℕ) (dto' : UpdateCompanyCommission) (u : Tables)
          → dto'.version ≡ some version
          → u.commissions ≡ replaced id now version next t.commissions v
          → update_commission s id' now' false company dto' user' u
            ≡ (err (settings_conflict (some id) (s.author user)), u)
      later id' now' user' dto' u q same_rows =
          updated id' now' user' dto' u x q
          ∙ ap (outcome id' now' (edited_commission company dto' user') u) (
              ap (find (is_expected version company)) same_rows
              ∙ replaced_unexpected id now version next t.commissions v f b)
          ∙ ap (λ (o : Option CompanyCommissionRow). (err (conflict_with s o), u))
              (ap (find_current company) same_rows
                ∙ replaced_current id now version next t.commissions v f b h)

  -- A company's commission, whose versions are a chain: an edit of a version that succeeds has
  -- written the next identifier with the percentage of the edit, from where the version that was
  -- current ends; and an edit of the same version, whoever makes it, on any tables with the
  -- commissions that the first has left, unless a deadlock ends it, is told that it conflicts with the
  -- version and the author of the first, and writes nothing.
  pub update_commission_once :
      (t : Tables) (row : CompanyCommissionRow) (t' : Tables)
      → s.company_exists company ≡ true
      → IsTimeline t.commissions
      → AllBelow id t.commissions
      → dto.version ≡ some version
      → update_commission s id now false company dto user t ≡ (ok row, t')
      → EditedOnce t row t'
  update_commission_once t row t' x h b q e =
      go (find (is_expected version company) t.commissions) refl
        (sym (updated id now user dto t x q) ∙ e)
    where
      same_end :
          (o : CompanyCommissionRow) (u : Tables)
          → EditedOnce t o u
          → ◌≡◌ {A = Result ConfigError CompanyCommissionRow × Tables} (ok o, u) (ok row, t')
          → EditedOnce t row t'
      same_end o u d w =
          let first : ok o ≡ ok row = ap (λ z. z.0) w in
          subst (λ r. EditedOnce t r t') (ok_eq first)
            (subst (λ z. EditedOnce t o z) (ap (λ z. z.1) w) d)
        where
          ok_eq : ◌≡◌ {A = Result ConfigError CompanyCommissionRow} (ok o) (ok row) → o ≡ row
          ok_eq y = cc

      go :
          (found : Option CompanyCommissionRow)
          → find (is_expected version company) t.commissions ≡ found
          → outcome id now next t found ≡ (ok row, t')
          → EditedOnce t row t'
      go none f e' =
          let no : err (conflict_with s (find_current company t.commissions)) ≡ ok row =
            ap (λ z. z.0) e' in
          cc
      go (some v) f e' = same_end _ _ (edited t v x h b f) (
          sym (
            ap (commission_written s t (replaced id now version next t.commissions v) (some id))
              (replaced_current id now version next t.commissions v f b h))
          ∙ e')
