-- ===== src/ServiceConfig/Params/Edited.antt =====
-- What holds after an edit: apps/api/src/modules/service-config/platform-operational-params.service.ts.
use voyya_backend.Prelude.{
  Result, ok, err, ℕ, ◌≡◌, refl, sym, ap, ◌∙◌, subst, inl, inr, true, false, Option, none, some,
  List, [], ◌∷◌, ◌++◌, Bool-cases, find, any,
}
use voyya_backend.ServiceConfig.Versions.{
  opened, end_of, is_current, is_expected, replace_open_version, replace_found,
  insert_if_no_open_version,
}
use voyya_backend.ServiceConfig.Versions.Chains.{AllBelow}
use voyya_backend.ServiceConfig.Versions.Intervals.{IsTimeline, insert-IsTimeline}
use voyya_backend.ServiceConfig.Versions.Replaced.{last_current, replaced_current}
use voyya_backend.ServiceConfig.Tables.{
  MunicipalityService, OperationalParamsRow, NewOperationalParamsVersion, Tables, Platform,
  ConfigError, conflict_with, current_params, service_key,
}
use voyya_backend.ServiceConfig.Params.{
  OperationalNumbers, OperationalParamsSnapshot, UpdateOperationalParams, edited_params,
  write_params_version, params_written, resolve, snapshot, update_params,
}

module _ (id now : ℕ) (next : NewOperationalParamsVersion) (params : List OperationalParamsRow)
    (timeline : IsTimeline params) (below : AllBelow id params) where
  -- A write that answers an identifier leaves its version as the current one.
  abbrev IsCurrentNow : Option ℕ × List OperationalParamsRow → Type 0
  IsCurrentNow w =
      (i : ℕ)
      → w.0 ≡ some i
      → (from : ℕ) × (current_params next.key w.1 ≡ some (opened id from next))

  inserted : IsCurrentNow (insert_if_no_open_version id now next params)
  unfolding insert_if_no_open_version
  inserted i = elim (Bool-cases (any (is_current next.key) params)) [
    | inl taken ↦ rw taken (λ e. cc)
    | inr free ↦ rw free (λ e. (
      now,
      last_current id now 0 next params (opened id now next) params
          (subst IsTimeline (first free) (insert-IsTimeline id now next params timeline)) own,
    ))
  ]
    where
      first :
          any (is_current next.key) params ≡ false
          → (insert_if_no_open_version id now next params).1 ≡ params ++ opened id now next ∷ []
      first free = rw free refl

      own : is_current next.key (opened id now next) ≡ true
      own = let e = (service_key.same_iff next.key next.key).1 refl in rw e refl

  replaced' : (expected : ℕ) → IsCurrentNow (replace_open_version id now expected next params)
  unfolding replace_open_version
  replaced' expected = go (find (is_expected expected next.key) params) refl
    where
      go :
          (found : Option OperationalParamsRow)
          → find (is_expected expected next.key) params ≡ found
          → IsCurrentNow (replace_found id now expected next params found)
      go none f i e = cc
      go (some v) f i e =
          (end_of now v, replaced_current id now expected next params v f below timeline)

  written : (version : Option ℕ) → IsCurrentNow (write_params_version id now version next params)
  written none = inserted
  written (some v) = replaced' v

-- An edit that succeeds, of parameters whose versions are a chain for each municipality and service:
-- whatever the defaults of the platform are, the numbers that hold are those of the edit, none of
-- them is a default, and they are what a later reader resolves.
pub update_params_lem :
    (s : Platform) (defaults : OperationalNumbers) (id now user : ℕ) (key : MunicipalityService)
    (dto : UpdateOperationalParams) (t : Tables) (snap : OperationalParamsSnapshot) (t' : Tables)
    → s.active key.service_type ≡ true
    → s.municipality_exists key.municipality_id ≡ true
    → IsTimeline t.params
    → AllBelow id t.params
    → update_params s defaults id now false key dto user t ≡ (ok snap, t')
    → (snap.params ≡ dto.values)
      × (snap.platform_default_keys ≡ [])
      × (snapshot defaults key t'.params ≡ snap)
unfolding update_params resolve
update_params_lem s defaults id now user key dto t snap t' x y h b e =
    go w.0 w.1 (written id now (edited_params key dto user) t.params h b dto.version) (sym via ∙ e)
  where
    w : Option ℕ × List OperationalParamsRow
    w = write_params_version id now dto.version (edited_params key dto user) t.params

    via :
        update_params s defaults id now false key dto user t
        ≡ params_written s defaults key t w.1 w.0
    via = rw (x, y) refl

    Holds : OperationalParamsSnapshot → Tables → Type 0
    Holds o u =
        (o.params ≡ dto.values)
        × (o.platform_default_keys ≡ [])
        × (snapshot defaults key u.params ≡ o)

    ok_eq :
        (o : OperationalParamsSnapshot)
        → ◌≡◌ {A = Result ConfigError OperationalParamsSnapshot} (ok o) (ok snap)
        → o ≡ snap
    ok_eq o p = cc

    same_end :
        (o : OperationalParamsSnapshot) (u : Tables)
        → Holds o u
        → ◌≡◌ {A = Result ConfigError OperationalParamsSnapshot × Tables} (ok o, u) (ok snap, t')
        → Holds snap t'
    same_end o u d q =
        let first : ok o ≡ ok snap = ap (λ z. z.0) q in
        subst (λ r. Holds r t') (ok_eq o first) (subst (λ z. Holds o z) (ap (λ z. z.1) q) d)

    go :
        (i : Option ℕ) (params : List OperationalParamsRow)
        → ((j : ℕ)
            → i ≡ some j
            → (from : ℕ) × (current_params key params
                ≡ some (opened id from (edited_params key dto user))))
        → params_written s defaults key t params i ≡ (ok snap, t')
        → Holds snap t'
    go none params c q =
        let no : err (conflict_with s (current_params key params)) ≡ ok snap = ap (λ z. z.0) q in cc
    go (some j) params c q =
        let (from, current) = c j refl in
        same_end (snapshot defaults key params) (record t { params = params })
          (rw current (refl, refl, refl)) q
