-- ===== src/ServiceConfig/Versions.antt =====
-- apps/api/src/modules/service-config: the tables of versions, which company-commission.repository.ts,
-- municipality-fare.repository.ts and operational-params.repository.ts write and read in the same
-- way. `K` is what a version is for, `V` what it says. Identifiers come from a sequence, `now` is the
-- start of the transaction, and one transaction may start before another and write after it.
pub mod Replaced
pub mod Newest
pub mod Chains
pub mod Intervals
pub mod Pages
pub mod Timeline
use voyya_backend.Prelude.{
  not→false, &&→right, find-In, In, All-In, All-of, All-map, All-filter, All-++, In-filter,
  filter-In, In-length, any-In, In-map, map-In, Result, ok, err, ℕ, zero, suc, ◌+◌, ◌-◌, ◌*◌, ◌/◌,
  ◌%◌, ◌≤◌, ◌<◌, compare, Ordering, min, max, String, str_eq, eq_iff, ◌≡◌, refl, sym, ap, ap₂, ◌∙◌,
  subst, ◌≢◌, ◌↔◌, ◌⊎◌, inl, inr, Bool, true, false, not, ◌&&◌, ◌||◌, Option, none, some, List, [],
  ◌∷◌, ◌++◌, map, arith, ltb, leb, ◌==◌, if◌then◌else◌, is_none, is_some, or_else, Bool-cases,
  Option-cases, ltb→lt, lt→ltb, leb→le, le→leb, ==→eq, ==_refl, length, length-append, find, filter,
  update_where, any, count, All, Rowwise, All-update_where, Rowwise-update_where, any-eq_false,
  All-find, Rowwise-refl, Rowwise-trans, find-update_where, keep, find-and, count-update_where,
  update_where-none, any-find, take,
}

pub data ConfigOrigin : Type 0 where
  migrated company_approval platform_edit : ConfigOrigin

-- A test of equality, with its law.
pub record Key (K : Type 0) : Type 0 where
  pub same : K → K → Bool
  pub same_iff : (a b : K) → (same a b ≡ true) ↔ (a ≡ b)

pub record Version (K V : Type 0) : Type 0 where
  pub id : ℕ
  pub key : K
  pub values : V
  pub origin : ConfigOrigin
  pub origin_company_id : Option ℕ
  pub valid_from : ℕ
  pub valid_to : Option ℕ
  pub created_by : Option ℕ

pub record NewVersion (K V : Type 0) : Type 0 where
  pub key : K
  pub values : V
  pub origin : ConfigOrigin
  pub origin_company_id : Option ℕ
  pub created_by : Option ℕ

pub record VersionPage (K V : Type 0) : Type 0 where
  pub versions : List (Version K V)
  pub next_before : Option ℕ

abbrev pub opened : {K V : Type 0} → ℕ → ℕ → NewVersion K V → Version K V
opened id from next = record {
  id = id;
  key = next.key;
  values = next.values;
  origin = next.origin;
  origin_company_id = next.origin_company_id;
  valid_from = from;
  valid_to = none;
  created_by = next.created_by;
}

abbrev pub is_open : {K V : Type 0} → Version K V → Bool
is_open v = is_none v.valid_to

-- `GREATEST(valid_from, now)`
abbrev pub end_of : {K V : Type 0} → ℕ → Version K V → ℕ
end_of now v = if ltb v.valid_from now then now else v.valid_from

abbrev pub close : {K V : Type 0} → ℕ → Version K V → Version K V
close now v = record v { valid_to = some (end_of now v) }

module _ {K V : Type 0} where
  abbrev pub insert_desc : Version K V → List (Version K V) → List (Version K V)
  insert_desc v [] = v ∷ []
  insert_desc v (x ∷ xs) =
      let rest = insert_desc v xs in if ltb v.id x.id then x ∷ rest else v ∷ x ∷ xs

  -- `orderBy: { id: 'desc' }`
  abbrev pub order_desc : List (Version K V) → List (Version K V)
  order_desc [] = []
  order_desc (v ∷ vs) = insert_desc v (order_desc vs)

  abbrev pub is_before : Option ℕ → Version K V → Bool
  is_before none v = true
  is_before (some id) v = ltb v.id id

  abbrev pub last_id : List (Version K V) → Option ℕ
  last_id [] = none
  last_id (v ∷ []) = some v.id
  last_id (v ∷ w ∷ vs) = last_id (w ∷ vs)

  -- pageVersions
  unfoldable pub page_versions : List (Version K V) → ℕ → VersionPage K V
  page_versions rows limit = record {
    versions = take limit rows;
    next_before = if ltb limit (length rows) then last_id (take limit rows) else none;
  }

module _ {K V : Type 0} ⦃k : Key K⦄ where
  abbrev pub is_for : K → Version K V → Bool
  is_for key v = k.same v.key key

  abbrev pub is_current : K → Version K V → Bool
  is_current key v = is_for key v && is_open v

  -- findCurrent
  abbrev pub find_current : K → List (Version K V) → Option (Version K V)
  find_current key versions = find (is_current key) versions

  abbrev pub is_expected : ℕ → K → Version K V → Bool
  is_expected expected key v = v.id == expected && is_for key v && is_open v

  abbrev pub replace_found :
      ℕ
      → ℕ
      → ℕ
      → NewVersion K V
      → List (Version K V)
      → Option (Version K V)
      → Option ℕ × List (Version K V)
  replace_found id now expected next versions none = (none, versions)
  replace_found id now expected next versions (some v) = (
    some id,
    update_where (is_expected expected next.key) (close now) versions
        ++ opened id (end_of now v) next ∷ [],
  )

  -- replaceOpenVersion
  unfoldable pub replace_open_version :
      ℕ → ℕ → ℕ → NewVersion K V → List (Version K V) → Option ℕ × List (Version K V)
  replace_open_version id now expected next versions =
      replace_found id now expected next versions (find (is_expected expected next.key) versions)

  -- insertIfNoOpenVersion, with the unique index on open versions
  unfoldable pub insert_if_no_open_version :
      ℕ → ℕ → NewVersion K V → List (Version K V) → Option ℕ × List (Version K V)
  insert_if_no_open_version id now next versions =
      if any (is_current next.key) versions
      then (none, versions)
      else (some id, versions ++ opened id now next ∷ [])

  -- listVersions
  unfoldable pub list_versions : K → Option ℕ → ℕ → List (Version K V) → List (Version K V)
  list_versions key before n versions =
      take n (order_desc (filter (λ v. is_for key v && is_before before v) versions))

  -- The page of a history, which asks for one version more than it shows.
  unfoldable pub history_page : K → Option ℕ → ℕ → List (Version K V) → VersionPage K V
  unfolding list_versions page_versions
  history_page key before limit versions =
      page_versions (list_versions key before (limit + 1) versions) limit
