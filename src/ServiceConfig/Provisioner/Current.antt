-- ===== src/ServiceConfig/Provisioner/Current.antt =====
-- Keys that have a current version, through the writes of the repositories of
-- apps/api/src/modules/service-config.
use voyya_backend.Prelude.{
  In, ℕ, ◌≡◌, refl, ap, ◌∙◌, inl, inr, Bool, true, Option, none, some, List, [], ◌∷◌, ◌++◌, arith,
  ltb, is_some, Bool-cases, find, update_where, any, any-find,
}
use voyya_backend.ServiceConfig.Versions.{
  Key, Version, NewVersion, opened, end_of, close, is_current, is_expected, find_current,
  replace_found, replace_open_version, insert_if_no_open_version,
}
use voyya_backend.ServiceConfig.Tables.{ServiceType, rank, company_key, service_key}
use voyya_backend.ServiceConfig.Provisioner.{insert_service, sort_services}

module _ {A : Type 0} where
  any-append : (p : A → Bool) (xs ys : List A) → any p xs ≡ true → any p (xs ++ ys) ≡ true
  any-append p [] ys h = cc
  any-append p (x ∷ xs) ys h = elim (Bool-cases (p x)) [
    | inl t ↦ rw t refl
    | inr t ↦ rw t (any-append p xs ys (rw t at h))
  ]

  find-append :
      (p : A → Bool) (xs ys : List A) (a : A) → find p xs ≡ some a → find p (xs ++ ys) ≡ some a
  find-append p [] ys a h = cc
  find-append p (x ∷ xs) ys a h = elim (Bool-cases (p x)) [
    | inl t ↦ rw t (rw t at h)
    | inr t ↦ rw t (find-append p xs ys a (rw t at h))
  ]

  any-last : (p : A → Bool) (xs : List A) (a : A) → p a ≡ true → any p (xs ++ a ∷ []) ≡ true
  any-last p [] a h = rw h refl
  any-last p (x ∷ xs) a h = rw (any-last p xs a h) (ground arith)

  In-last : (xs : List A) (a : A) → In a (xs ++ a ∷ [])
  In-last [] a = inl refl
  In-last (x ∷ xs) a = inr (In-last xs a)

module _ {K V : Type 0} ⦃k : Key K⦄ where
  -- The key has a version that is open.
  abbrev pub HasCurrent : K → List (Version K V) → Type 0
  HasCurrent key versions = any (is_current key) versions ≡ true

  pub found-HasCurrent :
      (key : K) (versions : List (Version K V)) (v : Version K V)
      → find_current key versions ≡ some v
      → HasCurrent key versions
  found-HasCurrent key versions v e = any-find (is_current key) versions ∙ ap is_some e

  own_current :
      (id from : ℕ) (next : NewVersion K V) → is_current next.key (opened id from next) ≡ true
  own_current id from next = let e = (k.same_iff next.key next.key).1 refl in rw e refl

  pub insert-HasCurrent :
      (id now : ℕ) (next : NewVersion K V) (versions : List (Version K V))
      → HasCurrent next.key (insert_if_no_open_version id now next versions).1
  unfolding insert_if_no_open_version
  insert-HasCurrent id now next versions = elim (Bool-cases (any (is_current next.key) versions)) [
    | inl t ↦ rw t t
    | inr t ↦
        rw t
          (any-last (is_current next.key) versions (opened id now next) (own_current id now next))
  ]

  pub insert-keeps :
      (id now : ℕ) (next : NewVersion K V) (versions : List (Version K V)) (key : K)
      → HasCurrent key versions
      → HasCurrent key (insert_if_no_open_version id now next versions).1
  unfolding insert_if_no_open_version
  insert-keeps id now next versions key h = elim (Bool-cases (any (is_current next.key) versions)) [
    | inl t ↦ rw t h
    | inr t ↦ rw t (any-append (is_current key) versions (opened id now next ∷ []) h)
  ]

  -- What was found as current is found after an insertion.
  pub insert-finds :
      (id now : ℕ) (next : NewVersion K V) (versions : List (Version K V)) (key : K)
      (v : Version K V)
      → find_current key versions ≡ some v
      → find_current key (insert_if_no_open_version id now next versions).1 ≡ some v
  unfolding insert_if_no_open_version
  insert-finds id now next versions key v h =
      elim (Bool-cases (any (is_current next.key) versions)) [
        | inl t ↦ rw t h
        | inr t ↦ rw t (find-append (is_current key) versions (opened id now next ∷ []) v h)
      ]

  -- A write that answers an identifier has put an open version of the key there.
  abbrev pub Wrote : NewVersion K V → Option ℕ × List (Version K V) → Type 0
  Wrote next r =
      (i : ℕ)
      → r.0 ≡ some i
      → (o : Version K V) × In o r.1
        × (o.id ≡ i)
        × (o.values ≡ next.values)
        × (is_current next.key o ≡ true)

  appended-Wrote :
      (id from : ℕ) (next : NewVersion K V) (versions : List (Version K V))
      → Wrote next (some id, versions ++ opened id from next ∷ [])
  appended-Wrote id from next versions i e = (
    opened id from next,
    In-last versions (opened id from next),
    cc,
    refl,
    own_current id from next,
  )

  pub insert-Wrote :
      (id now : ℕ) (next : NewVersion K V) (versions : List (Version K V))
      → Wrote next (insert_if_no_open_version id now next versions)
  unfolding insert_if_no_open_version
  insert-Wrote id now next versions i = elim (Bool-cases (any (is_current next.key) versions)) [
    | inl t ↦ rw t (λ e. cc)
    | inr t ↦ rw t (appended-Wrote id now next versions i)
  ]

  pub replace-Wrote :
      (id now expected : ℕ) (next : NewVersion K V) (versions : List (Version K V))
      → Wrote next (replace_open_version id now expected next versions)
  unfolding replace_open_version
  replace-Wrote id now expected next versions = go (find (is_expected expected next.key) versions)
    where
      go :
          (found : Option (Version K V))
          → Wrote next (replace_found id now expected next versions found)
      go none i e = cc
      go (some v) i e =
          appended-Wrote id (end_of now v) next
            (update_where (is_expected expected next.key) (close now) versions) i e

In-insert : (a s : ServiceType) (ss : List ServiceType) → In a (s ∷ ss) → In a (insert_service s ss)
In-insert a s [] m = m
In-insert a s (x ∷ xs) m = elim (Bool-cases (ltb (rank x) (rank s))) [
  | inr t ↦ rw t m
  | inl t ↦ rw t (go m (In-insert a s xs))
]
  where
    go :
        In a (s ∷ x ∷ xs)
        → (In a (s ∷ xs) → In a (insert_service s xs))
        → In a (x ∷ insert_service s xs)
    go (inl e) f = inr (f (inl e))
    go (inr (inl e)) f = inl e
    go (inr (inr n)) f = inr (f (inr n))

pub In-sort : (a : ServiceType) (ss : List ServiceType) → In a ss → In a (sort_services ss)
In-sort a [] m = absurd m
In-sort a (s ∷ ss) (inl e) = In-insert a s (sort_services ss) (inl e)
In-sort a (s ∷ ss) (inr m) = In-insert a s (sort_services ss) (inr (In-sort a ss m))
