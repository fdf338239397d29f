-- ===== src/ServiceConfig/Versions/Intervals.antt =====
-- The intervals of the versions of a table: apps/api/src/modules/service-config, the statements
-- replaceOpenVersion and insertIfNoOpenVersion of its three repositories.
use voyya_backend.ServiceConfig.Versions.Chains.{AllBelow, Chain, Chain-close, Chain-empty}
use voyya_backend.Prelude.{
  All-map, All-filter, All-++, ℕ, suc, ◌≤◌, ◌<◌, ◌≡◌, refl, sym, ap, ◌∙◌, subst, inl, inr, Bool,
  true, false, Option, none, some, List, [], ◌∷◌, ◌++◌, arith, Bool-cases, find, filter,
  update_where, any, All-update_where, filter-append, any-filter, filter-update_where, find-filter,
  update_where-filter,
}
use voyya_backend.ServiceConfig.Versions.{
  Key, Version, NewVersion, opened, is_open, end_of, close, is_for, is_current, is_expected,
  replace_open_version, replace_found, insert_if_no_open_version,
}

module _ {K V : Type 0} ⦃k : Key K⦄ where
  -- The versions for each key are a chain.
  abbrev pub IsTimeline : List (Version K V) → Type 0
  IsTimeline versions = (key : K) → Chain (filter (is_for key) versions)

  -- The chain of one key after a version for `next.key` is added.
  other_key :
      (key : K) (v : Version K V) (vs : List (Version K V))
      → k.same v.key key ≡ false
      → filter (is_for key) (vs ++ v ∷ []) ≡ filter (is_for key) vs
  other_key key v vs e =
      rw (filter-append (is_for key) vs (v ∷ []), e) (append_nil (filter (is_for key) vs))
    where
      append_nil : (xs : List (Version K V)) → xs ++ [] ≡ xs
      append_nil [] = refl
      append_nil (x ∷ xs) = ap (λ r. x ∷ r) (append_nil xs)

  own_key :
      (key : K) (v : Version K V) (vs : List (Version K V))
      → k.same v.key key ≡ true
      → filter (is_for key) (vs ++ v ∷ []) ≡ filter (is_for key) vs ++ v ∷ []
  own_key key v vs e = rw (filter-append (is_for key) vs (v ∷ []), e) refl

  -- A version that is expected is for no other key.
  expected_key :
      (expected : ℕ) (key key' : K) (v : Version K V)
      → k.same key key' ≡ false
      → is_for key' v ≡ true
      → is_expected expected key v ≡ false
  expected_key expected key key' v d e = elim (Bool-cases (k.same v.key key)) [
    | inr other ↦ ground arith
    | inl own ↦
        let same' : k.same key key' ≡ true =
          subst (λ x. k.same x key' ≡ true) ((k.same_iff v.key key).0 own) e in
        cc
  ]

  expected_open :
      (expected : ℕ) (key : K) (v : Version K V)
      → is_expected expected key v ≡ true
      → (is_for key v ≡ true) × (is_open v ≡ true)
  expected_open expected key v e = (ground arith, ground arith)

  -- A key without an open version has no version, and its first is a chain.
  first-Chain :
      (id now : ℕ) (next : NewVersion K V) (vs : List (Version K V))
      → IsTimeline vs
      → any (is_current next.key) vs ≡ false
      → Chain (filter (is_for next.key) (vs ++ opened id now next ∷ []))
  first-Chain id now next vs h free =
      let unused =
        Chain-empty (filter (is_for next.key) vs) (h next.key)
          (any-filter (is_for next.key) is_open vs ∙ free) in
      rw (own_key next.key (opened id now next) vs ((k.same_iff next.key next.key).1 refl), unused)
        refl

  pub insert-IsTimeline :
      (id now : ℕ) (next : NewVersion K V) (vs : List (Version K V))
      → IsTimeline vs
      → IsTimeline (insert_if_no_open_version id now next vs).1
  unfolding insert_if_no_open_version
  insert-IsTimeline id now next vs h = elim (Bool-cases (any (is_current next.key) vs)) [
    | inl taken ↦ rw taken h
    | inr free ↦ rw free (λ key. elim (Bool-cases (k.same next.key key)) [
      | inr other ↦ subst Chain (sym (other_key key (opened id now next) vs other)) (h key)
      | inl own ↦
          subst (λ x. Chain (filter (is_for x) (vs ++ opened id now next ∷ [])))
            ((k.same_iff next.key key).0 own) (first-Chain id now next vs h free)
    ])
  ]

  pub replace-IsTimeline :
      (id now expected : ℕ) (next : NewVersion K V) (vs : List (Version K V))
      → IsTimeline vs
      → AllBelow id vs
      → IsTimeline (replace_open_version id now expected next vs).1
  unfolding replace_open_version
  replace-IsTimeline id now expected next vs h b = go (find (is_expected expected next.key) vs) refl
    where
      p : Version K V → Bool
      p = is_expected expected next.key

      at_key :
          (v : Version K V)
          → find p vs ≡ some v
          → Chain (
              filter
                (is_for next.key)
                (update_where p (close now) vs ++ opened id (end_of now v) next ∷ []))
      at_key v f =
          rw
            (
              own_key next.key (opened id (end_of now v) next) (update_where p (close now) vs)
                  ((k.same_iff next.key next.key).1 refl),
              filter-update_where (is_for next.key) p (close now) vs (λ a. refl),
            )
            (Chain-close p id now next (filter (is_for next.key) vs) v
              (λ u t. (expected_open expected next.key u t).1) (h next.key)
              (All-filter (λ (u : Version K V). u.id < id) (is_for next.key) vs b)
              (find-filter (is_for next.key) p vs (λ u t. (expected_open expected next.key u t).0)
                ∙ f))

      own :
          (v : Version K V) (key : K)
          → k.same next.key key ≡ true
          → find p vs ≡ some v
          → Chain (
              filter
                (is_for key)
                (update_where p (close now) vs ++ opened id (end_of now v) next ∷ []))
      own v key s f =
          subst
            (λ x. Chain (
              filter (is_for x)
                (update_where p (close now) vs ++ opened id (end_of now v) next ∷ [])))
            ((k.same_iff next.key key).0 s) (at_key v f)

      other :
          (v : Version K V) (key : K)
          → k.same next.key key ≡ false
          → Chain (
              filter
                (is_for key)
                (update_where p (close now) vs ++ opened id (end_of now v) next ∷ []))
      other v key s =
          rw
            (
              other_key key (opened id (end_of now v) next) (update_where p (close now) vs) s,
              filter-update_where (is_for key) p (close now) vs (λ a. refl),
              update_where-filter (is_for key) p (close now) vs
                  (λ a e. expected_key expected next.key key a s e),
            )
            (h key)

      go :
          (found : Option (Version K V))
          → find p vs ≡ found
          → IsTimeline (replace_found id now expected next vs found).1
      go none f = h
      go (some v) f = λ key. elim (Bool-cases (k.same next.key key)) [
        | inl s ↦ own v key s f
        | inr s ↦ other v key s
      ]

  pub AllBelow-more :
      (id id' : ℕ) (vs : List (Version K V)) → id ≤ id' → AllBelow id vs → AllBelow id' vs
  AllBelow-more id id' vs l b =
      All-map (λ (v : Version K V). v.id < id) (λ (v : Version K V). v.id < id') vs
        (λ v q. omega arith) b

  -- What a write adds stays below the next identifier.
  pub replace-AllBelow :
      (id now expected : ℕ) (next : NewVersion K V) (vs : List (Version K V))
      → AllBelow id vs
      → AllBelow (suc id) (replace_open_version id now expected next vs).1
  unfolding replace_open_version
  replace-AllBelow id now expected next vs b = go (find (is_expected expected next.key) vs)
    where
      below : AllBelow (suc id) vs
      below = AllBelow-more id (suc id) vs (omega arith) b

      go :
          (found : Option (Version K V))
          → AllBelow (suc id) (replace_found id now expected next vs found).1
      go none = below
      go (some v) =
          All-++ (λ (u : Version K V). u.id < suc id) _ _
            (All-update_where (λ (u : Version K V). u.id < suc id) (is_expected expected next.key)
              (close now) vs (λ u t q. q) below)
            (omega arith, tt)

  pub insert-AllBelow :
      (id now : ℕ) (next : NewVersion K V) (vs : List (Version K V))
      → AllBelow id vs
      → AllBelow (suc id) (insert_if_no_open_version id now next vs).1
  unfolding insert_if_no_open_version
  insert-AllBelow id now next vs b = elim (Bool-cases (any (is_current next.key) vs)) [
    | inl taken ↦ rw taken (AllBelow-more id (suc id) vs (omega arith) b)
    | inr free ↦ rw free (
        All-++ (λ (u : Version K V). u.id < suc id) vs _
          (AllBelow-more id (suc id) vs (omega arith) b) (omega arith, tt))
  ]
