-- ===== src/ServiceConfig/Versions/Replaced.antt =====
-- What is current, and what is expected no more, after replaceOpenVersion in the repositories of
-- apps/api/src/modules/service-config.
use voyya_backend.Prelude.{
  find-In, All-In, ℕ, ◌<◌, ◌≡◌, refl, sym, ◌∙◌, subst, inl, inr, Bool, true, false, none, some,
  List, [], ◌∷◌, ◌++◌, arith, Bool-cases, ==→eq, find, filter, update_where, count, count-filter,
}
use voyya_backend.ServiceConfig.Versions.{
  Key, Version, NewVersion, opened, is_open, end_of, close, is_for, is_current, is_expected,
  find_current, replace_open_version, replace_found,
}
use voyya_backend.ServiceConfig.Versions.Chains.{Chain-open, AllBelow, Chain}
use voyya_backend.ServiceConfig.Versions.Intervals.{IsTimeline, replace-IsTimeline}
use voyya_backend.ServiceConfig.Tables.{company_key}

module _ {A : Type 0} where
  find-updated :
      (p : A → Bool) (f : A → A) (xs : List A)
      → ((a : A) → p (f a) ≡ false)
      → find p (update_where p f xs) ≡ none
  find-updated p f [] h = refl
  find-updated p f (x ∷ xs) h = elim (Bool-cases (p x)) [
    | inl t ↦ rw (t, h x) (find-updated p f xs h)
    | inr t ↦ rw (t, t) (find-updated p f xs h)
  ]

  find-append_none :
      (p : A → Bool) (xs : List A) (a : A)
      → find p xs ≡ none
      → p a ≡ false
      → find p (xs ++ a ∷ []) ≡ none
  find-append_none p [] a e h = rw h refl
  find-append_none p (x ∷ xs) a e h = elim (Bool-cases (p x)) [
    | inl t ↦ cc (rw t at e)
    | inr t ↦ rw t (find-append_none p xs a (rw t at e) h)
  ]

  last_counts : (p : A → Bool) (xs : List A) (a : A) → p a ≡ true → 0 < count p (xs ++ a ∷ [])
  last_counts p [] a h = rw h (omega arith)
  last_counts p (x ∷ xs) a h = let rest = last_counts p xs a h in ground arith

  -- The one row that is counted is the last.
  find-last :
      (p : A → Bool) (xs : List A) (a : A)
      → p a ≡ true
      → count p (xs ++ a ∷ []) ≡ 1
      → find p (xs ++ a ∷ []) ≡ some a
  find-last p [] a h e = rw h refl
  find-last p (x ∷ xs) a h e = elim (Bool-cases (p x)) [
    | inl t ↦ let more = last_counts p xs a h in absurd (omega (arith, rw t at e))
    | inr t ↦ rw t (find-last p xs a h (rw t at e))
  ]

module _ {K V : Type 0} ⦃k : Key K⦄ (id now expected : ℕ) (next : NewVersion K V)
    (versions : List (Version K V)) where
  abbrev p : Version K V → Bool
  p = is_expected expected next.key

  abbrev pub replaced : Version K V → List (Version K V)
  replaced v = update_where p (close now) versions ++ opened id (end_of now v) next ∷ []

  -- The version that is replaced is expected no more.
  pub replaced_unexpected :
      (v : Version K V)
      → find p versions ≡ some v
      → AllBelow id versions
      → find p (replaced v) ≡ none
  replaced_unexpected v f b =
      let (m, t) = find-In p versions v f in
      let l = All-In (λ (u : Version K V). u.id < id) v versions b m in
      find-append_none p (update_where p (close now) versions) (opened id (end_of now v) next)
        (find-updated p (close now) versions (λ a. ground arith))
        (let e : v.id ≡ expected = ==→eq v.id expected (ground (arith, t)) in fresh (omega arith))
    where
      fresh : expected < id → p (opened id (end_of now v) next) ≡ false
      fresh l = ground arith

  open_one : (c : List (Version K V)) → Chain c → 0 < count is_open c → count is_open c ≡ 1
  open_one [] h l = absurd (omega arith)
  open_one (v ∷ vs) h l = Chain-open v vs h

  -- A last version that is current is the one that is found.
  pub last_current :
      (v : Version K V) (vs : List (Version K V))
      → IsTimeline (vs ++ v ∷ [])
      → is_current next.key v ≡ true
      → find_current next.key (vs ++ v ∷ []) ≡ some v
  last_current v vs h c =
      let all = vs ++ v ∷ [] in
      let q = count-filter (is_for next.key) is_open all in
      let some_open : 0 < count is_open (filter (is_for next.key) all) =
        subst (λ n. 0 < n) (sym q) (last_counts (is_current next.key) vs v c) in
      find-last (is_current next.key) vs v c
        (sym q ∙ open_one (filter (is_for next.key) all) (h next.key) some_open)

  pub replaced_current :
      (v : Version K V)
      → find p versions ≡ some v
      → AllBelow id versions
      → IsTimeline versions
      → find_current next.key (replaced v) ≡ some (opened id (end_of now v) next)
  unfolding replace_open_version
  replaced_current v f b h =
      last_current (opened id (end_of now v) next) (update_where p (close now) versions)
        (subst (λ found. IsTimeline (replace_found id now expected next versions found).1) f
          (replace-IsTimeline id now expected next versions h b))
        (own ((k.same_iff next.key next.key).1 refl))
    where
      own :
          k.same next.key next.key ≡ true
          → is_current next.key (opened id (end_of now v) next) ≡ true
      own e = rw e refl
