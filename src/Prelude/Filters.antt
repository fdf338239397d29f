-- ===== src/Prelude/Filters.antt =====
-- Filtered lists under updates, searches and counts.
use mathlib.Core.Path.{◌≡◌, refl}
use mathlib.Core.Logic.{inl, inr}
use mathlib.Core.Bool.{Bool, true, false, ◌&&◌}
use mathlib.Core.List.{List, [], ◌∷◌, ◌++◌}
use voyya_backend.Prelude.Tests.{Bool-cases}
use voyya_backend.Prelude.Lists.{filter, find, any, count, update_where}

module _ {A : Type 0} where
  pub filter-append :
      (p : A → Bool) (xs ys : List A) → filter p (xs ++ ys) ≡ filter p xs ++ filter p ys
  filter-append p [] ys = refl
  filter-append p (x ∷ xs) ys = elim (Bool-cases (p x)) [
    | inl t ↦ rw (t, filter-append p xs ys) refl
    | inr t ↦ rw (t, filter-append p xs ys) refl
  ]

  -- An update that keeps what the filter tests.
  pub filter-update_where :
      (q p : A → Bool) (f : A → A) (xs : List A)
      → ((a : A) → q (f a) ≡ q a)
      → filter q (update_where p f xs) ≡ update_where p f (filter q xs)
  filter-update_where q p f [] h = refl
  filter-update_where q p f (x ∷ xs) h =
      let rest = filter-update_where q p f xs h in
      elim (Bool-cases (p x)) [
        | inl t ↦ elim (Bool-cases (q x)) [
          | inl s ↦ let s' : q (f x) ≡ true = rw (h x) s in rw (t, s, s', rest, t) refl
          | inr s ↦ let s' : q (f x) ≡ false = rw (h x) s in rw (t, s, s', rest) refl
        ]
        | inr t ↦ elim (Bool-cases (q x)) [
          | inl s ↦ rw (t, s, rest, t) refl
          | inr s ↦ rw (t, s, rest) refl
        ]
      ]

  -- An update of rows that the filter drops.
  pub update_where-filter :
      (q p : A → Bool) (f : A → A) (xs : List A)
      → ((a : A) → q a ≡ true → p a ≡ false)
      → update_where p f (filter q xs) ≡ filter q xs
  update_where-filter q p f [] h = refl
  update_where-filter q p f (x ∷ xs) h = elim (Bool-cases (q x)) [
    | inl s ↦ rw (s, h x s, update_where-filter q p f xs h) refl
    | inr s ↦ rw (s, update_where-filter q p f xs h) refl
  ]

  -- A search for what the filter keeps.
  pub find-filter :
      (q p : A → Bool) (xs : List A)
      → ((a : A) → p a ≡ true → q a ≡ true)
      → find p (filter q xs) ≡ find p xs
  find-filter q p [] h = refl
  find-filter q p (x ∷ xs) h = elim (Bool-cases (p x)) [
    | inl t ↦ rw (h x t, t) refl
    | inr t ↦ elim (Bool-cases (q x)) [
      | inl s ↦ rw (s, t, find-filter q p xs h) refl
      | inr s ↦ rw (s, t, find-filter q p xs h) refl
    ]
  ]

  pub any-filter : (q p : A → Bool) (xs : List A) → any p (filter q xs) ≡ any (λ a. q a && p a) xs
  any-filter q p [] = refl
  any-filter q p (x ∷ xs) = elim (Bool-cases (q x)) [
    | inl s ↦ rw (s, any-filter q p xs) refl
    | inr s ↦ rw (s, any-filter q p xs) refl
  ]

  pub count-filter :
      (q p : A → Bool) (xs : List A) → count p (filter q xs) ≡ count (λ a. q a && p a) xs
  count-filter q p [] = refl
  count-filter q p (x ∷ xs) = elim (Bool-cases (q x)) [
    | inl s ↦ rw (s, count-filter q p xs) refl
    | inr s ↦ rw (s, count-filter q p xs) refl
  ]

  pub filter-filter :
      (q p : A → Bool) (xs : List A) → filter p (filter q xs) ≡ filter (λ a. q a && p a) xs
  filter-filter q p [] = refl
  filter-filter q p (x ∷ xs) = elim (Bool-cases (q x)) [
    | inl s ↦ elim (Bool-cases (p x)) [
      | inl t ↦ rw (s, t, filter-filter q p xs) refl
      | inr t ↦ rw (s, t, filter-filter q p xs) refl
    ]
    | inr s ↦ rw (s, filter-filter q p xs) refl
  ]
