-- ===== src/Prelude/Members.antt =====
-- Membership in a list, by recursion.
use Prim.Native.Nat.{◌<◌}
use mathlib.Core.Path.{◌≡◌, refl, sym, ap, subst}
use mathlib.Core.Logic.{◌⊎◌, inl, inr}
use mathlib.Core.Bool.{Bool, true}
use mathlib.Core.Option.{some}
use mathlib.Core.List.{List, [], ◌∷◌, ◌++◌, map}
use native.Mathlib.Omega.{arith}
use voyya_backend.Prelude.Tests.{Bool-cases}
use voyya_backend.Prelude.Lists.{length, filter, find, any, All}

module _ {A : Type 0} where
  abbrev pub In : A → List A → Type 0
  In a [] = ⊥
  In a (x ∷ xs) = (a ≡ x) ⊎ In a xs

  pub All-In {κ} : (P : A → Type κ) (a : A) (xs : List A) → All P xs → In a xs → P a
  All-In P a [] h m = absurd m
  All-In P a (x ∷ xs) h (inl e) = subst P (sym e) h.0
  All-In P a (x ∷ xs) h (inr m) = All-In P a xs h.1 m

  pub All-of {κ} : (P : A → Type κ) (xs : List A) → ((a : A) → In a xs → P a) → All P xs
  All-of P [] h = tt
  All-of P (x ∷ xs) h = (h x (inl refl), All-of P xs (λ a m. h a (inr m)))

  pub All-map {κ κ'} :
      (P : A → Type κ) (Q : A → Type κ') (xs : List A) → ((a : A) → P a → Q a) → All P xs → All Q xs
  All-map P Q [] f h = tt
  All-map P Q (x ∷ xs) f h = (f x h.0, All-map P Q xs f h.1)

  pub All-filter {κ} :
      (P : A → Type κ) (p : A → Bool) (xs : List A) → All P xs → All P (filter p xs)
  All-filter P p [] h = tt
  All-filter P p (x ∷ xs) h = elim (Bool-cases (p x)) [
    | inl e ↦ rw e (h.0, All-filter P p xs h.1)
    | inr e ↦ rw e (All-filter P p xs h.1)
  ]

  pub All-++ {κ} : (P : A → Type κ) (xs ys : List A) → All P xs → All P ys → All P (xs ++ ys)
  All-++ P [] ys h k = k
  All-++ P (x ∷ xs) ys h k = (h.0, All-++ P xs ys h.1 k)

  pub In-filter : (p : A → Bool) (a : A) (xs : List A) → In a xs → p a ≡ true → In a (filter p xs)
  In-filter p a [] m e = absurd m
  In-filter p a (x ∷ xs) (inl q) e =
      let t : p x ≡ true = subst (λ z. p z ≡ true) q e in rw t (inl q)
  In-filter p a (x ∷ xs) (inr m) e = elim (Bool-cases (p x)) [
    | inl t ↦ rw t (inr (In-filter p a xs m e))
    | inr t ↦ rw t (In-filter p a xs m e)
  ]

  kept_first :
      (p : A → Bool) (a x : A) (xs ys : List A)
      → p x ≡ true
      → (In a ys → In a xs × (p a ≡ true))
      → In a (x ∷ ys)
      → In a (x ∷ xs) × (p a ≡ true)
  kept_first p a x xs ys t f (inl q) = (inl q, subst (λ z. p z ≡ true) (sym q) t)
  kept_first p a x xs ys t f (inr n) = (inr (f n).0, (f n).1)

  pub filter-In : (p : A → Bool) (a : A) (xs : List A) → In a (filter p xs) → In a xs × (p a ≡ true)
  filter-In p a [] m = absurd m
  filter-In p a (x ∷ xs) m = elim (Bool-cases (p x)) [
    | inl t ↦ kept_first p a x xs (filter p xs) t (filter-In p a xs) (rw t at m)
    | inr t ↦ let (n, e) = filter-In p a xs (rw t at m) in (inr n, e)
  ]

  pub In-length : (a : A) (xs : List A) → In a xs → 0 < length xs
  In-length a [] m = absurd m
  In-length a (x ∷ xs) m = omega arith

  pub any-In : (p : A → Bool) (xs : List A) → any p xs ≡ true → (a : A) × In a xs × (p a ≡ true)
  any-In p [] e = cc
  any-In p (x ∷ xs) e = elim (Bool-cases (p x)) [
    | inl t ↦ (x, inl refl, t)
    | inr t ↦ let (a, m, q) = any-In p xs (rw t at e) in (a, inr m, q)
  ]

  pub In-any : (p : A → Bool) (xs : List A) (a : A) → In a xs → p a ≡ true → any p xs ≡ true
  In-any p [] a m e = absurd m
  In-any p (x ∷ xs) a (inl q) e = rw (subst (λ z. p z ≡ true) q e)
  In-any p (x ∷ xs) a (inr m) e = elim (Bool-cases (p x)) [
    | inl t ↦ rw t
    | inr t ↦ rw t (In-any p xs a m e)
  ]

  pub find-In : (p : A → Bool) (xs : List A) (a : A) → find p xs ≡ some a → In a xs × (p a ≡ true)
  find-In p [] a e = cc
  find-In p (x ∷ xs) a e = elim (Bool-cases (p x)) [
    | inl t ↦
        let h : some x ≡ some a = rw t at e in
        let q : x ≡ a = cc in (inl (sym q), subst (λ z. p z ≡ true) q t)
    | inr t ↦ let (m, q) = find-In p xs a (rw t at e) in (inr m, q)
  ]

pub In-map : {A B : Type 0} (f : A → B) (a : A) (xs : List A) → In a xs → In (f a) (map f xs)
In-map f a [] m = absurd m
In-map f a (x ∷ xs) (inl q) = inl (ap f q)
In-map f a (x ∷ xs) (inr m) = inr (In-map f a xs m)

pub map-In :
    {A B : Type 0} (f : A → B) (b : B) (xs : List A)
    → In b (map f xs)
    → (a : A) × (b ≡ f a) × In a xs
map-In f b [] m = absurd m
map-In f b (x ∷ xs) (inl q) = (x, q, inl refl)
map-In f b (x ∷ xs) (inr m) = let (a, e, n) = map-In f b xs m in (a, e, inr n)
