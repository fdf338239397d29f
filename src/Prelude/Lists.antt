-- ===== src/Prelude/Lists.antt =====
-- Lists over the native numbers, and the table operations of the database layer: a table is the
-- list of its rows.
use Prim.Native.Nat.{ℕ, zero, suc, ◌+◌, ◌≤◌}
use mathlib.Core.Path.{◌≡◌, refl, subst}
use mathlib.Core.Bool.{Bool, true, false, ◌&&◌}
use mathlib.Core.Option
use mathlib.Core.Option.{Option, none, some}
use mathlib.Core.List.{List, [], ◌∷◌, ◌++◌}
use native.Mathlib.Omega.{arith}
use voyya_backend.Prelude.Tests.{if◌then◌else◌, is_some}

module _ {ℓ} {A : Type ℓ} where
  abbrev pub length : List A → ℕ
  length [] = 0
  length (x ∷ xs) = suc (length xs)

  pub length-append : (xs ys : List A) → length (xs ++ ys) ≡ length xs + length ys
  length-append [] ys = omega arith
  length-append (x ∷ xs) ys = omega (arith, length-append xs ys)

  -- `array.find(p)`, and `SELECT … LIMIT 1`.
  abbrev pub find : (A → Bool) → List A → Option A
  find p [] = none
  find p (x ∷ xs) = if p x then some x else find p xs

  -- `array.filter(p)`, and `DELETE … WHERE NOT p`.
  abbrev pub filter : (A → Bool) → List A → List A
  filter p [] = []
  filter p (x ∷ xs) = if p x then x ∷ filter p xs else filter p xs

  -- `UPDATE … SET f WHERE p`.
  abbrev pub take : ℕ → List A → List A
  take zero xs = []
  take (suc n) [] = []
  take (suc n) (x ∷ xs) = x ∷ take n xs

  abbrev pub update_where : (A → Bool) → (A → A) → List A → List A
  update_where p f [] = []
  update_where p f (x ∷ xs) = (if p x then f x else x) ∷ update_where p f xs

  abbrev pub any : (A → Bool) → List A → Bool
  any p [] = false
  any p (x ∷ xs) = if p x then true else any p xs

  -- The number of rows that meet `p`.
  abbrev pub count : (A → Bool) → List A → ℕ
  count p [] = 0
  count p (x ∷ xs) = if p x then suc (count p xs) else count p xs

module _ {ℓ κ} {A : Type ℓ} (P : A → Type κ) where
  abbrev pub All : List A → Type κ
  All [] = Unit
  All (x ∷ xs) = P x × All xs

module _ {ℓ} {A : Type ℓ} where
  -- Two tables of the same length, related row by row.
  pub data Rowwise {κ} (R : A → A → Type κ) : List A → List A → Type (ℓ ⊔ κ) where
    nil : Rowwise R [] []
    cons : {x y : A} {xs ys : List A} → R x y → Rowwise R xs ys → Rowwise R (x ∷ xs) (y ∷ ys)

  pub All-update_where {κ} :
      (P : A → Type κ) (p : A → Bool) (f : A → A) (xs : List A)
      → ((x : A) → p x ≡ true → P x → P (f x))
      → All P xs
      → All P (update_where p f xs)
  All-update_where P p f [] k h = tt
  All-update_where P p f (x ∷ xs) k h =
      (row (p x) (λ e. k x e h.0), All-update_where P p f xs k h.1)
    where
      row : (b : Bool) → (b ≡ true → P (f x)) → P (if b then f x else x)
      row true yes' = yes' refl
      row false yes' = h.0

  -- An update relates each row to the row that takes its place.
  pub Rowwise-update_where {κ κ'} :
      {R : A → A → Type κ} (P : A → Type κ') (p : A → Bool) (f : A → A) (xs : List A)
      → ((x : A) → R x x)
      → ((x : A) → p x ≡ true → P x → R x (f x))
      → All P xs
      → Rowwise R xs (update_where p f xs)
  Rowwise-update_where P p f [] same' k h = nil
  Rowwise-update_where {R = R} P p f (x ∷ xs) same' k h =
      cons (row (p x) (λ e. k x e h.0)) (Rowwise-update_where P p f xs same' k h.1)
    where
      row : (b : Bool) → (b ≡ true → R x (f x)) → R x (if b then f x else x)
      row true changed = changed refl
      row false changed = same' x

  pub any-eq_false {κ} :
      (P : A → Type κ) (p : A → Bool) (xs : List A)
      → ((x : A) → P x → p x ≡ false)
      → All P xs
      → any p xs ≡ false
  any-eq_false P p [] k h = refl
  any-eq_false P p (x ∷ xs) k h = rw (k x h.0) (any-eq_false P p xs k h.1)

  pub All-find {κ} :
      (P : A → Type κ) (p : A → Bool) (xs : List A) (x : A)
      → All P xs
      → find p xs ≡ some x
      → P x × (p x ≡ true)
  All-find P p [] x h e = cc
  All-find P p (y ∷ ys) x h e = go (p y) refl e (All-find P p ys x h.1)
    where
      go :
          (b : Bool)
          → p y ≡ b
          → (if b then some y else find p ys) ≡ some x
          → (find p ys ≡ some x → P x × (p x ≡ true))
          → P x × (p x ≡ true)
      go true b e' later = let q : y ≡ x = cc in subst (λ z. P z × (p z ≡ true)) q (h.0, b)
      go false b e' later = later e'

  pub Rowwise-refl {κ} : {R : A → A → Type κ} → ((x : A) → R x x) → (xs : List A) → Rowwise R xs xs
  Rowwise-refl r [] = nil
  Rowwise-refl r (x ∷ xs) = cons (r x) (Rowwise-refl r xs)

  pub Rowwise-trans {κ} :
      {R : A → A → Type κ}
      → ((x y z : A) → R x y → R y z → R x z)
      → {xs ys zs : List A} → Rowwise R xs ys
      → Rowwise R ys zs
      → Rowwise R xs zs
  Rowwise-trans t nil nil = nil
  Rowwise-trans t (cons r rs) (cons q qs) = cons (t _ _ _ r q) (Rowwise-trans t rs qs)

  -- What an update leaves under a key that it does not change.
  pub find-update_where :
      (key p : A → Bool) (f : A → A) (xs : List A)
      → ((x : A) → key (f x) ≡ key x)
      → find key (update_where p f xs) ≡ Option.map (λ x. if p x then f x else x) (find key xs)
  find-update_where key p f [] k = refl
  find-update_where key p f (x ∷ xs) k = go (p x) (key x) refl refl (find-update_where key p f xs k)
    where
      Goal : (b c : Bool) → Type ℓ
      Goal b c =
          (if key (if b then f x else x)
            then some (if b then f x else x)
            else find key (update_where p f xs))
          ≡ Option.map (λ y. if p y then f y else y) (if c then some x else find key xs)

      go :
          (b c : Bool)
          → p x ≡ b
          → key x ≡ c
          → find key (update_where p f xs) ≡ Option.map (λ y. if p y then f y else y) (find key xs)
          → Goal b c
      go true true e d ih = rw (k x, d) (rw e)
      go true false e d ih = rw (k x, d) ih
      go false true e d ih = rw d (rw e)
      go false false e d ih = rw d ih

  -- A key that at most one row has.
  abbrev pub keep : (A → Bool) → Option A → Option A
  keep c none = none
  keep c (some x) = if c x then some x else none

  find_absent :
      (key c : A → Bool) (xs : List A) → count key xs ≤ 0 → find (λ x. key x && c x) xs ≡ none
  find_absent key c [] h = refl
  find_absent key c (x ∷ xs) h = ground (arith, find_absent key c xs)

  pub find-and :
      (key c : A → Bool) (xs : List A)
      → count key xs ≤ 1
      → find (λ x. key x && c x) xs ≡ keep c (find key xs)
  find-and key c [] h = refl
  find-and key c (x ∷ xs) h = ground (arith, find-and key c xs, find_absent key c xs)

  pub count-update_where :
      (key p : A → Bool) (f : A → A) (xs : List A)
      → ((x : A) → key (f x) ≡ key x)
      → count key (update_where p f xs) ≡ count key xs
  count-update_where key p f [] k = refl
  count-update_where key p f (x ∷ xs) k = ground (arith, count-update_where key p f xs k, k x)

  -- An update that finds no row changes nothing.
  pub update_where-none :
      (p : A → Bool) (f : A → A) (xs : List A) → find p xs ≡ none → update_where p f xs ≡ xs
  update_where-none p f [] h = refl
  update_where-none p f (x ∷ xs) h = ground (arith, update_where-none p f xs)

  pub any-find : (p : A → Bool) (xs : List A) → any p xs ≡ is_some (find p xs)
  any-find p [] = refl
  any-find p (x ∷ xs) = ground (arith, any-find p xs)
