-- ===== src/ServiceConfig/Versions/Newest.antt =====
-- Versions with the newest first: the order of listVersions in the repositories of
-- apps/api/src/modules/service-config.
use voyya_backend.Prelude.{
  All-map, All-filter, All-++, ℕ, zero, suc, ◌≤◌, ◌<◌, ◌≡◌, refl, sym, ap, inl, inr, Bool, true,
  false, some, List, [], ◌∷◌, ◌++◌, arith, ltb, Bool-cases, lt→ltb, length, filter, All,
  filter-append, take,
}
use voyya_backend.ServiceConfig.Versions.{Version, insert_desc, order_desc, is_before, last_id}
use voyya_backend.ServiceConfig.Versions.Chains.{Chain}

module _ {A : Type 0} where
  abbrev pub drop : ℕ → List A → List A
  drop zero xs = xs
  drop (suc n) [] = []
  drop (suc n) (x ∷ xs) = drop n xs

  pub take-drop : (n : ℕ) (xs : List A) → xs ≡ take n xs ++ drop n xs
  take-drop zero xs = refl
  take-drop (suc n) [] = refl
  take-drop (suc n) (x ∷ xs) = ap (λ r. x ∷ r) (take-drop n xs)

  pub take-all : (n : ℕ) (xs : List A) → length xs ≤ n → take n xs ≡ xs
  take-all zero [] h = refl
  take-all zero (x ∷ xs) h = absurd (omega arith)
  take-all (suc n) [] h = refl
  take-all (suc n) (x ∷ xs) h = ap (λ r. x ∷ r) (take-all n xs (omega arith))

  pub take-take : (n : ℕ) (xs : List A) → take n (take (suc n) xs) ≡ take n xs
  take-take zero xs = refl
  take-take (suc n) [] = refl
  take-take (suc n) (x ∷ xs) = ap (λ r. x ∷ r) (take-take n xs)

  -- One row more than the page tells whether there are more.
  pub has_more : (n : ℕ) (xs : List A) → ltb n (length (take (suc n) xs)) ≡ ltb n (length xs)
  has_more n [] = refl
  has_more zero (x ∷ xs) = ground arith
  has_more (suc n) (x ∷ xs) = let h = has_more n xs in ground arith

  pub length-drop : (n : ℕ) (x : A) (xs : List A) → length (drop (suc n) (x ∷ xs)) ≤ length xs
  length-drop zero x xs = omega arith
  length-drop (suc n) x [] = omega arith
  length-drop (suc n) x (y ∷ xs) = let h = length-drop n y xs in omega arith

  pub append_nil : (xs : List A) → xs ++ [] ≡ xs
  append_nil [] = refl
  append_nil (x ∷ xs) = ap (λ r. x ∷ r) (append_nil xs)

  All-mid : (P : A → Type 0) (xs : List A) (y : A) (ys : List A) → All P (xs ++ y ∷ ys) → P y
  All-mid P [] y ys h = h.0
  All-mid P (x ∷ xs) y ys h = All-mid P xs y ys h.1

  pub assoc : (xs ys zs : List A) → (xs ++ ys) ++ zs ≡ xs ++ (ys ++ zs)
  assoc [] ys zs = refl
  assoc (x ∷ xs) ys zs = ap (λ r. x ∷ r) (assoc xs ys zs)

module _ {K V : Type 0} where
  -- Newest first.
  abbrev pub Desc : List (Version K V) → Type 0
  Desc [] = Unit
  Desc (v ∷ vs) = All (λ (u : Version K V). u.id < v.id) vs × Desc vs

  -- A chain has its newest version last.
  newer :
      (v : Version K V) (vs : List (Version K V))
      → Chain (v ∷ vs)
      → All (λ (u : Version K V). v.id < u.id) vs
  newer v [] h = tt
  newer v (w ∷ vs) (e, le, i, h) = (
    i,
    All-map (λ (u : Version K V). w.id < u.id) (λ (u : Version K V). v.id < u.id) vs
        (λ u l. omega arith) (newer w vs h),
  )

  Chain-tail : (v : Version K V) (vs : List (Version K V)) → Chain (v ∷ vs) → Chain vs
  Chain-tail v [] h = tt
  Chain-tail v (w ∷ vs) (e, le, i, h) = h

  insert_last :
      (v : Version K V) (vs : List (Version K V))
      → All (λ (u : Version K V). v.id < u.id) vs
      → insert_desc v vs ≡ vs ++ v ∷ []
  insert_last v [] h = refl
  insert_last v (x ∷ vs) h =
      let older : ltb v.id x.id ≡ true = lt→ltb v.id x.id h.0 in
      rw (older, insert_last v vs h.1) refl

  All-insert :
      (P : Version K V → Type 0) (v : Version K V) (vs : List (Version K V))
      → P v
      → All P vs
      → All P (insert_desc v vs)
  All-insert P v [] p h = (p, tt)
  All-insert P v (x ∷ vs) p h = elim (Bool-cases (ltb v.id x.id)) [
    | inl t ↦ rw t (h.0, All-insert P v vs p h.1)
    | inr t ↦ rw t (p, h)
  ]

  All-order : (P : Version K V → Type 0) (c : List (Version K V)) → All P c → All P (order_desc c)
  All-order P [] h = tt
  All-order P (v ∷ vs) h = All-insert P v (order_desc vs) h.0 (All-order P vs h.1)

  All-newer :
      (v : Version K V) (vs : List (Version K V))
      → Chain (v ∷ vs)
      → All (λ (u : Version K V). v.id < u.id) (order_desc vs)
  All-newer v vs c = All-order (λ (u : Version K V). v.id < u.id) vs (newer v vs c)

  order_last :
      (v : Version K V) (vs : List (Version K V))
      → Chain (v ∷ vs)
      → order_desc (v ∷ vs) ≡ order_desc vs ++ v ∷ []
  order_last v vs c = insert_last v (order_desc vs) (All-newer v vs c)

  Desc-last :
      (v : Version K V) (vs : List (Version K V))
      → All (λ (u : Version K V). v.id < u.id) vs
      → Desc vs
      → Desc (vs ++ v ∷ [])
  Desc-last v [] h d = (tt, tt)
  Desc-last v (x ∷ vs) h d =
      (All-++ (λ (u : Version K V). u.id < x.id) vs (v ∷ []) d.0 (h.0, tt), Desc-last v vs h.1 d.1)

  pub order-Desc : (c : List (Version K V)) → Chain c → Desc (order_desc c)
  order-Desc [] h = tt
  order-Desc (v ∷ vs) h =
      rw (order_last v vs h)
        (Desc-last v (order_desc vs) (All-newer v vs h) (order-Desc vs (Chain-tail v vs h)))

  -- Choosing before the order is choosing after it.
  pub filter-order :
      (p : Version K V → Bool) (c : List (Version K V))
      → Chain c
      → order_desc (filter p c) ≡ filter p (order_desc c)
  filter-order p [] h = refl
  filter-order p (v ∷ vs) h =
      let rest = filter-order p vs (Chain-tail v vs h) in
      elim (Bool-cases (p v)) [
        | inl t ↦
            rw (order_last v vs h, filter-append p (order_desc vs) (v ∷ []), t, rest)
              (insert_last v (filter p (order_desc vs)) (
                All-filter (λ (u : Version K V). v.id < u.id) p (order_desc vs) (All-newer v vs h)))
        | inr t ↦
            rw (order_last v vs h, filter-append p (order_desc vs) (v ∷ []), t, rest)
              (sym (append_nil (filter p (order_desc vs))))
      ]

  -- What is older than a version of the list comes after it.
  pub older :
      (y : Version K V) (xs ys : List (Version K V))
      → Desc (xs ++ y ∷ ys)
      → filter (is_before (some y.id)) (xs ++ y ∷ ys) ≡ ys
  older y [] ys d = let same : ltb y.id y.id ≡ false = ground arith in rw same (all_older ys d.0)
    where
      all_older :
          (vs : List (Version K V))
          → All (λ (u : Version K V). u.id < y.id) vs
          → filter (is_before (some y.id)) vs ≡ vs
      all_older [] h = refl
      all_older (u ∷ vs) h = rw (lt→ltb u.id y.id h.0, all_older vs h.1) refl
  older y (x ∷ xs) ys d =
      let first : ltb x.id y.id ≡ false =
        le_false (All-mid (λ (u : Version K V). u.id < x.id) xs y ys d.0) in
      rw first (older y xs ys d.1)
    where
      le_false : y.id < x.id → ltb x.id y.id ≡ false
      le_false l = ground arith

  pub last_of :
      (x : Version K V) (xs : List (Version K V))
      → (ys : List (Version K V)) × (y : Version K V) × (x ∷ xs ≡ ys ++ y ∷ [])
        × (last_id (x ∷ xs) ≡ some y.id)
  last_of x [] = ([], x, refl, refl)
  last_of x (w ∷ xs) = let (ys, y, e, l) = last_of w xs in (x ∷ ys, y, ap (λ r. x ∷ r) e, l)
