-- ===== src/ServiceConfig/Versions/Chains.antt =====
-- Chains of versions, each of which ends where the next begins:
-- apps/api/src/modules/service-config.
use voyya_backend.Prelude.{
  ℕ, ◌≤◌, ◌<◌, ◌≡◌, refl, ap, subst, inl, inr, Bool, true, false, ◌&&◌, Option, none, some, List,
  [], ◌∷◌, ◌++◌, arith, ltb, leb, if◌then◌else◌, Bool-cases, ltb→lt, leb→le, find, update_where,
  any, count, All,
}
use voyya_backend.ServiceConfig.Versions.{Version, NewVersion, opened, is_open, end_of, close}

abbrev pub ends_after : ℕ → Option ℕ → Bool
ends_after t none = true
ends_after t (some to) = ltb t to

module _ {K V : Type 0} where
  -- The version holds at the instant.
  abbrev pub in_force : ℕ → Version K V → Bool
  in_force t v = leb v.valid_from t && ends_after t v.valid_to

  -- Each version ends where the next begins, and the last is open.
  abbrev pub Chain : List (Version K V) → Type 0
  Chain [] = Unit
  Chain (v ∷ []) = v.valid_to ≡ none
  Chain (v ∷ w ∷ vs) =
      (v.valid_to ≡ some w.valid_from)
      × (v.valid_from ≤ w.valid_from)
      × (v.id < w.id)
      × Chain (w ∷ vs)

  pub Chain-open :
      (v : Version K V) (vs : List (Version K V)) → Chain (v ∷ vs) → count is_open (v ∷ vs) ≡ 1
  Chain-open v [] h = rw h refl
  Chain-open v (w ∷ vs) (e, l, i, h) = rw e (Chain-open w vs h)

  not_begun :
      (t : ℕ) (v : Version K V) (vs : List (Version K V))
      → Chain (v ∷ vs)
      → t < v.valid_from
      → count (in_force t) (v ∷ vs) ≡ 0
  not_begun t v [] h l = ground arith
  not_begun t v (w ∷ vs) (e, le, i, h) l =
      let rest = not_begun t w vs h (omega arith) in
      let late : leb v.valid_from t ≡ false = ground arith in rw late rest

  -- Once the first has begun, exactly one is in force.
  Chain-in_force :
      (t : ℕ) (v : Version K V) (vs : List (Version K V))
      → Chain (v ∷ vs)
      → v.valid_from ≤ t
      → count (in_force t) (v ∷ vs) ≡ 1
  Chain-in_force t v [] h l =
      let begun : leb v.valid_from t ≡ true = ground arith in rw (begun, h) refl
  Chain-in_force t v (w ∷ vs) (e, le, i, h) l =
      let begun : leb v.valid_from t ≡ true = ground arith in
      elim (Bool-cases (ltb t w.valid_from)) [
        | inl before ↦
            let none' = not_begun t w vs h (ltb→lt t w.valid_from before) in
            rw (begun, e, before, none') refl
        | inr after ↦
            let one = Chain-in_force t w vs h (ground (arith, after)) in
            rw (begun, e, after, one) refl
      ]

  first_begins :
      (t : ℕ) (v : Version K V) (vs : List (Version K V))
      → Chain (v ∷ vs)
      → any (λ (u : Version K V). leb u.valid_from t) (v ∷ vs) ≡ true
      → v.valid_from ≤ t
  first_begins t v [] h e = ground (arith, e)
  first_begins t v (w ∷ vs) (f, le, i, h) e = elim (Bool-cases (leb v.valid_from t)) [
    | inl now ↦ leb→le v.valid_from t now
    | inr later ↦ let l = first_begins t w vs h (rw later at e) in omega arith
  ]

  pub Chain-begun :
      (t : ℕ) (c : List (Version K V))
      → Chain c
      → any (λ (u : Version K V). leb u.valid_from t) c ≡ true
      → (count (in_force t) c ≡ 1) × (count is_open c ≡ 1)
  Chain-begun t [] h e = cc
  Chain-begun t (v ∷ vs) h e =
      (Chain-in_force t v vs h (first_begins t v vs h e), Chain-open v vs h)

  -- A chain without an open version is empty.
  pub Chain-empty : (c : List (Version K V)) → Chain c → any is_open c ≡ false → c ≡ []
  Chain-empty [] h e = refl
  Chain-empty (v ∷ []) h e = cc (rw h at e)
  Chain-empty (v ∷ w ∷ vs) (f, le, i, h) e =
      let no : w ∷ vs ≡ [] = Chain-empty (w ∷ vs) h (rw f at e) in cc

  abbrev pub AllBelow : ℕ → List (Version K V) → Type 0
  AllBelow id = All (λ (v : Version K V). v.id < id)

  link :
      (u w x : Version K V) (vs : List (Version K V))
      → ((u.valid_to ≡ some w.valid_from) × (u.valid_from ≤ w.valid_from) × (u.id < w.id))
      → ((w.valid_from ≡ x.valid_from) × (w.id ≡ x.id))
      → Chain (x ∷ vs)
      → Chain (u ∷ x ∷ vs)
  link u w x vs (e, le, i) (f, d) h = (
    subst (λ n. u.valid_to ≡ some n) f e,
    subst (λ n. u.valid_from ≤ n) f le,
    subst (λ n. u.id < n) d i,
    h,
  )

  -- Closing the open version of a chain, and opening the next one where it ends.
  pub Chain-close :
      (p : Version K V → Bool) (id now : ℕ) (next : NewVersion K V) (c : List (Version K V))
      (v : Version K V)
      → ((u : Version K V) → p u ≡ true → is_open u ≡ true)
      → Chain c
      → AllBelow id c
      → find p c ≡ some v
      → Chain (update_where p (close now) c ++ opened id (end_of now v) next ∷ [])
  Chain-close p id now next [] v o h b f = cc
  Chain-close p id now next (u ∷ []) v o h b f = elim (Bool-cases (p u)) [
    | inl t ↦ rw t (closed (some_eq (rw t at f)))
    | inr t ↦ cc (rw t at f)
  ]
    where
      some_eq : some u ≡ some v → u ≡ v
      some_eq q = cc

      closed : u ≡ v → Chain (close now u ∷ opened id (end_of now v) next ∷ [])
      closed q = (
        ap (λ (x : Version K V). some (end_of now x)) q,
        subst (λ (x : Version K V). u.valid_from ≤ end_of now x) q (ground arith),
        b.0,
        refl,
      )
  Chain-close p id now next (u ∷ w ∷ vs) v o (e, le, i, h) b f =
      let closed : p u ≡ false = is_closed in
      let rest = Chain-close p id now next (w ∷ vs) v o h b.1 (rw closed at f) in
      rw closed (link u w (if p w then close now w else w) _ (e, le, i) (same_start (p w)) rest)
    where
      same_start :
          (b : Bool)
          → let x = if b then close now w else w in (w.valid_from ≡ x.valid_from) × (w.id ≡ x.id)
      same_start true = (refl, refl)
      same_start false = (refl, refl)

      is_closed : p u ≡ false
      is_closed = elim (Bool-cases (p u)) [ inl t ↦ let q = o u t in cc (rw e at q) | inr t ↦ t ]
