-- ===== src/Auth/RefreshTokens/Rotation.antt =====
-- The rotation of a refresh token, and what becomes of a token that is presented again:
-- apps/api/src/modules/auth/refresh-token.service.ts.
use voyya_backend.Prelude.{
  Result, ok, err, any, ap, ℕ, String, ◌≡◌, refl, ◌∙◌, subst, inl, inr, Bool, true, false, Option,
  none, some, List, [], ◌∷◌, ◌++◌, ltb, ◌==◌, if◌then◌else◌, Bool-cases, find, update_where, count,
}
use mathlib.Core.Option
use voyya_backend.Auth.RefreshTokens.{
  RefreshToken, TokenSettings, FreshToken, issue, revoke_all_for_user, revoke_row, has_hash,
  is_open_id, is_open_of, swap, rotate_row, rotate, RotateError, arith, find-update_where,
  refresh_revoked, sym,
}

-- The row that takes a row's place: the same token, which does not cease to be revoked.
pub record Succeeds (x y : RefreshToken) : Type 0 where
  pub same_id : y.id ≡ x.id
  pub same_user : y.user_id ≡ x.user_id
  pub same_hash : y.token_hash ≡ x.token_hash
  pub stays_revoked : x.revoked ≡ true → y.revoked ≡ true

-- The table that follows a table: its rows in their places, and new ones after them.
pub data Grows : List RefreshToken → List RefreshToken → Type 0 where
  fresh_rows : {ys : List RefreshToken} → Grows [] ys
  kept :
      {x y : RefreshToken} {xs ys : List RefreshToken}
      → Succeeds x y
      → Grows xs ys
      → Grows (x ∷ xs) (y ∷ ys)

Succeeds-refl : (x : RefreshToken) → Succeeds x x
Succeeds-refl x = record {
  same_id = refl;
  same_user = refl;
  same_hash = refl;
  stays_revoked = λ e. e;
}

Succeeds-revoke : (x : RefreshToken) → Succeeds x (revoke_row x)
Succeeds-revoke x = record {
  same_id = refl;
  same_user = refl;
  same_hash = refl;
  stays_revoked = λ e. refl;
}

Succeeds-trans : {x y z : RefreshToken} → Succeeds x y → Succeeds y z → Succeeds x z
Succeeds-trans p q = record {
  same_id = q.same_id ∙ p.same_id;
  same_user = q.same_user ∙ p.same_user;
  same_hash = q.same_hash ∙ p.same_hash;
  stays_revoked = λ e. q.stays_revoked (p.stays_revoked e);
}

pub Grows-trans : {xs ys zs : List RefreshToken} → Grows xs ys → Grows ys zs → Grows xs zs
Grows-trans fresh_rows q = fresh_rows
Grows-trans (kept p ps) (kept q qs) = kept (Succeeds-trans p q) (Grows-trans ps qs)

pub Grows-refl : (xs : List RefreshToken) → Grows xs xs
Grows-refl [] = fresh_rows
Grows-refl (x ∷ xs) = kept (Succeeds-refl x) (Grows-refl xs)

Grows-append : (xs ys : List RefreshToken) → Grows xs (xs ++ ys)
Grows-append [] ys = fresh_rows
Grows-append (x ∷ xs) ys = kept (Succeeds-refl x) (Grows-append xs ys)

Grows-revoke :
    (p : RefreshToken → Bool) (xs : List RefreshToken) → Grows xs (update_where p revoke_row xs)
Grows-revoke p [] = fresh_rows
Grows-revoke p (x ∷ xs) = kept (row (p x)) (Grows-revoke p xs)
  where
    row : (b : Bool) → Succeeds x (if b then revoke_row x else x)
    row true = Succeeds-revoke x
    row false = Succeeds-refl x

-- A token keeps its place.
find-Grows :
    (h : String) {xs ys : List RefreshToken} (x : RefreshToken)
    → Grows xs ys
    → find (has_hash h) xs ≡ some x
    → (y : RefreshToken) × (find (has_hash h) ys ≡ some y) × Succeeds x y
find-Grows h x fresh_rows e = cc
find-Grows h x (kept {x = a} {y = b} p ps) e = elim (Bool-cases (has_hash h a)) [
  | inl own ↦
      let q : some a ≡ some x = rw own at e in
      let first : a ≡ x = cc in (b, rw (p.same_hash, own), subst (λ r. Succeeds r b) first p)
  | inr other ↦
      let (y, found, s) = find-Grows h x ps (rw other at e) in (y, rw (p.same_hash, other) found, s)
]

-- Every operation lets the table grow, if what others do in between does.
pub rotate-Grows :
    (settings : TokenSettings) (clock : ℕ) (fresh : FreshToken)
    (between : List RefreshToken → List RefreshToken) (token : String) (rows : List RefreshToken)
    → Grows rows (between rows)
    → Grows rows (rotate settings clock fresh between token rows).1
unfolding rotate rotate_row swap revoke_all_for_user issue
rotate-Grows settings clock fresh between token rows g =
    go (find (has_hash (settings.hash_token token)) rows)
  where
    go : (o : Option RefreshToken) → Grows rows (rotate_row settings clock fresh between rows o).1
    go none = Grows-refl rows
    go (some row) = elim (Bool-cases row.revoked) [
      | inl e ↦ rw e (Grows-revoke (is_open_of row.user_id) rows)
      | inr e ↦ elim (Bool-cases (ltb row.expires_at clock)) [
        | inl late ↦ rw (e, late) (Grows-refl rows)
        | inr in_time ↦ elim (Bool-cases (count (is_open_id row.id) (between rows) == 1)) [
          | inl one ↦
              rw (e, in_time, one)
                (Grows-trans g (
                  Grows-trans (Grows-revoke (is_open_id row.id) (between rows)) (Grows-append _ _)))
          | inr other ↦
              rw (e, in_time, other)
                (Grows-trans g (
                  Grows-trans (Grows-revoke (is_open_id row.id) (between rows))
                    (Grows-revoke (is_open_of row.user_id) _)))
        ]
      ]
    ]

abbrev Answer : Type 0
Answer = Result RotateError (ℕ × String)

abbrev answered : Answer → Answer
answered a = a

abbrev pair_of : Answer → List RefreshToken → Answer × List RefreshToken
pair_of a rows = (a, rows)

-- What a rotation that succeeds has found and done.
rotated :
    (settings : TokenSettings) (clock : ℕ) (fresh : FreshToken)
    (between : List RefreshToken → List RefreshToken) (rows rows' : List RefreshToken)
    (o : Option RefreshToken) (user : ℕ) (next : String)
    → rotate_row settings clock fresh between rows o ≡ (ok (user, next), rows')
    → (row : RefreshToken) × (o ≡ some row)
      × (row.user_id ≡ user)
      × (rows'
          ≡ issue settings clock row.user_id fresh
              (update_where (is_open_id row.id) revoke_row (between rows)))
unfolding rotate_row swap
rotated settings clock fresh between rows rows' none user next h = cc
rotated settings clock fresh between rows rows' (some row) user next h =
    elim (Bool-cases row.revoked) [
      | inl e ↦ cc (rw e at h)
      | inr e ↦ elim (Bool-cases (ltb row.expires_at clock)) [
        | inl late ↦ cc (rw (e, late) at h)
        | inr in_time ↦ elim (Bool-cases (count (is_open_id row.id) (between rows) == 1)) [
          | inr other ↦ cc (rw (e, in_time, other) at h)
          | inl one ↦
              let swapped = update_where (is_open_id row.id) revoke_row (between rows) in
              let q : pair_of (ok (row.user_id, fresh.token))
                    (issue settings clock row.user_id fresh swapped)
                  ≡ pair_of (ok (user, next)) rows' =
                rw (e, in_time, one) at h in
              let r : answered (ok (row.user_id, fresh.token)) ≡ answered (ok (user, next)) =
                ap (λ x. x.0) q in
              (row, refl, cc, sym (ap (λ x. x.1) q))
        ]
      ]
    ]

none_open :
    (user : ℕ) (rows : List RefreshToken)
    → any (is_open_of user) (update_where (is_open_of user) revoke_row rows) ≡ false
none_open user [] = refl
none_open user (x ∷ xs) = ground (arith, none_open user xs)

-- The token that a rotation swaps is revoked.
swapped_row :
    (h : String) (row row1 : RefreshToken) (rows : List RefreshToken)
    → Succeeds row row1
    → find (has_hash h) rows ≡ some row1
    → (row2 : RefreshToken) × (find (has_hash h) (update_where (is_open_id row.id) revoke_row rows)
        ≡ some row2)
      × (row2.revoked ≡ true)
      × (row2.user_id ≡ row.user_id)
swapped_row h row row1 rows s found =
    let kept_hash =
      find-update_where (has_hash h) (is_open_id row.id) revoke_row rows (λ x. refl) in
    (
      (if is_open_id row.id row1 then revoke_row row1 else row1),
      kept_hash ∙ ap (Option.map (λ x. if is_open_id row.id x then revoke_row x else x)) found,
      ground (arith, s.same_id),
      ground (arith, s.same_user),
    )

issued :
    (settings : TokenSettings) (clock user : ℕ) (fresh : FreshToken)
    (rows rows' : List RefreshToken)
    → rows' ≡ issue settings clock user fresh rows
    → Grows rows rows'
unfolding issue
issued settings clock user fresh rows rows' e = subst (Grows rows) (sym e) (Grows-append rows _)

presented :
    (settings : TokenSettings) (clock : ℕ) (fresh : FreshToken)
    (between : List RefreshToken → List RefreshToken) (rows : List RefreshToken)
    (row : RefreshToken)
    → row.revoked ≡ true
    → rotate_row settings clock fresh between rows (some row)
      ≡ (err refresh_revoked, update_where (is_open_of row.user_id) revoke_row rows)
unfolding rotate_row revoke_all_for_user
presented settings clock fresh between rows row e = rw e

-- Once a token has been rotated, with any requests in between that let the table grow, and any
-- that let it grow afterwards, presenting it again is refused as revoked, and leaves no session of
-- its user open.
pub rotated_once :
    (settings : TokenSettings) (clock clock' : ℕ) (fresh fresh' : FreshToken)
    (between between' : List RefreshToken → List RefreshToken) (token next : String) (user : ℕ)
    (rows rows' later : List RefreshToken)
    → Grows rows (between rows)
    → rotate settings clock fresh between token rows ≡ (ok (user, next), rows')
    → Grows rows' later
    → ((rotate settings clock' fresh' between' token later).0 ≡ err refresh_revoked)
      × (any (is_open_of user) (rotate settings clock' fresh' between' token later).1 ≡ false)
unfolding rotate
rotated_once settings clock clock' fresh fresh' between between' token next user rows rows' later g
      first after =
    let h = settings.hash_token token in
    let (row, found, same_user, now_rows) =
      rotated settings clock fresh between rows rows' (find (has_hash h) rows) user next first in
    let (row1, found1, s1) = find-Grows h row g found in
    let (row2, found2, closed, user2) = swapped_row h row row1 (between rows) s1 found1 in
    let (row3, found3, s3) =
      find-Grows h row2
        (Grows-trans (issued settings clock row.user_id fresh _ rows' now_rows) after) found2 in
    let answer : rotate settings clock' fresh' between' token later
        ≡ (err refresh_revoked, update_where (is_open_of row3.user_id) revoke_row later) =
      ap (rotate_row settings clock' fresh' between' later) found3
      ∙ presented settings clock' fresh' between' later row3 (s3.stays_revoked closed) in
    let who : row3.user_id ≡ user = s3.same_user ∙ user2 ∙ same_user in
    (
      ap (λ x. x.0) answer,
      ap (λ x. any (is_open_of user) x.1) answer
          ∙ ap (λ u. any (is_open_of user) (update_where (is_open_of u) revoke_row later)) who
          ∙ none_open user later,
    )
