-- ===== src/Auth/RefreshTokens.antt =====
-- apps/api/src/modules/auth/refresh-token.service.ts. The hash of a token and the random tokens are
-- parameters; `between` is what other requests do to the table between the look-up of a token and
-- the statement that revokes it, which are not one transaction.
pub mod Rotation
use voyya_backend.Prelude.{
  Result, ok, err, ℕ, zero, suc, ◌+◌, ◌-◌, ◌*◌, ◌/◌, ◌%◌, ◌≤◌, ◌<◌, compare, Ordering, min, max,
  String, str_eq, eq_iff, ◌≡◌, refl, sym, ap, ap₂, ◌∙◌, subst, ◌≢◌, ◌↔◌, ◌⊎◌, inl, inr, Bool, true,
  false, not, ◌&&◌, ◌||◌, Option, none, some, List, [], ◌∷◌, ◌++◌, map, arith, ltb, leb, ◌==◌,
  if◌then◌else◌, is_none, is_some, or_else, Bool-cases, Option-cases, ltb→lt, lt→ltb, leb→le,
  le→leb, ==→eq, ==_refl, length, length-append, find, filter, update_where, any, count, All,
  Rowwise, All-update_where, Rowwise-update_where, any-eq_false, All-find, Rowwise-refl,
  Rowwise-trans, find-update_where, keep, find-and, count-update_where, update_where-none, any-find,
}

pub record RefreshToken : Type 0 where
  pub id : ℕ
  pub user_id : ℕ
  pub token_hash : String
  pub expires_at : ℕ
  pub revoked : Bool

pub data RotateError : Type 0 where
  refresh_invalid refresh_revoked refresh_expired : RotateError

-- The token with its hash function and its time to live in days.
pub record TokenSettings : Type 0 where
  pub hash_token : String → String
  pub ttl_days : ℕ

-- A token that is to be issued: the key that the table gives it, and its value.
pub record FreshToken : Type 0 where
  pub key : ℕ
  pub token : String

abbrev pub new_row : TokenSettings → ℕ → ℕ → FreshToken → RefreshToken
new_row settings clock user fresh = record {
  id = fresh.key;
  user_id = user;
  token_hash = settings.hash_token fresh.token;
  expires_at = clock + settings.ttl_days * 86400000;
  revoked = false;
}

-- issue
unfoldable pub issue : TokenSettings → ℕ → ℕ → FreshToken → List RefreshToken → List RefreshToken
issue settings clock user fresh rows = rows ++ new_row settings clock user fresh ∷ []

abbrev pub revoke_row : RefreshToken → RefreshToken
revoke_row r = record r { revoked = true }

abbrev pub has_hash : String → RefreshToken → Bool
has_hash h r = str_eq r.token_hash h

abbrev pub is_open_id : ℕ → RefreshToken → Bool
is_open_id k r = r.id == k && not r.revoked

abbrev pub is_open_of : ℕ → RefreshToken → Bool
is_open_of user r = r.user_id == user && not r.revoked

-- revoke
unfoldable pub revoke : TokenSettings → String → List RefreshToken → List RefreshToken
revoke settings token =
    update_where (λ r. has_hash (settings.hash_token token) r && not r.revoked) revoke_row

-- revokeAllForUser
unfoldable pub revoke_all_for_user : ℕ → List RefreshToken → ℕ × List RefreshToken
revoke_all_for_user user rows =
    (count (is_open_of user) rows, update_where (is_open_of user) revoke_row rows)

-- What follows the conditional revocation.
unfoldable pub swap :
    TokenSettings
    → ℕ
    → FreshToken
    → RefreshToken
    → List RefreshToken
    → Result RotateError (ℕ × String) × List RefreshToken
unfolding revoke_all_for_user issue
swap settings clock fresh row rows =
    let swapped = update_where (is_open_id row.id) revoke_row rows in
    if not (count (is_open_id row.id) rows == 1)
    then (err refresh_revoked, (revoke_all_for_user row.user_id swapped).1)
    else (ok (row.user_id, fresh.token), issue settings clock row.user_id fresh swapped)

unfoldable pub rotate_row :
    TokenSettings
    → ℕ
    → FreshToken
    → (List RefreshToken → List RefreshToken)
    → List RefreshToken
    → Option RefreshToken
    → Result RotateError (ℕ × String) × List RefreshToken
unfolding revoke_all_for_user
rotate_row settings clock fresh between rows none = (err refresh_invalid, rows)
rotate_row settings clock fresh between rows (some row) =
    if row.revoked
    then (err refresh_revoked, (revoke_all_for_user row.user_id rows).1)
    else if ltb row.expires_at clock
    then (err refresh_expired, rows)
    else swap settings clock fresh row (between rows)

-- rotate
unfoldable pub rotate :
    TokenSettings
    → ℕ
    → FreshToken
    → (List RefreshToken → List RefreshToken)
    → String
    → List RefreshToken
    → Result RotateError (ℕ × String) × List RefreshToken
unfolding rotate_row
rotate settings clock fresh between token rows =
    rotate_row settings clock fresh between rows (find (has_hash (settings.hash_token token)) rows)
