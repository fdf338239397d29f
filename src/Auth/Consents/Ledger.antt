-- ===== src/Auth/Consents/Ledger.antt =====
-- The ledger of consents: apps/api/src/modules/auth/consent.repository.ts.
use voyya_backend.Prelude.{
  ℕ, ◌≤◌, ◌<◌, ◌≡◌, refl, inl, inr, Bool, true, false, some, List, [], ◌∷◌, ◌++◌, arith, Bool-cases,
  All, ok, String, str_eq, eq_iff, sym, ap, subst, ◌&&◌, Option, none, ◌==◌, is_none, ==_refl,
}
use voyya_backend.Db.Rows.{ConsentRecord}
use voyya_backend.Auth.Consents.{
  grant_or, latest_granted, is_later, latest_where, Db, Option, status_for, latest_entry,
  revoke_latest, is_granted, add_consent, revoke, revoked, is_grant, revoke_entry, Role,
  audience_for, grant, grant_entry, is_granted_as, NoticeAudience, build_consent_status, granted,
  ConsentAction,
}

-- The clock has not gone back, and keys grow: every entry is older than one of key `k` at `now`.
abbrev pub AllOlder : ℕ → ℕ → List ConsentRecord → Type 0
AllOlder k now = All (λ (r : ConsentRecord). (r.recorded_at ≤ now) × (r.consent_record_id < k))

module _ (p : ConsentRecord → Bool) where
  -- An entry that is added later than all others is the latest, if it counts.
  latest-append :
      (e : ConsentRecord) (rs : List ConsentRecord)
      → AllOlder e.consent_record_id e.recorded_at rs
      → p e ≡ true
      → latest_where p (rs ++ e ∷ []) ≡ some e
  latest-append e [] h c = rw c refl
  latest-append e (r ∷ rs) h c =
      let rest = latest-append e rs h.1 c in
      elim (Bool-cases (p r)) [
        | inl t ↦
            rw (t, rest)
              (let old : is_later r e ≡ false = ground (arith, h.0.0, h.0.1) in rw old refl)
        | inr t ↦ rw (t, rest) refl
      ]

  -- An entry that does not count changes nothing.
  latest-skip :
      (e : ConsentRecord) (rs : List ConsentRecord)
      → p e ≡ false
      → latest_where p (rs ++ e ∷ []) ≡ latest_where p rs
  latest-skip e [] c = rw c refl
  latest-skip e (r ∷ rs) c = rw (latest-skip e rs c) refl

pub other_user :
    (e : ConsentRecord) (user : ℕ) (db : Db)
    → (e.user_id == user) ≡ false
    → status_for user (add_consent e db) ≡ status_for user db
unfolding status_for
other_user e user db c =
    rw
      (
        latest-skip (λ r. r.user_id == user) e db.consents c,
        latest-skip (λ r. r.user_id == user && is_grant r) e db.consents (ground (arith, c)),
      )
      refl

own_user :
    (e : ConsentRecord) (db : Db)
    → AllOlder e.consent_record_id e.recorded_at db.consents
    → (status_for e.user_id (add_consent e db)).state ≡ some e.action
unfolding status_for
own_user e db h =
    rw (latest-append (λ r. r.user_id == e.user_id) e db.consents h (==_refl e.user_id)) refl

-- What a revocation leaves: the user's consent is not granted, and nobody else's changes; it writes
-- nothing where no consent was granted.
abbrev pub RevokedFor : ℕ → Db → Db → Type 0
RevokedFor user db db' =
    (is_granted (status_for user db').state ≡ false)
    × ((other : ℕ) → (user == other) ≡ false → status_for other db' ≡ status_for other db)

revoke_latest-RevokedFor :
    (k now user : ℕ) (latest : Option ConsentRecord) (db : Db)
    → latest ≡ latest_entry user db
    → AllOlder k now db.consents
    → RevokedFor user db (revoke_latest k now user latest db).1
unfolding status_for
revoke_latest-RevokedFor k now user none db e h = (rw (← e) refl, λ other d. refl)
revoke_latest-RevokedFor k now user (some r) db e h = elim (Bool-cases (is_grant r)) [
  | inr no_grant ↦ rw no_grant ((rw (← e) no_grant), λ other d. refl)
  | inl grant' ↦
      rw grant'
        (ap is_granted (own_user (entry r) db h), λ other d. other_user (entry r) other db d)
]
  where
    entry : ConsentRecord → ConsentRecord
    entry r = record r {
      consent_record_id = k;
      user_id = user;
      action = revoked;
      recorded_at = now;
    }

-- After a revocation, where every entry is older, the user's consent is not granted, and nobody
-- else's has changed.
pub revoke-RevokedFor :
    (k now : ℕ) (role : Role) (user : ℕ) (company_id : Option ℕ) (db : Db)
    → is_none (audience_for role) ≡ false
    → AllOlder k now db.consents
    → RevokedFor user db (revoke k now role user company_id db).1
unfolding revoke revoke_entry
revoke-RevokedFor k now role user company_id db e h =
    rw e (revoke_latest-RevokedFor k now user (latest_entry user db) db refl h)

-- A user whose latest entry grants the version.
abbrev pub Grants : ℕ → String → Db → Type 0
Grants user version db = is_granted_as version (latest_entry user db) ≡ true

entry-Grants :
    (k now user : ℕ) (version : String) (audience : NoticeAudience) (db : Db)
    → AllOlder k now db.consents
    → Grants user version (grant_entry k now user version audience db).1
unfolding grant_entry
entry-Grants k now user version audience db h =
    elim (Bool-cases (is_granted_as version (latest_entry user db))) [
      | inl old ↦ rw old old
      | inr new ↦ rw new (
          subst (λ x. is_granted_as version x ≡ true)
            (sym (latest-append (λ r. r.user_id == user) (entry k) db.consents h (==_refl user)))
            (eq_refl' version))
    ]
  where
    entry : ℕ → ConsentRecord
    entry key = record {
      consent_record_id = key;
      user_id = user;
      notice_version = version;
      audience = some audience;
      action = granted;
      recorded_at = now;
    }

    eq_refl' : (v : String) → str_eq v v ≡ true
    eq_refl' v = (eq_iff v v).1 refl

granted_state :
    (user : ℕ) (version : String) (latest : Option ConsentRecord) (other : Option ConsentRecord)
    → is_granted_as version latest ≡ true
    → ((build_consent_status latest other).state ≡ some granted)
      × ((build_consent_status latest other).notice_version ≡ some version)
granted_state user version none other e = cc
granted_state user version (some r) other e = elim (Bool-cases (is_grant r)) [
  | inl g ↦ (
    (ap some (is_granted_action r.action g)),
    ap some ((eq_iff r.notice_version version).0 (rw g at e)),
  )
  | inr g ↦ cc (rw g at e)
]
  where
    is_granted_action : (a : ConsentAction) → is_granted (some a) ≡ true → a ≡ granted
    is_granted_action granted q = refl
    is_granted_action revoked q = cc

-- A grant of a known version, where every entry is older: the user's consent is granted in that
-- version, and granting it again, at any instant, adds nothing.
pub grant_lem :
    (known : String → NoticeAudience → Bool) (k now : ℕ) (role : Role) (user : ℕ) (version : String)
    (audience : NoticeAudience) (db : Db)
    → audience_for role ≡ some audience
    → known version audience ≡ true
    → AllOlder k now db.consents
    → let after = (grant known k now role user version db).1 in
      ((status_for user after).state ≡ some granted)
      × ((status_for user after).notice_version ≡ some version)
      × ((k' now' : ℕ)
          → grant known k' now' role user version after ≡ (ok (status_for user after), after))
unfolding grant grant_entry status_for
grant_lem known k now role user version audience db e known' h =
    let g = entry-Grants k now user version audience db h in
    let after = (grant_entry k now user version audience db).1 in
    let (st, v) =
      granted_state user version (latest_entry user after)
        (grant_or (latest_entry user after) (latest_granted user after)) g in
    rw (e, known') (st, v, λ k' now'. rw g refl)
