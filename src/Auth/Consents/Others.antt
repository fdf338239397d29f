-- ===== src/Auth/Consents/Others.antt =====
-- What a grant and a revocation leave: apps/api/src/modules/auth/consent.repository.ts.
use voyya_backend.Prelude.{
  ℕ, String, ◌≡◌, refl, sym, subst, inl, inr, Bool, false, Option, none, some, ◌==◌, is_none,
  Bool-cases, ==→eq,
}
use voyya_backend.Db.Rows.{ConsentRecord}
use voyya_backend.Auth.Consents.Ledger.{other_user}
use voyya_backend.Auth.Consents.{
  state_of, grant_as, Db, Option, status_for, latest_entry, revoke_latest, is_granted, revoke,
  revoked, is_grant, revoke_entry, Role, audience_for, grant, grant_entry, is_granted_as,
  NoticeAudience, granted,
}

-- Nobody else's consent changes by a grant or a revocation, and no driver's row.
grant_entry-others :
    (k now user : ℕ) (version : String) (audience : NoticeAudience) (other : ℕ) (db : Db)
    → (user == other) ≡ false
    → status_for other (grant_entry k now user version audience db).1 ≡ status_for other db
unfolding grant_entry
grant_entry-others k now user version audience other db d =
    elim (Bool-cases (is_granted_as version (latest_entry user db))) [
      | inl old ↦ rw old refl
      | inr new ↦ rw new (
          other_user
            (record {
              consent_record_id = k;
              user_id = user;
              notice_version = version;
              audience = some audience;
              action = granted;
              recorded_at = now;
            })
            other db d)
    ]

drivers-grant_entry :
    (k now user : ℕ) (version : String) (audience : NoticeAudience) (db : Db)
    → (grant_entry k now user version audience db).1.drivers ≡ db.drivers
unfolding grant_entry
drivers-grant_entry k now user version audience db =
    elim (Bool-cases (is_granted_as version (latest_entry user db))) [
      | inl old ↦ rw old refl
      | inr new ↦ rw new refl
    ]

grant_as-cases :
    (P : Db → Type 0) (known : String → NoticeAudience → Bool) (k now user : ℕ) (version : String)
    (db : Db) (a : Option NoticeAudience)
    → P db
    → ((audience : NoticeAudience) → P (grant_entry k now user version audience db).1)
    → P (grant_as known k now user version db a).1
grant_as-cases P known k now user version db none stays goes = stays
grant_as-cases P known k now user version db (some audience) stays goes =
    elim (Bool-cases (known version audience)) [ inl e ↦ rw e (goes audience) | inr e ↦ rw e stays ]

pub grant-others :
    (known : String → NoticeAudience → Bool) (k now : ℕ) (role : Role) (user : ℕ) (version : String)
    (other : ℕ) (db : Db)
    → (user == other) ≡ false
    → status_for other (grant known k now role user version db).1 ≡ status_for other db
unfolding grant
grant-others known k now role user version other db d =
    grant_as-cases (λ x. status_for other x ≡ status_for other db) known k now user version db
      (audience_for role) refl
      (λ audience. grant_entry-others k now user version audience other db d)

pub drivers-grant :
    (known : String → NoticeAudience → Bool) (k now : ℕ) (role : Role) (user : ℕ) (version : String)
    (db : Db)
    → (grant known k now role user version db).1.drivers ≡ db.drivers
unfolding grant
drivers-grant known k now role user version db =
    grant_as-cases (λ x. x.drivers ≡ db.drivers) known k now user version db (audience_for role)
      refl (λ audience. drivers-grant_entry k now user version audience db)

drivers-revoke_latest :
    (k now user : ℕ) (latest : Option ConsentRecord) (db : Db)
    → (revoke_latest k now user latest db).1.drivers ≡ db.drivers
drivers-revoke_latest k now user none db = refl
drivers-revoke_latest k now user (some r) db = elim (Bool-cases (is_grant r)) [
  | inl e ↦ rw e refl
  | inr e ↦ rw e refl
]

pub drivers-revoke :
    (k now : ℕ) (role : Role) (user : ℕ) (company_id : Option ℕ) (db : Db)
    → (revoke k now role user company_id db).1.drivers ≡ db.drivers
unfolding revoke revoke_entry
drivers-revoke k now role user company_id db = elim (Bool-cases (is_none (audience_for role))) [
  | inl e ↦ rw e refl
  | inr e ↦ rw e (drivers-revoke_latest k now user (latest_entry user db) db)
]

-- A consent that is not granted is not granted after any revocation, of the user's or of another's.
revoke_latest-IsRefused :
    (k now user : ℕ) (latest : Option ConsentRecord) (other : ℕ) (db : Db)
    → latest ≡ latest_entry user db
    → is_granted (status_for other db).state ≡ false
    → is_granted (status_for other (revoke_latest k now user latest db).1).state ≡ false
unfolding status_for
revoke_latest-IsRefused k now user none other db e h = h
revoke_latest-IsRefused k now user (some r) other db e h = elim (Bool-cases (is_grant r)) [
  | inr no_grant ↦ rw no_grant h
  | inl grant' ↦ elim (Bool-cases (user == other)) [
    | inl own ↦
        let refused : is_granted (state_of (latest_entry user db)) ≡ false =
          subst (λ u. is_granted (state_of (latest_entry u db)) ≡ false)
            (sym (==→eq user other own)) h in
        let not_grant : is_granted (state_of (some r)) ≡ false =
          subst (λ o. is_granted (state_of o) ≡ false) (sym e) refused in
        cc
    | inr d ↦ rw grant' (
        subst (λ st. is_granted st.state ≡ false)
          (sym (
            other_user
              (record r {
                consent_record_id = k;
                user_id = user;
                action = revoked;
                recorded_at = now;
              })
              other db d))
          h)
  ]
]

pub revoke-IsRefused :
    (k now : ℕ) (role : Role) (user : ℕ) (company_id : Option ℕ) (other : ℕ) (db : Db)
    → is_granted (status_for other db).state ≡ false
    → is_granted (status_for other (revoke k now role user company_id db).1).state ≡ false
unfolding revoke revoke_entry
revoke-IsRefused k now role user company_id other db h =
    elim (Bool-cases (is_none (audience_for role))) [
      | inl e ↦ rw e h
      | inr e ↦ rw e (revoke_latest-IsRefused k now user (latest_entry user db) other db refl h)
    ]
