-- ===== src/Auth/Consents.antt =====
-- apps/api/src/modules/auth/consent.service.ts, consent.repository.ts, consent-query.service.ts and
-- consent-status.ts, with the versions of packages/shared/src/contracts/consent.ts: the ledger of
-- the consents to the notice on locations. A version of a notice is a text.
pub mod Others
pub mod Ledger
use voyya_backend.Prelude.{
  none, some, true, false, not→false, &&→right, find-In, In, All-In, All-of, All-map, All-filter,
  All-++, In-filter, filter-In, In-length, any-In, In-map, map-In, Result, ok, err, ℕ, zero, suc,
  ◌+◌, ◌-◌, ◌*◌, ◌/◌, ◌%◌, ◌≤◌, ◌<◌, compare, Ordering, min, max, String, str_eq, eq_iff, ◌≡◌, refl,
  sym, ap, ap₂, ◌∙◌, subst, ◌≢◌, ◌↔◌, ◌⊎◌, inl, inr, Bool, not, ◌&&◌, ◌||◌, Option, List, [], ◌∷◌,
  ◌++◌, map, arith, ltb, leb, ◌==◌, if◌then◌else◌, is_none, is_some, or_else, Bool-cases,
  Option-cases, ltb→lt, lt→ltb, leb→le, le→leb, ==→eq, ==_refl, length, length-append, find, filter,
  update_where, any, count, All, Rowwise, All-update_where, Rowwise-update_where, any-eq_false,
  All-find, Rowwise-refl, Rowwise-trans, find-update_where, keep, find-and, count-update_where,
  update_where-none, any-find,
}
use voyya_backend.Db.Rows.{ConsentRecord, ConsentAction, granted, revoked, NoticeAudience, Db}

abbrev pub location_notice_version : String
location_notice_version = "location-notice-v3"

abbrev pub driver_location_sharing_notice_versions : List String
driver_location_sharing_notice_versions = "location-notice-v3" ∷ []

pub record ConsentStatus : Type 0 where
  -- the state `none` is none
  pub state : Option ConsentAction
  pub notice_version : Option String
  pub granted_at : Option ℕ
  pub revoked_at : Option ℕ
  pub current_notice_version : String
  pub requires_acceptance : Bool

abbrev pub is_granted : Option ConsentAction → Bool
is_granted none = false
is_granted (some granted) = true
is_granted (some revoked) = false

abbrev pub includes_text : List String → Option String → Bool
includes_text versions none = false
includes_text versions (some v) = any (λ w. str_eq w v) versions

-- coversLocationSharing
abbrev pub covers_location_sharing : ConsentStatus → Bool
covers_location_sharing status =
    is_granted status.state
    && includes_text driver_location_sharing_notice_versions status.notice_version

abbrev pub is_grant : ConsentRecord → Bool
is_grant r = is_granted (some r.action)

abbrev pub state_of : Option ConsentRecord → Option ConsentAction
state_of none = none
state_of (some r) = some r.action

abbrev version_of : Option ConsentRecord → Option String
version_of none = none
version_of (some r) = some r.notice_version

abbrev instant_of : Option ConsentRecord → Option ℕ
instant_of none = none
instant_of (some r) = some r.recorded_at

abbrev revocation_of : Option ConsentRecord → Option ℕ
revocation_of none = none
revocation_of (some r) = if is_grant r then none else some r.recorded_at

abbrev is_version : String → Option ConsentRecord → Bool
is_version v none = false
is_version v (some r) = str_eq r.notice_version v

-- buildConsentStatus, for the current notice
abbrev pub build_consent_status : Option ConsentRecord → Option ConsentRecord → ConsentStatus
build_consent_status latest latest_granted = record {
  state = state_of latest;
  notice_version = version_of latest;
  granted_at = instant_of latest_granted;
  revoked_at = revocation_of latest;
  current_notice_version = location_notice_version;
  requires_acceptance =
      not (is_granted (state_of latest)) || not (is_version location_notice_version latest);
}

-- `orderBy: [{ recordedAt: 'desc' }, { consentRecordId: 'desc' }]`
abbrev pub is_later : ConsentRecord → ConsentRecord → Bool
is_later r x =
    ltb x.recorded_at r.recorded_at
    || x.recorded_at == r.recorded_at && ltb x.consent_record_id r.consent_record_id

abbrev later_of : ConsentRecord → Option ConsentRecord → ConsentRecord
later_of r none = r
later_of r (some x) = if is_later r x then r else x

abbrev pub latest_where : (ConsentRecord → Bool) → List ConsentRecord → Option ConsentRecord
latest_where p [] = none
latest_where p (r ∷ rs) =
    let rest = latest_where p rs in if p r then some (later_of r rest) else rest

-- latestEntry
abbrev pub latest_entry : ℕ → Db → Option ConsentRecord
latest_entry user db = latest_where (λ r. r.user_id == user) db.consents

abbrev pub latest_granted : ℕ → Db → Option ConsentRecord
latest_granted user db = latest_where (λ r. r.user_id == user && is_grant r) db.consents

-- A grant that is the latest entry is the latest grant, too.
abbrev pub grant_or : Option ConsentRecord → Option ConsentRecord → Option ConsentRecord
grant_or none other = other
grant_or (some r) other = if is_grant r then some r else other

-- statusFor, current, currentLocked
unfoldable pub status_for : ℕ → Db → ConsentStatus
status_for user db =
    build_consent_status (latest_entry user db)
      (grant_or (latest_entry user db) (latest_granted user db))

abbrev pub add_consent : ConsentRecord → Db → Db
add_consent r db = record db { consents = db.consents ++ r ∷ [] }

-- What a transaction on the ledger answers, and the tables that it leaves.
abbrev pub with_status : ℕ → Db → ConsentStatus × Db
with_status user db = (status_for user db, db)

abbrev pub is_granted_as : String → Option ConsentRecord → Bool
is_granted_as version none = false
is_granted_as version (some r) = is_grant r && str_eq r.notice_version version

-- ConsentRepository.grant; `k` and `now` are the key and the instant of a new entry.
unfoldable pub grant_entry : ℕ → ℕ → ℕ → String → NoticeAudience → Db → ConsentStatus × Db
grant_entry k now user version audience db =
    let entry : ConsentRecord = record {
      consent_record_id = k;
      user_id = user;
      notice_version = version;
      audience = some audience;
      action = granted;
      recorded_at = now;
    } in
    if not (is_granted_as version (latest_entry user db))
    then with_status user (add_consent entry db)
    else with_status user db

-- ConsentRepository.revoke
abbrev pub revoke_latest : ℕ → ℕ → ℕ → Option ConsentRecord → Db → ConsentStatus × Db
revoke_latest k now user none db = with_status user db
revoke_latest k now user (some r) db =
    let entry : ConsentRecord = record r {
      consent_record_id = k;
      user_id = user;
      action = revoked;
      recorded_at = now;
    } in
    with_status user (if is_grant r then add_consent entry db else db)

unfoldable pub revoke_entry : ℕ → ℕ → ℕ → Db → ConsentStatus × Db
revoke_entry k now user db = revoke_latest k now user (latest_entry user db) db

pub data Role : Type 0 where
  passenger driver company admin operator platform_admin : Role

pub data ConsentError : Type 0 where
  notice_version_unknown notice_audience_not_allowed : ConsentError

-- audienceFor
abbrev pub audience_for : Role → Option NoticeAudience
audience_for Role.passenger = some NoticeAudience.passenger
audience_for Role.driver = some NoticeAudience.driver
audience_for _ = none

abbrev grant_as :
    (String → NoticeAudience → Bool)
    → ℕ
    → ℕ
    → ℕ
    → String
    → Db
    → Option NoticeAudience
    → Result ConsentError ConsentStatus × Db
grant_as known k now user version db none = (err notice_audience_not_allowed, db)
grant_as known k now user version db (some audience) =
    if not (known version audience)
    then (err notice_version_unknown, db)
    else let (status, db') = grant_entry k now user version audience db in (ok status, db')

-- ConsentService.grant; `known` is the table of notices.
unfoldable pub grant :
    (String → NoticeAudience → Bool)
    → ℕ
    → ℕ
    → Role
    → ℕ
    → String
    → Db
    → Result ConsentError ConsentStatus × Db
grant known k now role user version db = grant_as known k now user version db (audience_for role)

-- The event for the listeners; the company of the user's session, if any.
pub record ConsentRevokedEvent : Type 0 where
  pub user_id : ℕ
  pub role : Role
  pub company_id : Option ℕ

abbrev pub is_driver_role : Role → Bool
is_driver_role Role.driver = true
is_driver_role _ = false

abbrev revoked_event : Role → ℕ → Option ℕ → Option ConsentRevokedEvent
revoked_event role user company_id =
    if is_driver_role role
    then some (record { user_id = user; role = role; company_id = company_id })
    else none

-- ConsentService.revoke, with the event that a driver's revocation emits
unfoldable pub revoke :
    ℕ
    → ℕ
    → Role
    → ℕ
    → Option ℕ
    → Db
    → Result ConsentError (ConsentStatus × Option ConsentRevokedEvent) × Db
revoke k now role user company_id db =
    if is_none (audience_for role)
    then (err notice_audience_not_allowed, db)
    else let (status, db') = revoke_entry k now user db in
      (ok (status, revoked_event role user company_id), db')
