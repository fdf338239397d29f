-- ===== src/Assignment/DriverShift/Privacy.antt =====
-- What the revocation of a consent does to the location of a driver, through any transactions of
-- apps/api/src/modules/assignment and apps/api/src/modules/auth on drivers and consents.
use voyya_backend.Assignment.DriverShift.Hidden.{IsPrivate, perform_all-IsPrivate, shows}
use voyya_backend.Assignment.DriverShift.Transactions.{DriverTx, commit, grants_for, perform_all}
use voyya_backend.Prelude.{
  ℕ, ◌≡◌, sym, subst, true, false, ◌&&◌, List, [], ◌∷◌, arith, ◌==◌, All, refl, not, some,
  if◌then◌else◌, update_where,
}
use voyya_backend.Db.Rows.{Driver, Db}
use voyya_backend.Db.Tx.{run_in_tenant-done}
use voyya_backend.Auth.Consents.Others.{drivers-revoke}
use voyya_backend.Auth.Consents.Ledger.{revoke-RevokedFor, AllOlder}
use voyya_backend.Auth.Consents.{Role, status_for, revoke}
use voyya_backend.Assignment.Statements.{update_drivers}
use voyya_backend.Assignment.DriverRows.{
  clear_location_after_consent_revoked, of_driver, clear_set, on_consent_revoked,
}
use voyya_backend.Assignment.DriverShift.{ConsentRevokedEvent}

-- A driver's rows after the location is cleared: hidden.
cleared :
    (user company : ℕ) (ds : List Driver)
    → All (λ (d : Driver). shows user company false d ≡ false) ds
    → All
        (λ (d : Driver). shows user company true d ≡ false)
        (update_where (of_driver user company) clear_set ds)
cleared user company [] h = tt
cleared user company (d ∷ ds) h = (hidden, cleared user company ds h.1)
  where
    hidden : shows user company true (if of_driver user company d then clear_set d else d) ≡ false
    hidden = ground (arith, h.0)

clear-hides :
    (user company : ℕ) (db : Db)
    → IsPrivate user company false db
    → IsPrivate user company true (commit (clear_location_after_consent_revoked user company) db)
unfolding clear_location_after_consent_revoked update_drivers status_for
clear-hides user company db h =
    subst (λ r. IsPrivate user company true r.1)
      (sym (run_in_tenant-done (clear_location_after_consent_revoked user company) db refl))
      (h.0, cleared user company db.drivers h.1)

belongs :
    (user company : ℕ) (ds : List Driver)
    → All (λ (d : Driver). (d.driver_id == user && not (d.company_id == company)) ≡ false) ds
    → All (λ (d : Driver). shows user company false d ≡ false) ds
belongs user company [] h = tt
belongs user company (d ∷ ds) h = (ground (arith, h.0), belongs user company ds h.1)

-- After a driver of a company revokes the consent, where every entry is older, and whatever
-- transactions come before the listener clears the location and after it, as long as none grants the
-- driver's consent: the consent is not granted, and no row of the driver has a location or is
-- available.
pub revoked_stays-IsPrivate :
    (user company k now : ℕ) (before after : List DriverTx) (db : Db)
    → AllOlder k now db.consents
    → All
        (λ (d : Driver). (d.driver_id == user && not (d.company_id == company)) ≡ false)
        db.drivers
    → All (λ t. grants_for user t ≡ false) before
    → All (λ t. grants_for user t ≡ false) after
    → let revoked' = revoke k now Role.driver user (some company) db in
      let event : ConsentRevokedEvent = record {
        user_id = user;
        role = Role.driver;
        company_id = some company;
      } in
      let cleared' = commit (on_consent_revoked (some event)) (perform_all before revoked'.1) in
      IsPrivate user company true (perform_all after cleared')
revoked_stays-IsPrivate user company k now before after db older own quiet quiet' =
    let first : IsPrivate user company false (revoke k now Role.driver user (some company) db).1 = (
      (revoke-RevokedFor k now Role.driver user (some company) db refl older).0,
      subst (λ ds. All (λ (d : Driver). shows user company false d ≡ false) ds)
          (sym (drivers-revoke k now Role.driver user (some company) db))
          (belongs user company db.drivers own),
    ) in
    perform_all-IsPrivate user company true after _ quiet'
      (clear-hides user company _ (perform_all-IsPrivate user company false before _ quiet first))
