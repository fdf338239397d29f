-- ===== src/Assignment/DriverShift/Hidden.antt =====
-- Drivers whose consent is not granted, through transactions of apps/api/src/modules/assignment
-- and apps/api/src/modules/auth.
use voyya_backend.Prelude.{
  ℕ, ◌≡◌, sym, subst, inl, inr, Bool, true, false, not, ◌&&◌, ◌||◌, List, [], ◌∷◌, arith, ◌==◌,
  is_some, Bool-cases, ==→eq, length, All, All-update_where,
}
use voyya_backend.Assignment.DriverShift.Transactions.{
  DriverTx, clears, commit, ends, grants, grants_for, perform, perform_all, purges, refreshes,
  releases, reports, revokes, starts, takes,
}
use voyya_backend.Db.Rows.{Driver, Coordinate, Db, available, same_driver_status}
use voyya_backend.Db.Tx.{Tx, Keeps, done-injective, >>=-Keeps, pure-Keeps, run_in_tenant-keeps}
use voyya_backend.Auth.Consents.Others.{
  grant-others, drivers-grant, drivers-revoke, revoke-IsRefused,
}
use voyya_backend.Auth.Consents.{ConsentStatus, is_granted, status_for}
use voyya_backend.Assignment.Statements.{
  update_drivers, take_driver, release_driver, is_free_driver, on_trip_where, release_set,
  take_driver_set,
}
use voyya_backend.Assignment.DriverRows.{
  start_shift_where, start_shift_set, start_shift_row, refresh_location_while_on_trip,
  end_shift_row, report_location_row, purge_stale_locations, clear_location_after_consent_revoked,
  busy_where, end_shift_where, first_row, of_driver, purge_where, report_where, clear_set,
  end_shift_set, locate, unlocate,
}
use voyya_backend.Assignment.DriverShift.{
  with_location_consent, is_location_consent_accepted, ◌>>=◌, pure,
}

-- The driver `user` of the company; the rows are hidden only where `hide` is set.
module _ (user company_id : ℕ) (hide : Bool) where
  -- The consent is not granted.
  abbrev pub IsRefused : Db → Type 0
  IsRefused db = is_granted (status_for user db).state ≡ false

  -- A row of the driver that is of another company, or that shows where the driver is or offers the
  -- driver for a trip.
  abbrev pub shows : Driver → Bool
  shows d =
      d.driver_id == user
      && (not (d.company_id == company_id)
          || hide && (is_some d.location || same_driver_status d.status available))

  abbrev pub IsHidden : Db → Type 0
  IsHidden db = All (λ (d : Driver). shows d ≡ false) db.drivers

  abbrev pub IsPrivate : Db → Type 0
  IsPrivate db = IsRefused db × IsHidden db

  -- An update of rows that shows no hidden driver.
  IsHidden-update :
      (p : Driver → Bool) (set : Driver → Driver)
      → ((d : Driver) → p d ≡ true → shows d ≡ false → shows (set d) ≡ false)
      → Keeps IsPrivate (update_drivers p set)
  unfolding update_drivers status_for
  IsHidden-update p set f db r db' h e =
      subst IsPrivate (done-injective e)
        (h.0, All-update_where (λ (d : Driver). shows d ≡ false) p set db.drivers f h.1)

  then-IsPrivate :
      {A : Type 0} (p : Driver → Bool) (set : Driver → Driver) (answer : List Driver → A)
      → ((d : Driver) → p d ≡ true → shows d ≡ false → shows (set d) ≡ false)
      → Keeps IsPrivate (◌>>=◌ (update_drivers p set) (λ rows. pure (answer rows)))
  then-IsPrivate p set answer f =
      >>=-Keeps IsPrivate _ _ (IsHidden-update p set f) (λ rows. pure-Keeps IsPrivate (answer rows))

  -- A write that needs the consent is not made for the user.
  consent-IsPrivate :
      {A : Type 0} (driver : ℕ) (current : Bool) (write : ConsentStatus → Tx A)
      → ((driver == user) ≡ false → (s : ConsentStatus) → Keeps IsPrivate (write s))
      → Keeps IsPrivate (with_location_consent driver current write)
  unfolding with_location_consent
  consent-IsPrivate driver current write f db a db' h e = elim (Bool-cases (driver == user)) [
    | inl own ↦
        let refused : is_granted (status_for driver db).state ≡ false =
          subst (λ k. is_granted (status_for k db).state ≡ false) (sym (==→eq driver user own))
            h.0 in
        cc (rw refused at e)
    | inr other ↦ elim (Bool-cases (is_location_consent_accepted (status_for driver db) current)) [
      | inl ok' ↦ f other (status_for driver db) db a db' h (rw ok' at e)
      | inr no' ↦ cc (rw no' at e)
    ]
  ]

  start_shift_row-IsPrivate :
      (now driver company : ℕ) (p : Coordinate)
      → (driver == user) ≡ false
      → Keeps IsPrivate (start_shift_row now driver company p)
  unfolding start_shift_row
  start_shift_row-IsPrivate now driver company p other =
      then-IsPrivate (start_shift_where driver company) (start_shift_set now p) first_row
        (λ d q h. ground arith)

  refresh-IsPrivate :
      (now driver company : ℕ) (p : Coordinate)
      → (driver == user) ≡ false
      → Keeps IsPrivate (refresh_location_while_on_trip now driver company p)
  unfolding refresh_location_while_on_trip
  refresh-IsPrivate now driver company p other =
      then-IsPrivate (busy_where driver company) (locate now p) first_row (λ d q h. ground arith)

  report-IsPrivate :
      (now driver company : ℕ) (p : Coordinate)
      → (driver == user) ≡ false
      → Keeps IsPrivate (report_location_row now driver company p)
  unfolding report_location_row
  report-IsPrivate now driver company p other =
      then-IsPrivate (report_where driver company) (locate now p) (λ rows. length rows == 1)
        (λ d q h. ground arith)

  end_shift_row-IsPrivate : (driver company : ℕ) → Keeps IsPrivate (end_shift_row driver company)
  unfolding end_shift_row
  end_shift_row-IsPrivate driver company =
      then-IsPrivate (end_shift_where driver company) end_shift_set first_row
        (λ d q h. ground arith)

  take_driver-IsPrivate : (driver company : ℕ) → Keeps IsPrivate (take_driver driver company)
  unfolding take_driver
  take_driver-IsPrivate driver company =
      then-IsPrivate (is_free_driver driver company) take_driver_set (λ rows. length rows == 1)
        (λ d q h. ground arith)

  release_driver-IsPrivate : (driver company : ℕ) → Keeps IsPrivate (release_driver driver company)
  unfolding release_driver
  release_driver-IsPrivate driver company =
      then-IsPrivate (on_trip_where driver company) release_set (λ rows. tt) (λ d q h. ground arith)

  clear-IsPrivate :
      (driver company : ℕ) → Keeps IsPrivate (clear_location_after_consent_revoked driver company)
  unfolding clear_location_after_consent_revoked
  clear-IsPrivate driver company =
      then-IsPrivate (of_driver driver company) clear_set (λ rows. tt) (λ d q h. ground arith)

  purge-IsPrivate :
      (now company hours : ℕ) → Keeps IsPrivate (purge_stale_locations now company hours)
  unfolding purge_stale_locations
  purge-IsPrivate now company hours =
      then-IsPrivate (purge_where now company hours) unlocate (λ rows. length rows)
        (λ d q h. ground arith)

  committed :
      {A : Type 0} (m : Tx A) (db : Db) → Keeps IsPrivate m → IsPrivate db → IsPrivate (commit m db)
  committed m db k h = run_in_tenant-keeps IsPrivate m k db h

  -- A transaction that is no grant of the user's consent keeps the user private.
  perform-IsPrivate :
      (t : DriverTx) (db : Db) → grants_for user t ≡ false → IsPrivate db → IsPrivate (perform t db)
  perform-IsPrivate (starts now driver company p) db g h =
      committed _ db
        (consent-IsPrivate driver true _
          (λ other s. start_shift_row-IsPrivate now driver company p other))
        h
  perform-IsPrivate (refreshes now driver company p) db g h =
      committed _ db
        (consent-IsPrivate driver true _ (λ other s. refresh-IsPrivate now driver company p other))
        h
  perform-IsPrivate (reports now driver company p) db g h =
      committed _ db
        (consent-IsPrivate driver false _ (λ other s. report-IsPrivate now driver company p other))
        h
  perform-IsPrivate (ends driver company) db g h =
      committed _ db (end_shift_row-IsPrivate driver company) h
  perform-IsPrivate (takes driver company) db g h =
      committed _ db (take_driver-IsPrivate driver company) h
  perform-IsPrivate (releases driver company) db g h =
      committed _ db (release_driver-IsPrivate driver company) h
  perform-IsPrivate (clears driver company) db g h =
      committed _ db (clear-IsPrivate driver company) h
  perform-IsPrivate (purges now company hours) db g h =
      committed _ db (purge-IsPrivate now company hours) h
  perform-IsPrivate (grants known k now role u version) db g h = (
    rw (grant-others known k now role u version user db g) h.0,
    subst (λ ds. All (λ (d : Driver). shows d ≡ false) ds)
        (sym (drivers-grant known k now role u version db)) h.1,
  )
  perform-IsPrivate (revokes k now role u company) db g h = (
    revoke-IsRefused k now role u company user db h.0,
    subst (λ ds. All (λ (d : Driver). shows d ≡ false) ds)
        (sym (drivers-revoke k now role u company db)) h.1,
  )

  pub perform_all-IsPrivate :
      (ts : List DriverTx) (db : Db)
      → All (λ t. grants_for user t ≡ false) ts
      → IsPrivate db
      → IsPrivate (perform_all ts db)
  unfolding perform_all
  perform_all-IsPrivate [] db g h = h
  perform_all-IsPrivate (t ∷ ts) db g h =
      perform_all-IsPrivate ts (perform t db) g.1 (perform-IsPrivate t db g.0 h)
