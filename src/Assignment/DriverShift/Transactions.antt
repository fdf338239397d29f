-- ===== src/Assignment/DriverShift/Transactions.antt =====
-- Transactions on drivers and consents, of apps/api/src/modules/assignment and
-- apps/api/src/modules/auth, in any order.
use voyya_backend.Prelude.{ℕ, String, Bool, true, false, Option, List, [], ◌∷◌, ◌==◌}
use voyya_backend.Db.Rows.{Coordinate, Db, NoticeAudience}
use voyya_backend.Db.Tx.{Tx, run_in_tenant}
use voyya_backend.Auth.Consents.{Role, grant, revoke}
use voyya_backend.Assignment.Statements.{take_driver, release_driver}
use voyya_backend.Assignment.DriverRows.{
  start_shift_row, refresh_location_while_on_trip, end_shift_row, report_location_row,
  purge_stale_locations, clear_location_after_consent_revoked,
}
use voyya_backend.Assignment.DriverShift.{with_location_consent}

-- One transaction on drivers or consents, with its arguments.
pub data DriverTx : Type 0 where
  starts refreshes reports : ℕ → ℕ → ℕ → Coordinate → DriverTx
  ends takes releases clears : ℕ → ℕ → DriverTx
  purges : ℕ → ℕ → ℕ → DriverTx
  grants : (String → NoticeAudience → Bool) → ℕ → ℕ → Role → ℕ → String → DriverTx
  revokes : ℕ → ℕ → Role → ℕ → Option ℕ → DriverTx

abbrev pub commit : {A : Type 0} → Tx A → Db → Db
commit m db = (run_in_tenant m db).1

abbrev pub perform : DriverTx → Db → Db
perform (starts now driver company p) =
    commit (with_location_consent driver true (λ s. start_shift_row now driver company p))
perform (refreshes now driver company p) =
    commit
      (with_location_consent driver true (λ s. refresh_location_while_on_trip now driver company p))
perform (reports now driver company p) =
    commit (with_location_consent driver false (λ s. report_location_row now driver company p))
perform (ends driver company) = commit (end_shift_row driver company)
perform (takes driver company) = commit (take_driver driver company)
perform (releases driver company) = commit (release_driver driver company)
perform (clears driver company) = commit (clear_location_after_consent_revoked driver company)
perform (purges now company hours) = commit (purge_stale_locations now company hours)
perform (grants known k now role user version) = λ db. (grant known k now role user version db).1
perform (revokes k now role user company) = λ db. (revoke k now role user company db).1

unfoldable pub perform_all : List DriverTx → Db → Db
perform_all [] db = db
perform_all (t ∷ ts) db = perform_all ts (perform t db)

-- The transaction is a grant of the user's consent.
abbrev pub grants_for : ℕ → DriverTx → Bool
grants_for user (grants known k now role u version) = u == user
grants_for user _ = false
