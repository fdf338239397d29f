-- ===== src/Trips/StartCode/Blocking.antt =====
-- Repeated attempts at the start code of a trip: the block by `recordFailedStartAttempt` of
-- apps/api/src/modules/trips/trips.repository.ts.
use voyya_backend.Prelude.{ℕ, String, some, List, [], ◌∷◌}
use voyya_backend.Db.Rows.{Db}
use voyya_backend.Db.Tx.{Outcome, done, thrown}
use voyya_backend.Trips.Repository.{start_with_code}

-- An attempt at a start: the code that the trigger would draw, the instant, and the code tried.
pub record Attempt : Type 0 where
  pub fresh : String
  pub now : ℕ
  pub code : String

-- The tables after these attempts, one after another.
abbrev pub tables : {A : Type 0} → Db → Outcome A → Db
tables db (done a db') = db'
tables db (thrown e) = db

unfoldable pub try_codes : ℕ → List Attempt → Db → Db
try_codes k [] db = db
try_codes k (a ∷ tried) db =
    try_codes k tried (tables db (start_with_code a.fresh a.now k (some a.code) db))
