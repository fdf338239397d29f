-- ===== src/Notifications/Examples.antt =====
-- A short history of a ledger.
use voyya_backend.Prelude.{ℕ, [], ◌∷◌, arith}
use voyya_backend.Notifications.Bounds.{IsBounded}
use voyya_backend.Notifications.Run.{submits, records_cancellation, forgets, run, run-IsBounded}

empty_ledger : (m : ℕ) → IsBounded m []
empty_ledger m = record { small = omega arith; capped = tt; unique = λ k. omega arith }

run-IsBounded_example : IsBounded 2 (
    run 2 [] (
      submits 1000 7
      ∷ submits 2000 7
      ∷ submits 3000 7
      ∷ records_cancellation 4000 8
      ∷ forgets 7
      ∷ []))
run-IsBounded_example =
    run-IsBounded 2 []
      (submits 1000 7
        ∷ submits 2000 7
        ∷ submits 3000 7
        ∷ records_cancellation 4000 8
        ∷ forgets 7
        ∷ [])
      (empty_ledger 2)
