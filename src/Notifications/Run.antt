-- ===== src/Notifications/Run.antt =====
-- Calls of the ledger of apps/api/src/modules/notifications/passenger/passenger-push.ledger.ts in any
-- order, at any instants.
use voyya_backend.Prelude.{ℕ, refl, not, List, [], ◌∷◌, All-update_where}
use voyya_backend.Notifications.PushLedger.{
  TripEntry, has_key, forget, mark_cancelled, entry_for, submit, record_driver_cancellation,
  had_driver_cancellation,
}
use voyya_backend.Notifications.Kept.{Kept-filter}
use voyya_backend.Notifications.Bounds.{
  HasQuota, IsBounded, part-IsBounded, searched, entry_for-IsBounded, rewritten-IsBounded,
  submit-IsBounded,
}

-- The trip and the instant of a call.
pub data LedgerCall : Type 0 where
  submits records_cancellation asks_cancellation : ℕ → ℕ → LedgerCall
  forgets : ℕ → LedgerCall

unfoldable pub step : ℕ → List TripEntry → LedgerCall → List TripEntry
unfolding submit record_driver_cancellation had_driver_cancellation forget
step max_per_trip entries (submits now k) = (submit max_per_trip now k entries).1
step max_per_trip entries (records_cancellation now k) = record_driver_cancellation now k entries
step max_per_trip entries (asks_cancellation now k) = (had_driver_cancellation now k entries).1
step max_per_trip entries (forgets k) = forget k entries

unfoldable pub run : ℕ → List TripEntry → List LedgerCall → List TripEntry
unfolding step
run max_per_trip entries [] = entries
run max_per_trip entries (c ∷ cs) = run max_per_trip (step max_per_trip entries c) cs

step-IsBounded :
    (max_per_trip : ℕ) (entries : List TripEntry) (c : LedgerCall)
    → IsBounded max_per_trip entries
    → IsBounded max_per_trip (step max_per_trip entries c)
unfolding step record_driver_cancellation had_driver_cancellation forget
step-IsBounded m entries (submits now k) i = (submit-IsBounded m now k entries i).0
step-IsBounded m entries (records_cancellation now k) i =
    let (bounded, found, quota) = entry_for-IsBounded m now k entries i in
    rewritten-IsBounded m now k mark_cancelled (entry_for now k entries).1 (λ x. refl) bounded
      (All-update_where (HasQuota m) (has_key k) mark_cancelled (entry_for now k entries).1
        (λ x w q. q) bounded.capped)
step-IsBounded m entries (asks_cancellation now k) i =
    part-IsBounded m now k (searched m now k entries).0 i
step-IsBounded m entries (forgets k) i =
    part-IsBounded m 0 k (Kept-filter (λ e. not (has_key k e)) entries) i

-- A ledger that is within its bounds stays within them, through any calls at any instants: at most
-- five thousand entries, one at most of each trip, and in no entry more pushes than a trip may have.
pub run-IsBounded :
    (max_per_trip : ℕ) (entries : List TripEntry) (cs : List LedgerCall)
    → IsBounded max_per_trip entries
    → IsBounded max_per_trip (run max_per_trip entries cs)
unfolding run
run-IsBounded m entries [] i = i
run-IsBounded m entries (c ∷ cs) i =
    run-IsBounded m (step m entries c) cs (step-IsBounded m entries c i)
