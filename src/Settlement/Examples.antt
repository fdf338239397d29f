-- ===== src/Settlement/Examples.antt =====
-- A week of one paid trip.
use voyya_backend.Prelude.{ℕ, ◌+◌, ◌*◌, ◌≡◌, refl, true, some, [], ◌∷◌, find, filter, In}
use voyya_backend.Prelude.Int.{pos, ◌+ℤ◌, ◌-ℤ◌}
use voyya_backend.Contracts.TripStatus
use voyya_backend.Contracts.AssignmentStatus
use voyya_backend.Samples.{moving_trip, running_job, sample_db}
use voyya_backend.Db.Rows.{Db, Driver}
use voyya_backend.Settlement.Ledger.{LedgerEntry, summarize_ledger, accumulate, remittance}
use voyya_backend.Settlement.Remittance.{
  in_ledger, is_entry, remittance_of, reversal_of, amount_to_remit, record_owed, record_remittance,
  reverse_remittance,
}
use voyya_backend.Settlement.Laws.{balance_told, record_remittance_lem}
use voyya_backend.Settlement.Reversal.{reverse_remittance_lem}

abbrev settled_db : Db
settled_db = record sample_db {
  trips =
      record moving_trip {
        status = TripStatus.completed;
        finished_at = some 95000;
        cash_collected_at = some 95000;
      }
      ∷ [];
  assignments = record running_job { status = AssignmentStatus.completed } ∷ [];
}

abbrev week_bounds : ℕ → ℕ × ℕ
week_bounds week = (week * 604800000, (week + 1) * 604800000)

abbrev paid_entry : LedgerEntry
paid_entry = remittance_of 1 700000000 7 9 0 1250

record_remittance_lem_example :
    (balance_told (record_remittance week_bounds settled_db true 1 700000000 7 9 0 1250 []).0
      ≡ pos 0)
    × ((record_remittance week_bounds settled_db true 1 700000000 7 9 0 1250 []).1
        ≡ paid_entry ∷ [])
    × ((key' now' expected' : ℕ)
        → (record_remittance week_bounds settled_db true key' now' 7 9 0 expected'
            (record_remittance week_bounds settled_db true 1 700000000 7 9 0 1250 []).1).1
          ≡ (record_remittance week_bounds settled_db true 1 700000000 7 9 0 1250 []).1)
unfolding record_remittance record_owed amount_to_remit summarize_ledger accumulate ◌-ℤ◌
record_remittance_lem_example =
    record_remittance_lem week_bounds settled_db true 1 700000000 7 9 0 1250 [] refl

reverse_remittance_lem_example :
    let after = (reverse_remittance week_bounds settled_db 2 710000000 7 1 (paid_entry ∷ [])).1 in
    (t : LedgerEntry) × (find (is_entry 7 1) (paid_entry ∷ []) ≡ some t)
    × (t.kind ≡ remittance)
    × ((d : Driver) × In d settled_db.drivers × (d.driver_id ≡ t.driver_id) × (d.company_id ≡ 7))
    × (after ≡ paid_entry ∷ reversal_of 2 710000000 t ∷ [])
    × ((summarize_ledger (filter (in_ledger 7 t.driver_id t.week_start) after)).remitted
        ≡ (summarize_ledger
            (filter (in_ledger 7 t.driver_id t.week_start) (paid_entry ∷ []))).remitted
          +ℤ (pos 0 -ℤ pos t.amount))
    × ((key' now' : ℕ) → (reverse_remittance week_bounds settled_db key' now' 7 1 after).1 ≡ after)
unfolding reverse_remittance
reverse_remittance_lem_example =
    reverse_remittance_lem week_bounds settled_db 7 1 2 710000000 (paid_entry ∷ []) refl
