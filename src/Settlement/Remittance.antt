-- ===== src/Settlement/Remittance.antt =====
-- apps/api/src/modules/admin/settlement/settlement-remittance.service.ts with the statements of
-- settlement.repository.ts that it uses: recording what a driver has remitted for a finished week,
-- and reversing it. `bounds` gives the instants between which a week lies in Bogota.
use voyya_backend.Prelude.{
  Result, ok, err, ℕ, ◌+◌, Bool, true, false, not, ◌&&◌, Option, none, some, List, [], ◌∷◌, ◌++◌,
  ltb, leb, ◌==◌, if◌then◌else◌, is_some, find, filter, any,
}
use voyya_backend.Prelude.Int.{pos, ◌-ℤ◌, leb_ℤ, eq_ℤ, pos_part}
use voyya_backend.Contracts.TripStatus
use voyya_backend.Contracts.AssignmentStatus
use voyya_backend.Db.Rows.{TripRequest, Assignment, Driver, Db}
use voyya_backend.Settlement.Ledger.{
  remittance, reversal, LedgerEntry, LedgerState, summarize_ledger, RemittanceSummary,
  to_remittance_summary, reverses, is_remittance,
}

pub data RemittanceError : Type 0 where
  settlement_week_in_progress driver_not_found nothing_to_remit : RemittanceError
  settlement_balance_changed remittance_not_found remittance_not_reversible : RemittanceError

pub record RemittanceResult : Type 0 where
  pub entry : LedgerEntry
  pub idempotent : Bool
  pub summary : RemittanceSummary

-- aggregateByDriver, as far as the commission: of completed and paid trips that ended in the week.
abbrev pub is_settled_in : ℕ × ℕ → Assignment → TripRequest → Bool
is_settled_in (start, end') a t =
    t.trip_request_id == a.trip_request_id
    && TripStatus.same t.status TripStatus.completed
    && is_some t.cash_collected_at
    && elim t.finished_at [ none ↦ false | some at ↦ leb start at && ltb at end' ]

abbrev pub commissions : List TripRequest → ℕ
commissions [] = 0
commissions (t ∷ ts) = t.commission + commissions ts

abbrev pub is_job_of : ℕ → ℕ → Assignment → Bool
is_job_of company driver a =
    a.company_id == company
    && AssignmentStatus.same a.status AssignmentStatus.completed
    && a.driver_id == driver

abbrev pub sum_jobs : ℕ × ℕ → List TripRequest → List Assignment → ℕ
sum_jobs week trips [] = 0
sum_jobs week trips (a ∷ as') =
    commissions (filter (is_settled_in week a) trips) + sum_jobs week trips as'

-- amountToRemit
unfoldable pub amount_to_remit : (ℕ → ℕ × ℕ) → Db → ℕ → ℕ → ℕ → ℕ
amount_to_remit bounds db company driver week =
    sum_jobs (bounds week) db.trips (filter (is_job_of company driver) db.assignments)

-- listLedger
abbrev pub in_ledger : ℕ → ℕ → ℕ → LedgerEntry → Bool
in_ledger company driver week e =
    e.company_id == company && e.week_start == week && e.driver_id == driver

-- lockDriver
abbrev pub owns_driver : Db → ℕ → ℕ → Bool
owns_driver db company driver =
    any (λ (d : Driver). d.driver_id == driver && d.company_id == company) db.drivers

-- What `record` does once the driver is locked.
abbrev pub active_or_nothing :
    Option LedgerEntry
    → LedgerState
    → ℕ
    → List LedgerEntry
    → Result RemittanceError RemittanceResult × List LedgerEntry
active_or_nothing none state owed rows = (err nothing_to_remit, rows)
active_or_nothing (some active) state owed rows = (
  ok (record { entry = active; idempotent = true; summary = to_remittance_summary state owed }),
  rows,
)

abbrev pub remittance_of : ℕ → ℕ → ℕ → ℕ → ℕ → ℕ → LedgerEntry
remittance_of key now company driver week amount = record {
  remittance_id = key;
  company_id = company;
  driver_id = driver;
  week_start = week;
  kind = remittance;
  amount = amount;
  reverses_remittance_id = none;
  recorded_at = now;
}

-- `ledger.find((e) => e.remittanceId === state.lastActiveRemittanceId)`
abbrev pub active_in : Option LedgerEntry → List LedgerEntry → Option LedgerEntry
active_in none ledger = none
active_in (some last) ledger =
    find (λ (e : LedgerEntry). e.remittance_id == last.remittance_id) ledger

unfoldable pub record_owed :
    ℕ
    → ℕ
    → ℕ
    → ℕ
    → ℕ
    → ℕ
    → ℕ
    → List LedgerEntry
    → Result RemittanceError RemittanceResult × List LedgerEntry
record_owed key now company driver week expected owed rows =
    let ledger = filter (in_ledger company driver week) rows in
    let state = summarize_ledger ledger in
    let balance = pos owed -ℤ state.remitted in
    let entry = remittance_of key now company driver week (pos_part balance) in
    if leb_ℤ balance (pos 0)
    then active_or_nothing (active_in state.last ledger) state owed rows
    else if not (eq_ℤ (pos expected) balance)
    then (err settlement_balance_changed, rows)
    else (
      ok (record {
        entry = entry;
        idempotent = false;
        summary = to_remittance_summary (summarize_ledger (ledger ++ entry ∷ [])) owed;
      }),
      rows ++ entry ∷ [],
    )

-- record; `finished` says that the week is over.
unfoldable pub record_remittance :
    (ℕ → ℕ × ℕ)
    → Db
    → Bool
    → ℕ
    → ℕ
    → ℕ
    → ℕ
    → ℕ
    → ℕ
    → List LedgerEntry
    → Result RemittanceError RemittanceResult × List LedgerEntry
record_remittance bounds db finished key now company driver week expected rows =
    if not finished
    then (err settlement_week_in_progress, rows)
    else if not (owns_driver db company driver)
    then (err driver_not_found, rows)
    else record_owed key now company driver week expected
        (amount_to_remit bounds db company driver week) rows

abbrev pub reversal_of : ℕ → ℕ → LedgerEntry → LedgerEntry
reversal_of key now target = record target {
  remittance_id = key;
  kind = reversal;
  reverses_remittance_id = some target.remittance_id;
  recorded_at = now;
}

abbrev pub summary_of : (ℕ → ℕ × ℕ) → Db → ℕ → LedgerEntry → List LedgerEntry → RemittanceSummary
summary_of bounds db company target rows =
    to_remittance_summary
      (summarize_ledger (filter (in_ledger company target.driver_id target.week_start) rows))
      (amount_to_remit bounds db company target.driver_id target.week_start)

abbrev pub reverse_unless :
    (ℕ → ℕ × ℕ)
    → Db
    → ℕ
    → ℕ
    → ℕ
    → LedgerEntry
    → List LedgerEntry
    → Option LedgerEntry
    → Result RemittanceError RemittanceResult × List LedgerEntry
reverse_unless bounds db key now company target rows (some existing) = (
  ok (record {
    entry = existing;
    idempotent = true;
    summary = summary_of bounds db company target rows;
  }),
  rows,
)
reverse_unless bounds db key now company target rows none =
    let rows' = rows ++ reversal_of key now target ∷ [] in
    (
      ok (record {
        entry = reversal_of key now target;
        idempotent = false;
        summary = summary_of bounds db company target rows';
      }),
      rows',
    )

abbrev pub is_entry : ℕ → ℕ → LedgerEntry → Bool
is_entry company k e = e.company_id == company && e.remittance_id == k

abbrev pub reverses_in : ℕ → ℕ → LedgerEntry → Bool
reverses_in company k e = e.company_id == company && reverses k e

abbrev pub reverse_found :
    (ℕ → ℕ × ℕ)
    → Db
    → ℕ
    → ℕ
    → ℕ
    → List LedgerEntry
    → Option LedgerEntry
    → Result RemittanceError RemittanceResult × List LedgerEntry
reverse_found bounds db key now company rows none = (err remittance_not_found, rows)
reverse_found bounds db key now company rows (some target) =
    if not (owns_driver db company target.driver_id)
    then (err driver_not_found, rows)
    else if not (is_remittance target)
    then (err remittance_not_reversible, rows)
    else reverse_unless bounds db key now company target rows
        (find (reverses_in company target.remittance_id) rows)

-- reverse
unfoldable pub reverse_remittance :
    (ℕ → ℕ × ℕ)
    → Db
    → ℕ
    → ℕ
    → ℕ
    → ℕ
    → List LedgerEntry
    → Result RemittanceError RemittanceResult × List LedgerEntry
reverse_remittance bounds db key now company k rows =
    reverse_found bounds db key now company rows (find (is_entry company k) rows)
