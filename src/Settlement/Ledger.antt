-- ===== src/Settlement/Ledger.antt =====
-- apps/api/src/modules/admin/settlement/remittance-ledger.ts: the sum of a ledger and its last active
-- remittance.
use voyya_backend.Prelude.{
  ℕ, Bool, true, false, not, ◌&&◌, ◌||◌, Option, none, some, List, [], ◌∷◌, ltb, ◌==◌,
  if◌then◌else◌, any,
}
use voyya_backend.Prelude.Int.{ℤ, pos, ◌+ℤ◌, ◌-ℤ◌}

pub data EntryKind : Type 0 where
  remittance reversal : EntryKind

-- A row of admin.settlement_remittance; a week is known by the number of its Monday.
pub record LedgerEntry : Type 0 where
  pub remittance_id : ℕ
  pub company_id : ℕ
  pub driver_id : ℕ
  pub week_start : ℕ
  pub kind : EntryKind
  pub amount : ℕ
  pub reverses_remittance_id : Option ℕ
  pub recorded_at : ℕ

pub record LedgerState : Type 0 where
  pub remitted : ℤ
  pub last : Option LedgerEntry

abbrev pub is_remittance : LedgerEntry → Bool
is_remittance entry = elim entry.kind [ remittance ↦ true | reversal ↦ false ]

-- `entry.kind === 'remittance' ? entry.amount : -entry.amount`
abbrev pub signed_amount : LedgerEntry → ℤ
signed_amount entry = if is_remittance entry then pos entry.amount else pos 0 -ℤ pos entry.amount

-- `reversed.has(remittanceId)`
abbrev pub reverses : ℕ → LedgerEntry → Bool
reverses k entry = elim entry.reverses_remittance_id [ none ↦ false | some j ↦ j == k ]

abbrev is_later : LedgerEntry → Option LedgerEntry → Bool
is_later entry none = true
is_later entry (some last) =
    ltb last.recorded_at entry.recorded_at
    || entry.recorded_at == last.recorded_at && ltb last.remittance_id entry.remittance_id

-- One turn of the loop.
abbrev pub turn : List LedgerEntry → LedgerState → LedgerEntry → LedgerState
turn entries state entry = record {
  remitted = state.remitted +ℤ signed_amount entry;
  last =
      if is_remittance entry
        && not (any (reverses entry.remittance_id) entries)
        && is_later entry state.last
      then some entry
      else state.last;
}

unfoldable pub accumulate : List LedgerEntry → LedgerState → List LedgerEntry → LedgerState
accumulate entries state [] = state
accumulate entries state (x ∷ xs) = accumulate entries (turn entries state x) xs

-- summarizeLedger
unfoldable pub summarize_ledger : List LedgerEntry → LedgerState
unfolding accumulate
summarize_ledger entries = accumulate entries (record { remitted = pos 0; last = none }) entries

pub record RemittanceSummary : Type 0 where
  pub remitted_amount : ℤ
  pub balance : ℤ
  pub last_remitted_at : Option ℕ

-- toRemittanceSummary
abbrev pub to_remittance_summary : LedgerState → ℕ → RemittanceSummary
to_remittance_summary state amount_to_remit = record {
  remitted_amount = state.remitted;
  balance = pos amount_to_remit -ℤ state.remitted;
  last_remitted_at = elim state.last [ none ↦ none | some e ↦ some e.recorded_at ];
}
