-- ===== src/Settlement/Laws.antt =====
-- What recording and reversing a remittance come to, in
-- apps/api/src/modules/admin/settlement/settlement-remittance.service.ts.
use voyya_backend.Prelude.{
  ok, err, some, none, not, Option, Result, Bool, false, arith, true, refl, sym, ap, ◌∙◌, inl, inr,
  ==_refl, ℕ, ◌≡◌, List, [], ◌∷◌, ◌++◌, Bool-cases, filter,
}
use voyya_backend.Prelude.Int.{ℤ, pos, negsuc, ◌+ℤ◌, ◌-ℤ◌, leb_ℤ, eq_ℤ, pos_part}
use voyya_backend.Db.Rows.{Db}
use voyya_backend.Settlement.Remittance.{
  RemittanceError, RemittanceResult, in_ledger, owns_driver, amount_to_remit, active_or_nothing,
  active_in, remittance_of, record_owed, record_remittance,
}
use voyya_backend.Settlement.Remittance.{owns_driver, amount_to_remit, record_remittance}
use voyya_backend.Db.Rows.{Db}
use voyya_backend.Settlement.Ledger.{
  RemittanceSummary, to_remittance_summary, LedgerEntry, LedgerState, signed_amount, turn,
  accumulate, summarize_ledger,
}
use voyya_backend.Settlement.Remittance.{
  RemittanceError, RemittanceResult, in_ledger, owns_driver, amount_to_remit, active_or_nothing,
  active_in, remittance_of, record_owed, record_remittance,
}

abbrev total : ℤ → List LedgerEntry → ℤ
total r [] = r
total r (x ∷ xs) = total (r +ℤ signed_amount x) xs

remitted-accumulate :
    (entries : List LedgerEntry) (state : LedgerState) (xs : List LedgerEntry)
    → (accumulate entries state xs).remitted ≡ total state.remitted xs
unfolding accumulate
remitted-accumulate entries state [] = refl
remitted-accumulate entries state (x ∷ xs) = remitted-accumulate entries (turn entries state x) xs

total-append :
    (r : ℤ) (xs : List LedgerEntry) (y : LedgerEntry)
    → total r (xs ++ y ∷ []) ≡ total r xs +ℤ signed_amount y
total-append r [] y = refl
total-append r (x ∷ xs) y = total-append (r +ℤ signed_amount x) xs y

-- The sum of a ledger with one entry more.
pub remitted-append :
    (ledger : List LedgerEntry) (entry : LedgerEntry)
    → (summarize_ledger (ledger ++ entry ∷ [])).remitted
      ≡ (summarize_ledger ledger).remitted +ℤ signed_amount entry
unfolding summarize_ledger
remitted-append ledger entry =
    remitted-accumulate (ledger ++ entry ∷ []) (record { remitted = pos 0; last = none })
      (ledger ++ entry ∷ [])
    ∙ total-append (pos 0) ledger entry
    ∙ ap (λ r. r +ℤ signed_amount entry)
        (sym (remitted-accumulate ledger (record { remitted = pos 0; last = none }) ledger))

pub filter-append :
    (p : LedgerEntry → Bool) (xs : List LedgerEntry) (y : LedgerEntry)
    → p y ≡ true
    → filter p (xs ++ y ∷ []) ≡ filter p xs ++ y ∷ []
filter-append p [] y e = rw e
filter-append p (x ∷ xs) y e = elim (Bool-cases (p x)) [
  | inl q ↦ rw q (ap (λ zs. x ∷ zs) (filter-append p xs y e))
  | inr q ↦ rw q (filter-append p xs y e)
]

paid_up :
    (owed : ℕ) (remitted : ℤ)
    → leb_ℤ (pos owed -ℤ remitted) (pos 0) ≡ false
    → pos owed -ℤ (remitted +ℤ pos (pos_part (pos owed -ℤ remitted))) ≡ pos 0
unfolding ◌+ℤ◌ ◌-ℤ◌
paid_up owed (pos r) h = ground arith
paid_up owed (negsuc r) h = ground arith

abbrev balance_of : ℕ → ℕ → ℕ → ℕ → List LedgerEntry → ℤ
balance_of owed company driver week rows =
    pos owed -ℤ (summarize_ledger (filter (in_ledger company driver week) rows)).remitted

-- The balance after what it was has been remitted.
balance_after :
    (owed key now company driver week : ℕ) (rows : List LedgerEntry)
    → leb_ℤ (balance_of owed company driver week rows) (pos 0) ≡ false
    → let entry =
        remittance_of key now company driver week
          (pos_part (balance_of owed company driver week rows)) in
      (filter (in_ledger company driver week) (rows ++ entry ∷ [])
        ≡ filter (in_ledger company driver week) rows ++ entry ∷ [])
      × (pos owed
            -ℤ (summarize_ledger
                (filter (in_ledger company driver week) rows ++ entry ∷ [])).remitted
          ≡ pos 0)
balance_after owed key now company driver week rows due =
    let ledger = filter (in_ledger company driver week) rows in
    let entry : LedgerEntry =
      remittance_of key now company driver week
        (pos_part (balance_of owed company driver week rows)) in
    let own : in_ledger company driver week entry ≡ true =
      rw (==_refl company, ==_refl week, ==_refl driver) in
    let longer = filter-append (in_ledger company driver week) rows entry own in
    (
      longer,
      ap (λ r. pos owed -ℤ r) (remitted-append ledger entry)
          ∙ paid_up owed (summarize_ledger ledger).remitted due,
    )

-- With nothing left to remit, recording adds nothing.
nothing_added :
    (key now company driver week expected owed : ℕ) (rows : List LedgerEntry)
    → balance_of owed company driver week rows ≡ pos 0
    → (record_owed key now company driver week expected owed rows).1 ≡ rows
unfolding record_owed
nothing_added key now company driver week expected owed rows e =
    let ledger = filter (in_ledger company driver week) rows in
    let state = summarize_ledger ledger in
    let done' : leb_ℤ (balance_of owed company driver week rows) (pos 0) ≡ true = rw e in
    rw done' (stays (active_in state.last ledger) state)
  where
    stays :
        (o : Option LedgerEntry) (state : LedgerState)
        → (active_or_nothing o state owed rows).1 ≡ rows
    stays none state = refl
    stays (some active) state = refl

abbrev entry_of : Result RemittanceError RemittanceResult → Option LedgerEntry
entry_of (ok r) = some r.entry
entry_of (err e) = none

abbrev pub is_new : Result RemittanceError RemittanceResult → Bool
is_new (ok r) = not r.idempotent
is_new (err e) = false

abbrev pub balance_told : Result RemittanceError RemittanceResult → ℤ
balance_told (ok r) = r.summary.balance
balance_told (err e) = pos 0

told_only :
    (o : Option LedgerEntry) (state : LedgerState) (owed : ℕ) (rows : List LedgerEntry)
    → is_new (active_or_nothing o state owed rows).0 ≡ false
told_only none state owed rows = refl
told_only (some active) state owed rows = refl

agreed_amount : (e : ℕ) (b : ℤ) → eq_ℤ (pos e) b ≡ true → pos_part b ≡ e
agreed_amount e (pos n) h = ground arith
agreed_amount e (negsuc n) h = ground arith

abbrev made_of :
    Result RemittanceError RemittanceResult
    → List LedgerEntry
    → Result RemittanceError RemittanceResult × List LedgerEntry
made_of r rows = (r, rows)

abbrev new_result : LedgerEntry → RemittanceSummary → Result RemittanceError RemittanceResult
new_result entry summary = ok (record { entry = entry; idempotent = false; summary = summary })

-- What a new entry has paid.
owed_recorded :
    (key now company driver week expected owed : ℕ) (rows : List LedgerEntry)
    → is_new (record_owed key now company driver week expected owed rows).0 ≡ true
    → let after = (record_owed key now company driver week expected owed rows).1 in
      (balance_told (record_owed key now company driver week expected owed rows).0 ≡ pos 0)
      × (after ≡ rows ++ remittance_of key now company driver week expected ∷ [])
      × (balance_of owed company driver week after ≡ pos 0)
unfolding record_owed
owed_recorded key now company driver week expected owed rows new =
    let ledger = filter (in_ledger company driver week) rows in
    let state = summarize_ledger ledger in
    let balance = balance_of owed company driver week rows in
    elim (Bool-cases (leb_ℤ balance (pos 0))) [
      | inl none_due ↦
          let told : is_new (record_owed key now company driver week expected owed rows).0 ≡ false =
            rw none_due (told_only (active_in state.last ledger) state owed rows) in
          cc
      | inr due ↦ elim (Bool-cases (eq_ℤ (pos expected) balance)) [
        | inr changed ↦ cc (rw (due, changed) at new)
        | inl agreed ↦
            let entry : LedgerEntry =
              remittance_of key now company driver week (pos_part balance) in
            let made : record_owed key now company driver week expected owed rows
                ≡ made_of
                    (new_result entry
                      (to_remittance_summary (summarize_ledger (ledger ++ entry ∷ [])) owed))
                    (rows ++ entry ∷ []) =
              rw (due, agreed) in
            let (longer, paid) = balance_after owed key now company driver week rows due in
            (
              ap (λ m. balance_told m.0) made ∙ paid,
              ap (λ m. m.1) made
                  ∙ ap (λ n. rows ++ remittance_of key now company driver week n ∷ [])
                      (agreed_amount expected balance agreed),
              ap (λ m. balance_of owed company driver week m.1) made
                  ∙ ap (λ l. pos owed -ℤ (summarize_ledger l).remitted) longer
                  ∙ paid,
            )
      ]
    ]

-- A remittance that is newly recorded has the amount that was expected, pays what was owed for the
-- week to the peso, and is the one row that is added; until the trips, the assignments or the ledger
-- change, recording again adds nothing, whatever is expected.
pub record_remittance_lem :
    (bounds : ℕ → ℕ × ℕ) (db : Db) (finished : Bool) (key now company driver week expected : ℕ)
    (rows : List LedgerEntry)
    → is_new (record_remittance bounds db finished key now company driver week expected rows).0
      ≡ true
    → let after =
        (record_remittance bounds db finished key now company driver week expected rows).1 in
      (balance_told
          (record_remittance bounds db finished key now company driver week expected rows).0
        ≡ pos 0)
      × (after ≡ rows ++ remittance_of key now company driver week expected ∷ [])
      × ((key' now' expected' : ℕ)
          → (record_remittance bounds db finished key' now' company driver week expected' after).1
            ≡ after)
unfolding record_remittance
record_remittance_lem bounds db finished key now company driver week expected rows new =
    elim (Bool-cases finished) [
      | inr no_end ↦ cc (rw no_end at new)
      | inl over ↦ elim (Bool-cases (owns_driver db company driver)) [
        | inr other ↦ cc (rw (over, other) at new)
        | inl own ↦
            let owed = amount_to_remit bounds db company driver week in
            let (told, added, paid) =
              owed_recorded key now company driver week expected owed rows
                (rw (over, own) at new) in
            rw (over, own)
              (
                told,
                added,
                λ key' now' expected'.
                    nothing_added key' now' company driver week expected' owed _ paid,
              )
      ]
    ]
