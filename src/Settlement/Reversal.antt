-- ===== src/Settlement/Reversal.antt =====
-- What reversing a remittance comes to, in
-- apps/api/src/modules/admin/settlement/settlement-remittance.service.ts.
use voyya_backend.Prelude.{
  ℕ, ◌≡◌, refl, sym, ap, ◌∙◌, subst, inl, inr, Bool, true, Option, none, some, List, [], ◌∷◌, ◌++◌,
  arith, ◌==◌, Bool-cases, ==_refl, find, filter, In, any-In, ◌&&◌, ==→eq,
}
use voyya_backend.Prelude.Int.{pos, ◌+ℤ◌, ◌-ℤ◌}
use voyya_backend.Db.Rows.{Driver, Db}
use voyya_backend.Settlement.Ledger.{LedgerEntry, remittance, summarize_ledger, is_remittance}
use voyya_backend.Settlement.Remittance.{
  in_ledger, owns_driver, is_entry, reverses_in, reversal_of, reverse_unless, reverse_found,
  reverse_remittance,
}
use voyya_backend.Settlement.Laws.{is_new, filter-append, remitted-append}

find-append :
    (p : LedgerEntry → Bool) (xs ys : List LedgerEntry) (x : LedgerEntry)
    → find p xs ≡ some x
    → find p (xs ++ ys) ≡ some x
find-append p [] ys x e = cc
find-append p (z ∷ zs) ys x e = elim (Bool-cases (p z)) [
  | inl q ↦ rw q (rw q at e)
  | inr q ↦ rw q (find-append p zs ys x (rw q at e))
]

found_last :
    (p : LedgerEntry → Bool) (xs : List LedgerEntry) (y : LedgerEntry)
    → p y ≡ true
    → (x : LedgerEntry) × (find p (xs ++ y ∷ []) ≡ some x)
found_last p [] y e = (y, rw e)
found_last p (z ∷ zs) y e = elim (Bool-cases (p z)) [
  | inl q ↦ (z, rw q)
  | inr q ↦ let (x, f) = found_last p zs y e in (x, rw q f)
]

entry_company :
    (company k : ℕ) (rows : List LedgerEntry) (t : LedgerEntry)
    → find (is_entry company k) rows ≡ some t
    → (t.company_id == company) ≡ true
entry_company company k [] t e = cc
entry_company company k (z ∷ zs) t e = elim (Bool-cases (is_entry company k z)) [
  | inr q ↦ entry_company company k zs t (rw q at e)
  | inl q ↦
      let r : some z ≡ some t = rw q at e in
      let s : z ≡ t = cc in
      subst (λ (x : LedgerEntry). (x.company_id == company) ≡ true) s (ground arith)
]

module _ (bounds : ℕ → ℕ × ℕ) (db : Db) (company k : ℕ) where
  -- What a new reversal has found.
  reversed_found :
      (key now : ℕ) (rows : List LedgerEntry) (o : Option LedgerEntry)
      → is_new (reverse_found bounds db key now company rows o).0 ≡ true
      → (t : LedgerEntry) × (o ≡ some t)
        × (owns_driver db company t.driver_id ≡ true)
        × (is_remittance t ≡ true)
        × ((reverse_found bounds db key now company rows o).1 ≡ rows ++ reversal_of key now t ∷ [])
  reversed_found key now rows none new = cc
  reversed_found key now rows (some t) new =
      elim (Bool-cases (owns_driver db company t.driver_id)) [
        | inr other ↦ cc (rw other at new)
        | inl own ↦ elim (Bool-cases (is_remittance t)) [
          | inr no_remittance ↦ cc (rw (own, no_remittance) at new)
          | inl paid ↦ (
            t,
            refl,
            own,
            paid,
            rw (own, paid)
                (added (find (reverses_in company t.remittance_id) rows) (rw (own, paid) at new)),
          )
        ]
      ]
    where
      added :
          (o : Option LedgerEntry)
          → is_new (reverse_unless bounds db key now company t rows o).0 ≡ true
          → (reverse_unless bounds db key now company t rows o).1
            ≡ rows ++ reversal_of key now t ∷ []
      added none n = refl
      added (some existing) n = cc

  -- A remittance that has a reversal is not reversed again.
  reversed_already :
      (key now : ℕ) (rows : List LedgerEntry) (t r : LedgerEntry)
      → owns_driver db company t.driver_id ≡ true
      → is_remittance t ≡ true
      → find (reverses_in company t.remittance_id) rows ≡ some r
      → (reverse_found bounds db key now company rows (some t)).1 ≡ rows
  reversed_already key now rows t r own paid found = rw (own, paid, found) refl

  paid_kind : (t : LedgerEntry) → is_remittance t ≡ true → t.kind ≡ remittance
  paid_kind t e = ground (arith, e)

  own_driver :
      (t : LedgerEntry)
      → owns_driver db company t.driver_id ≡ true
      → (d : Driver) × In d db.drivers × (d.driver_id ≡ t.driver_id) × (d.company_id ≡ company)
  own_driver t own =
      let (d, m, q) =
        any-In (λ (d : Driver). d.driver_id == t.driver_id && d.company_id == company) db.drivers
          own in
      (
        d,
        m,
        ==→eq d.driver_id t.driver_id (ground (arith, q)),
        ==→eq d.company_id company (ground (arith, q)),
      )

  -- What a reversal newly reverses is a row of the company with the identifier, which is a remittance
  -- and no reversal, of a driver of whom a row of the company is there; one row is added, which takes
  -- the remittance's amount off the sum of the driver's week; and reversing it again adds nothing.
  pub reverse_remittance_lem :
      (key now : ℕ) (rows : List LedgerEntry)
      → is_new (reverse_remittance bounds db key now company k rows).0 ≡ true
      → let after = (reverse_remittance bounds db key now company k rows).1 in
        (t : LedgerEntry) × (find (is_entry company k) rows ≡ some t)
        × (t.kind ≡ remittance)
        × ((d : Driver) × In d db.drivers × (d.driver_id ≡ t.driver_id) × (d.company_id ≡ company))
        × (after ≡ rows ++ reversal_of key now t ∷ [])
        × ((summarize_ledger (filter (in_ledger company t.driver_id t.week_start) after)).remitted
            ≡ (summarize_ledger (filter (in_ledger company t.driver_id t.week_start) rows)).remitted
              +ℤ (pos 0 -ℤ pos t.amount))
        × ((key' now' : ℕ) → (reverse_remittance bounds db key' now' company k after).1 ≡ after)
  unfolding reverse_remittance
  reverse_remittance_lem key now rows new =
      let (t, found, own, paid, added) =
        reversed_found key now rows (find (is_entry company k) rows) new in
      let entry : LedgerEntry = reversal_of key now t in
      let mine : (t.company_id == company) ≡ true = entry_company company k rows t found in
      let in_week : in_ledger company t.driver_id t.week_start entry ≡ true =
        rw (mine, ==_refl t.week_start, ==_refl t.driver_id) in
      let points : reverses_in company t.remittance_id entry ≡ true =
        rw (mine, ==_refl t.remittance_id) in
      let longer = filter-append (in_ledger company t.driver_id t.week_start) rows entry in_week in
      let (r, there) = found_last (reverses_in company t.remittance_id) rows entry points in
      let again : (key' now' : ℕ)
          → (reverse_remittance bounds db key' now' company k (rows ++ entry ∷ [])).1
            ≡ rows ++ entry ∷ [] =
        λ key' now'.
          ap (λ o. (reverse_found bounds db key' now' company (rows ++ entry ∷ []) o).1)
            (find-append (is_entry company k) rows (entry ∷ []) t found)
          ∙ reversed_already key' now' (rows ++ entry ∷ []) t r own paid there in
      (
        t,
        found,
        paid_kind t paid,
        own_driver t own,
        added,
        ap
              (λ l.
                (summarize_ledger (filter (in_ledger company t.driver_id t.week_start) l)).remitted)
              added
            ∙ ap (λ l. (summarize_ledger l).remitted) longer
            ∙ remitted-append (filter (in_ledger company t.driver_id t.week_start) rows) entry,
        λ key' now'.
            subst (λ l. (reverse_remittance bounds db key' now' company k l).1 ≡ l) (sym added)
              (again key' now'),
      )
