-- ===== src/Tenancy/DispatchCompanies.antt =====
-- apps/api/src/modules/tenancy/dispatch-companies.resolver.ts and open-commission.filter.ts. A
-- service type is a number.
use voyya_backend.Prelude.{
  ℕ, ◌≤◌, ◌≡◌, refl, Bool, true, not, ◌&&◌, ◌||◌, Option, none, some, List, [], ◌∷◌, arith, leb,
  ◌==◌, if◌then◌else◌, filter, any, In, any-In, sym, ◌∙◌, subst, ◌≢◌, ◌↔◌, inl, inr, is_none,
  Bool-cases, ==→eq, ==_refl, In-any,
}
use voyya_backend.Db.Rows.{Company, CompanyCommission, Db}
use voyya_backend.Assignment.Statements.{is_open_commission}

pub record DispatchCompaniesOptions : Type 0 where
  pub service_type : Option ℕ
  pub requested_company_id : Option ℕ
  pub exclude_company_id : Option ℕ

-- A condition that only an option that is given puts.
abbrev pub when_given : Option ℕ → (ℕ → Bool) → Bool
when_given none p = true
when_given (some v) p = p v

abbrev pub may_dispatch : Db → ℕ → DispatchCompaniesOptions → Company → Bool
may_dispatch db municipality options c =
    c.municipality_id == municipality
    && c.active
    && any (is_open_commission c.company_id) db.commissions
    && when_given options.service_type (λ s. any (λ has. has == s) c.service_types)
    && when_given options.requested_company_id (λ k. c.company_id == k)
    && when_given options.exclude_company_id (λ k. not (c.company_id == k))

-- `orderBy: { companyId: 'asc' }`
abbrev insert_id : ℕ → List ℕ → List ℕ
insert_id k [] = k ∷ []
insert_id k (x ∷ xs) = let rest = insert_id k xs in if leb k x then k ∷ x ∷ xs else x ∷ rest

abbrev in_order : List Company → List ℕ
in_order [] = []
in_order (c ∷ cs) = insert_id c.company_id (in_order cs)

-- resolve
unfoldable pub resolve : ℕ → DispatchCompaniesOptions → Db → List ℕ
resolve municipality options db =
    in_order (filter (may_dispatch db municipality options) db.companies)

abbrev pub has_id : ℕ → List ℕ → Bool
has_id k = any (λ x. x == k)

has_id-insert_id : (k v : ℕ) (xs : List ℕ) → has_id k (insert_id v xs) ≡ (v == k || has_id k xs)
has_id-insert_id k v [] = ground arith
has_id-insert_id k v (x ∷ xs) = ground (arith, has_id-insert_id k v xs)

listed :
    (k : ℕ) (p : Company → Bool) (cs : List Company)
    → has_id k (in_order (filter p cs)) ≡ any (λ (c : Company). p c && c.company_id == k) cs
listed k p [] = refl
listed k p (c ∷ cs) =
    ground (arith, listed k p cs, has_id-insert_id k c.company_id (in_order (filter p cs)))

abbrev pub IsAscending : List ℕ → Type 0
IsAscending [] = Unit
IsAscending (x ∷ []) = Unit
IsAscending (x ∷ y ∷ ys) = (x ≤ y) × IsAscending (y ∷ ys)

insert_id-IsAscending : (k : ℕ) (xs : List ℕ) → IsAscending xs → IsAscending (insert_id k xs)
insert_id-IsAscending k [] h = tt
insert_id-IsAscending k (x ∷ []) h = ground arith
insert_id-IsAscending k (x ∷ y ∷ ys) h = ground (arith, insert_id-IsAscending k (y ∷ ys) h.1)

in_order-IsAscending : (cs : List Company) → IsAscending (in_order cs)
in_order-IsAscending [] = tt
in_order-IsAscending (c ∷ cs) =
    insert_id-IsAscending c.company_id (in_order cs) (in_order-IsAscending cs)

given : (o : Option ℕ) (p : ℕ → Bool) → when_given o p ≡ true → (v : ℕ) → o ≡ some v → p v ≡ true
given none p h v e = cc
given (some w) p h v e = let q : w ≡ v = cc in subst (λ z. p z ≡ true) q h

not_given :
    (o : Option ℕ) (p : ℕ → Bool) → ((v : ℕ) → o ≡ some v → p v ≡ true) → when_given o p ≡ true
not_given none p h = refl
not_given (some w) p h = h w refl

no_end : (o : Option ℕ) → is_none o ≡ true → o ≡ none
no_end none h = refl
no_end (some v) h = cc

&&-true : {a b : Bool} → a ≡ true → b ≡ true → (a && b) ≡ true
&&-true p q = rw (p, q) refl

not_equal : (k j : ℕ) → k ≢ j → not (k == j) ≡ true
not_equal k j h = elim (Bool-cases (k == j)) [ inl e ↦ absurd (h (==→eq k j e)) | inr e ↦ rw e ]

-- The conditions on a company, one by one.
abbrev Conditions : Db → ℕ → DispatchCompaniesOptions → Company → Type 0
Conditions db municipality options c =
    ((c.municipality_id == municipality) ≡ true)
    × (c.active ≡ true)
    × (any (is_open_commission c.company_id) db.commissions ≡ true)
    × (when_given options.service_type (λ s. any (λ has. has == s) c.service_types) ≡ true)
    × (when_given options.requested_company_id (λ k. c.company_id == k) ≡ true)
    × (when_given options.exclude_company_id (λ k. not (c.company_id == k)) ≡ true)

may_dispatch-left :
    (db : Db) (municipality : ℕ) (options : DispatchCompaniesOptions) (c : Company)
    → may_dispatch db municipality options c ≡ true
    → Conditions db municipality options c
may_dispatch-left db municipality options c h = ground (arith, h)

may_dispatch-right :
    (db : Db) (municipality : ℕ) (options : DispatchCompaniesOptions) (c : Company)
    → Conditions db municipality options c
    → may_dispatch db municipality options c ≡ true
may_dispatch-right db municipality options c (a, b, d, e, f, g) = rw (a, b, d, e, f, g) refl

-- What a listed company is, read off its row, its services and the commissions.
listed_row :
    (municipality : ℕ) (options : DispatchCompaniesOptions) (db : Db) (k : ℕ)
    → has_id k (resolve municipality options db) ≡ true
    → (c : Company) × In c db.companies
      × (may_dispatch db municipality options c ≡ true)
      × (c.company_id ≡ k)
unfolding resolve
listed_row municipality options db k h =
    let (c, m, q) =
      any-In (λ (c : Company). may_dispatch db municipality options c && c.company_id == k)
        db.companies (sym (listed k (may_dispatch db municipality options) db.companies) ∙ h) in
    (c, m, ground (arith, q), ==→eq c.company_id k (ground (arith, q)))

-- A company is listed for a request exactly if a row of it is active in the municipality, a
-- commission row of it has no end, its services have the asked one, it is the requested company and
-- is not the excluded one, where these are given; and the list is in ascending order.
pub resolve_lem :
    (municipality : ℕ) (options : DispatchCompaniesOptions) (db : Db) (k : ℕ)
    → ((has_id k (resolve municipality options db) ≡ true) ↔ (
        (c : Company) × In c db.companies
        × (c.company_id ≡ k)
        × (c.municipality_id ≡ municipality)
        × (c.active ≡ true)
        × ((row : CompanyCommission) × In row db.commissions
            × (row.company_id ≡ k)
            × (row.valid_to ≡ none))
        × ((s : ℕ) → options.service_type ≡ some s → In s c.service_types)
        × ((j : ℕ) → options.requested_company_id ≡ some j → k ≡ j)
        × ((j : ℕ) → options.exclude_company_id ≡ some j → k ≢ j)))
      × IsAscending (resolve municipality options db)
unfolding resolve
resolve_lem municipality options db k = (
  (
    λ h.
        let (c, m, q, own) = listed_row municipality options db k h in
        let here = may_dispatch-left db municipality options c q in
        let (row, n, w) = any-In (is_open_commission c.company_id) db.commissions here.2 in
        (
          c,
          m,
          own,
          ==→eq c.municipality_id municipality here.0,
          here.1,
          (
            row,
            n,
            ==→eq row.company_id c.company_id (ground (arith, w)) ∙ own,
            no_end row.valid_to (ground (arith, w)),
          ),
          λ s e.
              let (x, l, y) =
                any-In (λ x. x == s) c.service_types (given options.service_type _ here.3 s e) in
              subst (λ z. In z c.service_types) (==→eq x s y) l,
          λ j e. sym own ∙ ==→eq c.company_id j (given options.requested_company_id _ here.4 j e),
          λ j e same'.
              let other = given options.exclude_company_id _ here.5 j e in
              absurd (ground (arith, own, same', other)),
        ),
    λ (c, m, own, town, active, (row, n, paid, open'), offers, asked, others).
        listed k (may_dispatch db municipality options) db.companies
        ∙ In-any _ db.companies c m (
            &&-true
              (may_dispatch-right db municipality options c (
                rw town (==_refl municipality),
                active,
                In-any (is_open_commission c.company_id) db.commissions row n
                    (rw (paid, open', own, ==_refl k) refl),
                not_given options.service_type _
                    (λ s e. In-any (λ x. x == s) c.service_types s (offers s e) (==_refl s)),
                not_given options.requested_company_id _ (λ j e. rw (own, asked j e) (==_refl j)),
                not_given options.exclude_company_id _ (λ j e. rw own (not_equal k j (others j e))),
              ))
              (rw own (==_refl k))),
  ),
  in_order-IsAscending (filter (may_dispatch db municipality options) db.companies),
)
