-- ===== src/Assignment/Dispatch/Rounds.antt =====
-- The drivers whom the rounds of a search may ask: tryNext of
-- apps/api/src/modules/assignment/assignment.service.ts.
use voyya_backend.Prelude.{
  ℕ, ◌+◌, ◌≤◌, ◌<◌, ◌≡◌, sym, subst, inl, inr, true, false, not, List, [], ◌∷◌, arith, ◌==◌,
  if◌then◌else◌, Bool-cases, ==→eq, count, All,
}
use voyya_backend.Db.Rows.{Driver, Db}
use voyya_backend.Tenancy.DispatchCompanies.{has_id}
use voyya_backend.Assignment.Dispatch.{Round, ChainContext}

-- The drivers of the tables are among `ids`.
abbrev pub DriversIn : List ℕ → Db → Type 0
DriversIn ids db = All (λ (d : Driver). has_id d.driver_id ids ≡ true) db.drivers

-- No request of a round brings a driver in who is not among `ids`.
pub record IsClosed (ids : List ℕ) (rounds : ℕ → Round) : Type 0 where
  pub resolving : (n : ℕ) (db : Db) → DriversIn ids db → DriversIn ids ((rounds n).resolving db)
  pub searching :
      (n company : ℕ) (db : Db) → DriversIn ids db → DriversIn ids ((rounds n).searching company db)
  pub offering : (n : ℕ) (db : Db) → DriversIn ids db → DriversIn ids ((rounds n).offering db)

-- The rounds that a search may still take: the drivers not asked, and the wider radius.
abbrev pub rounds_left : List ℕ → ChainContext → ℕ
rounds_left ids ctx =
    count (λ k. not (has_id k ctx.attempted)) ids + (if ctx.expanded then 0 else 1)

fewer_or_same :
    (k : ℕ) (attempted ids : List ℕ)
    → count (λ x. not (has_id x (k ∷ attempted))) ids ≤ count (λ x. not (has_id x attempted)) ids
fewer_or_same k attempted [] = omega arith
fewer_or_same k attempted (x ∷ xs) = ground (arith, fewer_or_same k attempted xs)

pub fewer :
    (k : ℕ) (attempted ids : List ℕ)
    → has_id k ids ≡ true
    → has_id k attempted ≡ false
    → count (λ x. not (has_id x (k ∷ attempted))) ids < count (λ x. not (has_id x attempted)) ids
fewer k attempted [] m e = cc
fewer k attempted (x ∷ xs) m e = elim (Bool-cases (x == k)) [
  | inl q ↦
      let same : x ≡ k = ==→eq x k q in
      let out : has_id x attempted ≡ false = subst (λ z. has_id z attempted ≡ false) (sym same) e in
      ground (arith, fewer_or_same k attempted xs)
  | inr q ↦ let rest = fewer k attempted xs (rw q at m) e in ground (arith, rest)
]
