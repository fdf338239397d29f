-- ===== src/Db/Tx.antt =====
-- apps/api/src/infrastructure/prisma/prisma.service.ts and apps/api/src/modules: transactions. A
-- transaction that throws leaves the tables as they were.
use voyya_backend.Prelude.{Result, ok, err, ◌≡◌, refl, subst, ap}
use voyya_backend.Db.Rows.{Db}

-- What ends a transaction early: an error of the code, or one that the database raises.
pub data DbError : Type 0 where
  check_violation unique_violation deadlock other_error requested_company_rejected : DbError
  trip_request_already_taken company_commission_missing : DbError
  trip_already_closed not_the_driver trip_not_found location_consent_required : DbError

pub data Outcome (A : Type 0) : Type 0 where
  done : A → Db → Outcome A
  thrown : DbError → Outcome A

abbrev pub Tx : Type 0 → Type 0
Tx A = Db → Outcome A

infixl 5 ◌>>=◌ ◌>>◌
abbrev pub ◌>>=◌ : {A B : Type 0} → Tx A → (A → Tx B) → Tx B
◌>>=◌ m f db = elim (m db) [ done a db' ↦ f a db' | thrown e ↦ thrown e ]

abbrev pub ◌>>◌ : {A : Type 0} → Tx (Unit {0}) → Tx A → Tx A
◌>>◌ m k = ◌>>=◌ m (λ _. k)

abbrev pub pure : {A : Type 0} → A → Tx A
pure a db = done a db

abbrev pub throw : {A : Type 0} → DbError → Tx A
throw e db = thrown e

-- `runInTenant` and `$transaction`: commit, or roll back and pass the error on.
unfoldable pub run_in_tenant : {A : Type 0} → Tx A → Db → Result DbError A × Db
run_in_tenant m db = elim (m db) [ done a db' ↦ (ok a, db') | thrown e ↦ (err e, db) ]

-- A transaction that ends well is committed.
pub run_in_tenant-done :
    {A : Type 0} (m : Tx A) (db : Db) {a : A} {db' : Db}
    → m db ≡ done a db'
    → run_in_tenant m db ≡ (ok a, db')
unfolding run_in_tenant
run_in_tenant-done {A} m db e = ap go e
  where
    go : Outcome A → Result DbError A × Db
    go r = elim r [ done a db' ↦ (ok a, db') | thrown x ↦ (err x, db) ]

-- `m` keeps the predicate `P` of the tables, whatever it returns.
abbrev pub Keeps : {A : Type 0} → (Db → Type 0) → Tx A → Type 0
Keeps {A} P m = (db : Db) (a : A) (db' : Db) → P db → m db ≡ done a db' → P db'

-- A bind that ends well has two parts that end well.
pub >>=-eq-done :
    {A B : Type 0} (m : Tx A) (f : A → Tx B) (db : Db) (b : B) (db'' : Db)
    → ◌>>=◌ m f db ≡ done b db''
    → (a : A) × (db' : Db) × (m db ≡ done a db') × (f a db' ≡ done b db'')
>>=-eq-done {A} {B} m f db b db'' = go (m db)
  where
    go :
        (r : Outcome A)
        → elim r as (λ _. Outcome B) [ done a db' ↦ f a db' | thrown e ↦ thrown e ] ≡ done b db''
        → (a : A) × (db' : Db) × (r ≡ done a db') × (f a db' ≡ done b db'')
    go (done a db') h = (a, db', refl, h)
    go (thrown e) h = cc

pub >>=-Keeps :
    {A B : Type 0} (P : Db → Type 0) (m : Tx A) (f : A → Tx B)
    → Keeps P m
    → ((a : A) → Keeps P (f a))
    → Keeps P (◌>>=◌ m f)
>>=-Keeps P m f km kf db b db'' p h =
    let (a, db', e, e') = >>=-eq-done m f db b db'' h in kf a db' b db'' (km db a db' p e) e'

pub pure-Keeps : {A : Type 0} (P : Db → Type 0) (a : A) → Keeps P (pure a)
pure-Keeps P a db b db' p h = subst P (cc) p

pub throw-Keeps : {A : Type 0} (P : Db → Type 0) (e : DbError) → Keeps {A = A} P (throw e)
throw-Keeps P e db b db' p h = cc

-- A transaction that keeps `P` keeps it when it is rolled back, too.
pub run_in_tenant-keeps :
    {A : Type 0} (P : Db → Type 0) (m : Tx A)
    → Keeps P m
    → (db : Db) → P db
    → P (run_in_tenant m db).1
unfolding run_in_tenant
run_in_tenant-keeps {A} P m k db p = go (m db) refl
  where
    go :
        (r : Outcome A)
        → m db ≡ r
        → P
            (elim r as (λ _. Result DbError A × Db) [
              | done a db' ↦ (ok a, db')
              | thrown e ↦ (err e, db)
            ]).1
    go (done a db') e = k db a db' p e
    go (thrown x) e = p

-- The tables that a transaction ends with.
pub done-injective : {A : Type 0} {a b : A} {x y : Db} → done a x ≡ done b y → x ≡ y
done-injective h = cc

-- A bind whose first part ends well goes on with the rest.
pub after_done :
    {A B : Type 0} (m : Tx A) (f : A → Tx B) {db : Db} {a : A} {db' : Db}
    → m db ≡ done a db'
    → ◌>>=◌ m f db ≡ f a db'
after_done {A} {B} m f e = ap go e
  where
    go : Outcome A → Outcome B
    go r = elim r [ done a db' ↦ f a db' | thrown e ↦ thrown e ]
