-- ===== src/Assignment/Take/Effect.antt =====
-- What a take of a trip that commits has changed, and what another answer has: takeTrip of
-- apps/api/src/modules/assignment/assignment.service.ts.
use voyya_backend.Prelude.{
  ℕ, String, ◌≡◌, refl, ap, ◌∙◌, ◌⊎◌, inl, inr, Bool, true, false, ◌&&◌, ◌||◌, Option, none, some,
  ◌==◌, is_some, Bool-cases, find, update_where, ==→eq, arith, In, subst, List,
}
use voyya_backend.Trips.Repository.{get_trip_request}
use voyya_backend.Assignment.Take.{
  AcceptOutcome, take_trip, take_offer, with_commission, occupy_driver, accept_assignment, confirm,
  accepted_with, is_past, same, timeout,
}
use voyya_backend.Contracts.AssignmentStatus.{notified, accepted}
use voyya_backend.Db.Rows.{available, Driver, TripRequest, Assignment, CompanyCommission, Db}
use voyya_backend.Db.Tx.{done, >>=-eq-done, done-injective}
use voyya_backend.Trips.Statements.{assign_where}
use voyya_backend.Assignment.Statements.{
  offer_in, answer_set, is_free_driver, take_driver_set, take_driver, mark_assignment_accepted,
  mark_trip_request_assigned, may_take, is_open_commission, get_assignment, get_current_commission,
  is_offer,
}
use voyya_backend.Assignment.Take.Updates.{
  updated_row, take_driver_inv, mark_assignment_accepted_inv, assigned_trips,
  mark_trip_request_assigned_inv,
}

unfoldable pub is_accepted_outcome : AcceptOutcome → Bool
is_accepted_outcome (AcceptOutcome.accepted trip vehicle passenger) = true
is_accepted_outcome _ = false

-- The tables after an offer has been accepted: three updates and nothing else.
abbrev pub taken_db : String → ℕ → ℕ → ℕ → ℕ → ℕ → ℕ → Db → Db
taken_db fresh now k trip driver company pct db = record db {
  trips = assigned_trips fresh now trip company pct db.trips;
  drivers = update_where (is_free_driver driver company) take_driver_set db.drivers;
  assignments = update_where (offer_in notified k company) (answer_set accepted now) db.assignments;
}

abbrev drivers_taken : ℕ → ℕ → Db → Db
drivers_taken driver company db = record db {
  drivers = update_where (is_free_driver driver company) take_driver_set db.drivers;
}

abbrev offer_accepted : ℕ → ℕ → ℕ → Db → Db
offer_accepted now k company db = record db {
  assignments = update_where (offer_in notified k company) (answer_set accepted now) db.assignments;
}

abbrev IsAcceptedFor : Assignment → AcceptOutcome → Type 0
IsAcceptedFor a r = (p : ℕ) × (r ≡ AcceptOutcome.accepted a.trip_request_id a.vehicle_id p)

confirm_inv :
    (a : Assignment) (b : Bool) (db db' : Db) (r : AcceptOutcome)
    → confirm a b db ≡ done r db'
    → IsAcceptedFor a r × (db' ≡ db)
unfolding get_trip_request
confirm_inv a false db db' r h = cc
confirm_inv a true db db' r h =
    let (t, db1, e, f) =
      >>=-eq-done (get_trip_request a.trip_request_id) (accepted_with a) db r db' h in
    go t f (done-injective e)
  where
    go :
        {db1 : Db} (t : Option TripRequest)
        → accepted_with a t db1 ≡ done r db'
        → db ≡ db1
        → IsAcceptedFor a r × (db' ≡ db)
    go none q e = cc
    go (some t) q e = ((t.passenger_id, cc), cc)

accept_assignment_inv :
    (now : ℕ) (a : Assignment) (company : ℕ) (b : Bool) (db db' : Db) (r : AcceptOutcome)
    → accept_assignment now a company b db ≡ done r db'
    → (b ≡ true) × IsAcceptedFor a r × (db' ≡ offer_accepted now a.assignment_id company db)
accept_assignment_inv now a company false db db' r h = cc
accept_assignment_inv now a company true db db' r h =
    let (b, db1, e, f) =
      >>=-eq-done (mark_assignment_accepted now a.assignment_id company) (confirm a) db r db' h in
    let (acc, same_db) = confirm_inv a b db1 db' r f in
    (refl, acc, same_db ∙ mark_assignment_accepted_inv now a.assignment_id company db db1 b e)

-- A row of the driver of the company, available.
abbrev pub IsFree : ℕ → ℕ → Db → Type 0
IsFree driver company db =
    (d : Driver) × In d db.drivers
    × (d.driver_id ≡ driver)
    × (d.company_id ≡ company)
    × (d.status ≡ available)

take_driver-IsFree :
    (driver company : ℕ) (db db' : Db) (b : Bool)
    → take_driver driver company db ≡ done b db'
    → b ≡ true
    → IsFree driver company db
take_driver-IsFree driver company db db' b h e =
    let (d, m, q) =
      updated_row (is_free_driver driver company) take_driver_set db.drivers
        ((take_driver_inv driver company db db' b h).0 ∙ e) in
    (d, m, ground (arith, q), ground (arith, q), ground (arith, q))

occupy_driver_inv :
    (now : ℕ) (a : Assignment) (driver company : ℕ) (b : Bool) (db db' : Db) (r : AcceptOutcome)
    → occupy_driver now a driver company b db ≡ done r db'
    → ((b ≡ false) × (r ≡ AcceptOutcome.already_taken) × (db' ≡ db))
      ⊎ ((b ≡ true)
          × IsAcceptedFor a r
          × IsFree driver company db
          × (db' ≡ offer_accepted now a.assignment_id company (drivers_taken driver company db)))
occupy_driver_inv now a driver company false db db' r h = inl (refl, cc, cc)
occupy_driver_inv now a driver company true db db' r h =
    let (b, db1, e, f) =
      >>=-eq-done (take_driver driver company) (accept_assignment now a company) db r db' h in
    let (taken, acc, edb) = accept_assignment_inv now a company b db1 db' r f in
    inr (
      refl,
      acc,
      take_driver-IsFree driver company db db1 b e taken,
      edb
          ∙ ap (offer_accepted now a.assignment_id company)
              (take_driver_inv driver company db db1 b e).1,
    )

-- What a take has done, given the offer that it answered.
pub record Taken (fresh : String) (now driver company : ℕ) (a : Assignment) (r : AcceptOutcome)
    (db db' : Db) : Type 0 where
  pub accepted_for : (p : ℕ) × (r ≡ AcceptOutcome.accepted a.trip_request_id a.vehicle_id p)
  pub was_pending : is_some (find (assign_where a.trip_request_id company) db.trips) ≡ true
  pub free : IsFree driver company db
  pub stood : may_take now a.assignment_id a.trip_request_id driver company db ≡ true
  pub commission : CompanyCommission
  pub current : find (is_open_commission company) db.commissions ≡ some commission
  pub effect :
      db'
      ≡ taken_db fresh now a.assignment_id a.trip_request_id driver company
          commission.commission_pct db

abbrev NothingDone : AcceptOutcome → Db → Db → Type 0
NothingDone r db db' = (is_accepted_outcome r ≡ false) × (db' ≡ db)

with_commission_inv :
    (fresh : String) (now : ℕ) (a : Assignment) (driver company : ℕ) (c : Option CompanyCommission)
    (db db' : Db) (r : AcceptOutcome)
    → with_commission fresh now a driver company c db ≡ done r db'
    → NothingDone r db db' ⊎ Taken fresh now driver company a r db db'
unfolding is_accepted_outcome
with_commission_inv fresh now a driver company none db db' r h = cc
with_commission_inv fresh now a driver company (some c) db db' r h =
    let (b, db1, e, f) =
      >>=-eq-done
        (mark_trip_request_assigned fresh now a.assignment_id a.trip_request_id driver company)
        (occupy_driver now a driver company) db r db' h in
    elim (mark_trip_request_assigned_inv fresh now a.assignment_id a.trip_request_id driver company
      db db1 b e) [
        | inl (no_b, stays) ↦ elim (occupy_driver_inv now a driver company b db1 db' r f) [
          | inl (x, refused, same_db) ↦ inl (rw refused, same_db ∙ stays)
          | inr (yes_b, acc, free, edb) ↦ cc
        ]
        | inr (row, current, yes_b, pending, edb1, stood) ↦
            elim (occupy_driver_inv now a driver company b db1 db' r f) [
              | inl (x, refused, same_db) ↦ cc
              | inr (x, acc, free, edb) ↦ inr (record {
                accepted_for = acc;
                was_pending = pending;
                free =
                    subst
                      (λ (ds : List Driver).
                        (d : Driver) × In d ds
                        × (d.driver_id ≡ driver)
                        × (d.company_id ≡ company)
                        × (d.status ≡ available))
                      (ap (λ (d : Db). d.drivers) edb1) free;
                stood = stood;
                commission = row;
                current = current;
                effect =
                    edb
                    ∙ ap
                        (λ d.
                          offer_accepted now a.assignment_id company
                            (drivers_taken driver company d))
                        edb1;
              })
            ]
      ]

take_offer_inv :
    (fresh : String) (clock now driver company : ℕ) (o : Option Assignment) (db db' : Db)
    (r : AcceptOutcome)
    → take_offer fresh clock now driver company o db ≡ done r db'
    → NothingDone r db db'
      ⊎ ((a : Assignment) × (o ≡ some a)
          × (a.driver_id ≡ driver)
          × (a.status ≡ notified)
          × Taken fresh now driver company a r db db')
unfolding take_offer is_accepted_outcome get_current_commission
take_offer_inv fresh clock now driver company none db db' r h = inl (cc, cc)
take_offer_inv fresh clock now driver company (some a) db db' r h =
    elim (Bool-cases (a.driver_id == driver)) [
      | inr e ↦ let q : done AcceptOutcome.not_driver db ≡ done r db' = rw e at h in inl (cc, cc)
      | inl e ↦
          elim (Bool-cases
            (same a.status timeout || is_past clock a.expires_at && same a.status notified)) [
              | inl f ↦
                  let q : done AcceptOutcome.expired db ≡ done r db' = rw (e, f) at h in
                  inl (cc, cc)
              | inr f ↦ elim (Bool-cases (same a.status notified)) [
                | inr g ↦
                    let q : done AcceptOutcome.already_taken db ≡ done r db' = rw (e, f, g) at h in
                    inl (cc, cc)
                | inl g ↦
                    let q : with_commission fresh now a driver company
                          (find (is_open_commission company) db.commissions) db
                        ≡ done r db' =
                      rw (e, f, g) at h in
                    elim (with_commission_inv fresh now a driver company
                      (find (is_open_commission company) db.commissions) db db' r q) [
                        | inl n ↦ inl n
                        | inr t ↦ inr (a, refl, ==→eq _ _ e, ground arith, t)
                      ]
              ]
            ]
    ]

-- Whenever a take commits: either its answer is not an acceptance and no table has changed, or
-- the offer is the driver's own and still notified, the answer is the acceptance of the offer's
-- trip, the driver had a row of the company and was available, and the tables differ by three
-- updates: the trip goes to the company at its open commission, the driver is on a trip, the offer
-- is accepted.
pub take_trip_effect :
    (fresh : String) (clock now k driver company : ℕ) (db db' : Db) (r : AcceptOutcome)
    → take_trip fresh clock now k driver company db ≡ done r db'
    → ((is_accepted_outcome r ≡ false) × (db' ≡ db))
      ⊎ ((a : Assignment) × (find (is_offer k company) db.assignments ≡ some a)
          × (a.driver_id ≡ driver)
          × (a.status ≡ notified)
          × Taken fresh now driver company a r db db')
unfolding take_trip get_assignment
take_trip_effect fresh clock now k driver company db db' r h =
    take_offer_inv fresh clock now driver company (find (is_offer k company) db.assignments) db db'
      r h
