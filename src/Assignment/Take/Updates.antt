-- ===== src/Assignment/Take/Updates.antt =====
-- What the updates of a take have done when they have been made: the statements of
-- apps/api/src/modules/assignment/assignment.repository.ts, read backwards.
use voyya_backend.Prelude.{
  ℕ, String, ◌≡◌, refl, sym, ap, ◌∙◌, ◌⊎◌, inl, inr, Bool, true, false, ◌&&◌, ◌||◌, Option, none,
  some, List, map, ◌==◌, is_some, Bool-cases, Option-cases, length, find, filter, update_where, any,
  update_where-none, In, [], ◌∷◌,
}
use mathlib.Core.Option
use voyya_backend.Contracts.AssignmentStatus.{notified, accepted, completed}
use voyya_backend.Db.Rows.{Driver, TripRequest, Assignment, CompanyCommission, Db}
use voyya_backend.Db.Tx.{done, pure, >>=-eq-done, done-injective}
use voyya_backend.Db.StartCodeTrigger.{trigger_raises}
use voyya_backend.Trips.Statements.{after_trigger, update_watched_trips, assign_where, assign_set}
use voyya_backend.Assignment.Statements.{
  offer_in, answer_set, is_free_driver, take_driver_set, take_driver, mark_assignment_accepted,
  mark_trip_request_assigned, assign_at, may_take, is_open_commission, update_assignments,
  update_drivers, clashes,
}

-- What an update of the trips has done if it has not been refused.
pub update_watched_trips_inv :
    (fresh : String) (p : TripRequest → Bool) (set : TripRequest → TripRequest) (db db' : Db)
    (r : Option TripRequest)
    → update_watched_trips fresh p set db ≡ done r db'
    → (r ≡ Option.map (after_trigger fresh set) (find p db.trips))
      × (db' ≡ record db { trips = update_where p (after_trigger fresh set) db.trips })
unfolding update_watched_trips
update_watched_trips_inv fresh p set db db' r h =
    elim (Bool-cases (any (λ r. p r && trigger_raises r (set r)) db.trips)) [
      | inl e ↦ cc (rw e at h)
      | inr e ↦
          let q : done (Option.map (after_trigger fresh set) (find p db.trips))
                (record db { trips = update_where p (after_trigger fresh set) db.trips })
              ≡ done r db' =
            rw e at h in
          (cc, cc)
    ]

pub update_assignments_inv :
    (p : Assignment → Bool) (set : Assignment → Assignment) (db db' : Db) (r : List Assignment)
    → update_assignments p set db ≡ done r db'
    → (r ≡ map set (filter p db.assignments))
      × (db' ≡ record db { assignments = update_where p set db.assignments })
unfolding update_assignments
update_assignments_inv p set db db' r h =
    let rows = update_where p set db.assignments in
    elim (Bool-cases (clashes accepted rows || clashes completed rows)) [
      | inl e ↦ cc (rw e at h)
      | inr e ↦
          let q : done (map set (filter p db.assignments)) (record db { assignments = rows })
              ≡ done r db' =
            rw e at h in
          (cc, cc)
    ]

pub take_driver_inv :
    (driver company : ℕ) (db db' : Db) (b : Bool)
    → take_driver driver company db ≡ done b db'
    → ((length (map take_driver_set (filter (is_free_driver driver company) db.drivers)) == 1) ≡ b)
      × (db' ≡ record db {
        drivers = update_where (is_free_driver driver company) take_driver_set db.drivers;
      })
unfolding take_driver update_drivers
take_driver_inv driver company db db' b h =
    let rows = map take_driver_set (filter (is_free_driver driver company) db.drivers) in
    let drivers = update_where (is_free_driver driver company) take_driver_set db.drivers in
    let q : done (length rows == 1) (record db { drivers = drivers }) ≡ done b db' = h in
    (cc, sym (done-injective h))

-- The one row that is updated was a row of a free driver.
pub updated_row :
    (p : Driver → Bool) (set : Driver → Driver) (rows : List Driver)
    → (length (map set (filter p rows)) == 1) ≡ true
    → (d : Driver) × In d rows × (p d ≡ true)
updated_row p set [] h = cc
updated_row p set (x ∷ xs) h = elim (Bool-cases (p x)) [
  | inl e ↦ (x, inl refl, e)
  | inr e ↦ let (d, m, q) = updated_row p set xs (rw e at h) in (d, inr m, q)
]

pub mark_assignment_accepted_inv :
    (now k company : ℕ) (db db' : Db) (b : Bool)
    → mark_assignment_accepted now k company db ≡ done b db'
    → db' ≡ record db {
      assignments =
          update_where (offer_in notified k company) (answer_set accepted now) db.assignments;
    }
unfolding mark_assignment_accepted
mark_assignment_accepted_inv now k company db db' b h =
    let (rows, db1, e, f) =
      >>=-eq-done (update_assignments (offer_in notified k company) (answer_set accepted now))
        (λ found. pure (length found == 1)) db b db' h in
    let q : done (length rows == 1) db1 ≡ done b db' = f in
    sym (done-injective q)
    ∙ (update_assignments_inv (offer_in notified k company) (answer_set accepted now) db db1 rows
        e).1

-- The trips after a company has taken one.
abbrev pub assigned_trips : String → ℕ → ℕ → ℕ → ℕ → List TripRequest → List TripRequest
assigned_trips fresh now trip company pct =
    update_where (assign_where trip company) (after_trigger fresh (assign_set now company pct))

pub assign_at_inv :
    (fresh : String) (now trip company : ℕ) (c : Option CompanyCommission) (db db' : Db) (b : Bool)
    → assign_at fresh now trip company c db ≡ done b db'
    → ((b ≡ false) × (db' ≡ db))
      ⊎ ((row : CompanyCommission) × (c ≡ some row)
          × (b ≡ true)
          × (is_some (find (assign_where trip company) db.trips) ≡ true)
          × (db' ≡ record db {
            trips = assigned_trips fresh now trip company row.commission_pct db.trips;
          }))
assign_at_inv fresh now trip company none db db' b h = inl (cc, cc)
assign_at_inv fresh now trip company (some row) db db' b h =
    let set = after_trigger fresh (assign_set now company row.commission_pct) in
    let (r, db1, e, f) =
      >>=-eq-done
        (update_watched_trips fresh (assign_where trip company)
          (assign_set now company row.commission_pct))
        (λ found. pure (is_some found)) db b db' h in
    let q : done (is_some r) db1 ≡ done b db' = f in
    let (er, edb) =
      update_watched_trips_inv fresh (assign_where trip company)
        (assign_set now company row.commission_pct) db db1 r e in
    let eb : is_some r ≡ b = cc in
    elim (Option-cases (find (assign_where trip company) db.trips)) [
      | inl none_found ↦
          let stays : update_where (assign_where trip company) set db.trips ≡ db.trips =
            update_where-none _ set db.trips none_found in
          inl (
            sym eb ∙ ap is_some er ∙ (rw none_found),
            sym (done-injective q) ∙ edb ∙ ap (λ ts. record db { trips = ts }) stays,
          )
      | inr (t, found) ↦
          inr
            (row, refl, sym eb ∙ ap is_some er ∙ (rw found), rw found, sym (done-injective q) ∙ edb)
    ]

pub mark_trip_request_assigned_inv :
    (fresh : String) (now k trip driver company : ℕ) (db db' : Db) (b : Bool)
    → mark_trip_request_assigned fresh now k trip driver company db ≡ done b db'
    → ((b ≡ false) × (db' ≡ db))
      ⊎ ((row : CompanyCommission) × (find (is_open_commission company) db.commissions ≡ some row)
          × (b ≡ true)
          × (is_some (find (assign_where trip company) db.trips) ≡ true)
          × (db' ≡ record db {
            trips = assigned_trips fresh now trip company row.commission_pct db.trips;
          })
          × (may_take now k trip driver company db ≡ true))
unfolding mark_trip_request_assigned
mark_trip_request_assigned_inv fresh now k trip driver company db db' b h =
    elim (Bool-cases (may_take now k trip driver company db)) [
      | inr e ↦ let q : done false db ≡ done b db' = rw e at h in inl (cc, cc)
      | inl e ↦
          elim (assign_at_inv fresh now trip company
            (find (is_open_commission company) db.commissions) db db' b (rw e at h)) [
              | inl q ↦ inl q
              | inr (row, x, y, z, w) ↦ inr (row, x, y, z, w, e)
            ]
    ]
