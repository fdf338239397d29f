-- ===== src/Assignment/Soundness/Keeping.antt =====
-- The trips through the statements of apps/api/src/modules/assignment on the other tables.
use voyya_backend.Prelude.{◌≡◌, sym, ap, inl, inr, Bool, ◌||◌, Bool-cases, update_where}
use voyya_backend.Db.Rows.{Assignment, Driver, Db}
use voyya_backend.Contracts.AssignmentStatus.{accepted, completed}
use voyya_backend.Db.Tx.{Keeps, done-injective}
use voyya_backend.Trips.Soundness.Since.{Since}
use voyya_backend.Assignment.Statements.{update_assignments, update_drivers, clashes}

module _ (before : Db) where
  pub same_trips-Since : (db db' : Db) → db'.trips ≡ db.trips → Since before db → Since before db'
  same_trips-Since db db' e s = record { sound = rw e s.sound; history = rw e s.history }

  pub update_drivers-Since :
      (p : Driver → Bool) (set : Driver → Driver) → Keeps (Since before) (update_drivers p set)
  unfolding update_drivers
  update_drivers-Since p set db a db' s h =
      same_trips-Since db db' (ap (λ (d : Db). d.trips) (sym (done-injective h))) s

  pub update_assignments-Since :
      (p : Assignment → Bool) (set : Assignment → Assignment)
      → Keeps (Since before) (update_assignments p set)
  unfolding update_assignments
  update_assignments-Since p set db a db' s h =
      let rows = update_where p set db.assignments in
      elim (Bool-cases (clashes accepted rows || clashes completed rows)) [
        | inl e ↦ cc (rw e at h)
        | inr e ↦
            same_trips-Since db db' (ap (λ (d : Db). d.trips) (sym (done-injective (rw e at h)))) s
      ]
