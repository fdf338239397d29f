-- ===== src/Trips/Soundness/Since.antt =====
-- What a transaction may make of the trips: `Since db` holds of the tables that are reached from
-- `db` while every trip stays sound and keeps its place, its identity and its way along the
-- transition table.
use voyya_backend.Prelude.{
  String, ◌≡◌, refl, sym, ◌∙◌, subst, inl, inr, Bool, true, false, ◌&&◌, Bool-cases, find,
  update_where, any, Rowwise, All-update_where, Rowwise-update_where, any-eq_false, Rowwise-refl,
  Rowwise-trans,
}
use mathlib.Core.Option
use voyya_backend.Contracts.TripStatus.{TripStatus}
use voyya_backend.Contracts.Machine.{Reaches, here, next}
use voyya_backend.Db.Rows.{TripRequest, Db}
use voyya_backend.Db.Tx.{Keeps, done, done-injective}
use voyya_backend.Db.StartCodeTrigger.{trigger_raises}
use voyya_backend.Trips.Statements.{after_trigger, update_trips, update_watched_trips}
use voyya_backend.Trips.Soundness.{IsSound, Evolves, AllSound}
use voyya_backend.Trips.Soundness.Rowsteps.{GoodStep}

pub record Follows (old new : TripRequest) : Type 0 where
  pub same_id : new.trip_request_id ≡ old.trip_request_id
  pub same_passenger : new.passenger_id ≡ old.passenger_id
  pub same_fare : new.fare ≡ old.fare
  pub path : Reaches old.status new.status

pub record Since (before : Db) (db : Db) : Type 0 where
  pub sound : AllSound db
  pub history : Rowwise Follows before.trips db.trips

Reaches-trans : {s t u : TripStatus} → Reaches s t → Reaches t u → Reaches s u
Reaches-trans here q = q
Reaches-trans (next e p) q = next e (Reaches-trans p q)

Follows-refl : (t : TripRequest) → Follows t t
Follows-refl t = record { same_id = refl; same_passenger = refl; same_fare = refl; path = here }

Follows-trans : (x y z : TripRequest) → Follows x y → Follows y z → Follows x z
Follows-trans x y z p q = record {
  same_id = q.same_id ∙ p.same_id;
  same_passenger = q.same_passenger ∙ p.same_passenger;
  same_fare = q.same_fare ∙ p.same_fare;
  path = Reaches-trans p.path q.path;
}

Evolves-Follows : (x y : TripRequest) → Evolves x y → Follows x y
Evolves-Follows x y e = record {
  same_id = e.same_id;
  same_passenger = e.same_passenger;
  same_fare = e.same_fare;
  path = elim e.legal [ inl q ↦ subst (Reaches x.status) (sym q) here | inr h ↦ next h here ];
}

pub Since-refl : (db : Db) → AllSound db → Since db db
Since-refl db s = record { sound = s; history = Rowwise-refl Follows-refl db.trips }

module _ (p : TripRequest → Bool) (set : TripRequest → TripRequest) where
  pub update_trips-Since :
      ((t : TripRequest) → p t ≡ true → IsSound t → IsSound (set t) × Evolves t (set t))
      → (before : Db) → Keeps (Since before) (update_trips p set)
  unfolding update_trips
  update_trips-Since k before db a db' s h = subst (Since before) (done-injective h) (record {
    sound = All-update_where IsSound p set db.trips (λ t w i. (k t w i).0) s.sound;
    history = Rowwise-trans Follows-trans s.history (
        Rowwise-update_where IsSound p set db.trips Follows-refl
          (λ t w i. Evolves-Follows t (set t) (k t w i).1) s.sound);
  })

  module _ (fresh : String)
      (k : (t : TripRequest) → p t ≡ true → IsSound t → GoodStep fresh set t) where
    -- The trigger refuses none of the rows.
    pub none_refused :
        (db : Db) → AllSound db → any (λ r. p r && trigger_raises r (set r)) db.trips ≡ false
    none_refused db s = any-eq_false IsSound (λ r. p r && trigger_raises r (set r)) db.trips one s
      where
        one : (t : TripRequest) → IsSound t → (p t && trigger_raises t (set t)) ≡ false
        one t i = elim (Bool-cases (p t)) [ inl e ↦ rw e (k t e i).accepted | inr e ↦ rw e ]

    updated : Db → Db
    updated db = record db { trips = update_where p (after_trigger fresh set) db.trips }

    pub update_watched_trips_done :
        (db : Db)
        → AllSound db
        → update_watched_trips fresh p set db
          ≡ done
              (Option.map (after_trigger fresh set) (find p db.trips))
              (record db { trips = update_where p (after_trigger fresh set) db.trips })
    unfolding update_watched_trips
    update_watched_trips_done db s = rw (none_refused db s)

    updated-Since : (before db : Db) → Since before db → Since before (updated db)
    unfolding updated
    updated-Since before db s = record {
      sound =
          All-update_where IsSound p (after_trigger fresh set) db.trips (λ t w i. (k t w i).sound)
            s.sound;
      history = Rowwise-trans Follows-trans s.history (
          Rowwise-update_where IsSound p (after_trigger fresh set) db.trips Follows-refl
            (λ t w i. Evolves-Follows t _ (k t w i).evolves) s.sound);
    }

    pub update_watched_trips-Since :
        (before : Db) → Keeps (Since before) (update_watched_trips fresh p set)
    unfolding updated
    update_watched_trips-Since before db a db' s h =
        subst (Since before) (done-injective (sym (update_watched_trips_done db s.sound) ∙ h))
          (updated-Since before db s)
