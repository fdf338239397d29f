-- ===== src/Trips/Single.antt =====
-- One trip under its primary key: what a statement that names the key does to it.
use voyya_backend.Prelude.{
  ℕ, ◌≤◌, String, ◌≡◌, ap, ◌∙◌, Bool, true, false, ◌&&◌, Option, none, some, arith, find,
  update_where, count, All-update_where, All-find, find-update_where, keep, find-and,
  count-update_where, update_where-none,
}
use voyya_backend.Db.Rows.{TripRequest, Db}
use voyya_backend.Db.Tx.{Tx, done}
use voyya_backend.Db.StartCodeTrigger.{trigger_row}
use voyya_backend.Trips.Statements.{after_trigger, update_watched_trips, has_trip_id}
use voyya_backend.Trips.Soundness.{IsSound, AllSound}
use voyya_backend.Trips.Soundness.Rowsteps.{GoodStep}
use voyya_backend.Trips.Soundness.Since.{update_watched_trips_done}

-- The trip under the key `k` is `t`, and the primary key holds.
pub record Holds (k : ℕ) (t : TripRequest) (db : Db) : Type 0 where
  pub found : find (has_trip_id k) db.trips ≡ some t
  pub unique : count (has_trip_id k) db.trips ≤ 1
  pub sound : AllSound db

module _ {k : ℕ} {t : TripRequest} {db : Db} (h : Holds k t db) where
  pub Holds-IsSound : IsSound t
  Holds-IsSound = (All-find IsSound (has_trip_id k) db.trips t h.sound h.found).0

  pub Holds-id : has_trip_id k t ≡ true
  Holds-id = (All-find IsSound (has_trip_id k) db.trips t h.sound h.found).1

  found_where :
      (c : TripRequest → Bool) → find (λ r. has_trip_id k r && c r) db.trips ≡ keep c (some t)
  found_where c = find-and (has_trip_id k) c db.trips h.unique ∙ ap (keep c) h.found

  module _ (fresh : String) (c : TripRequest → Bool) (set : TripRequest → TripRequest)
      (good : (r : TripRequest)
        → (has_trip_id k r && c r) ≡ true
        → IsSound r
        → GoodStep fresh set r)
      (keeps_id : (r : TripRequest) → (set r).trip_request_id ≡ r.trip_request_id) where
    abbrev statement : Tx (Option TripRequest)
    statement = update_watched_trips fresh (λ r. has_trip_id k r && c r) set

    abbrev pub rewritten : Db
    rewritten = record db {
      trips = update_where (λ r. has_trip_id k r && c r) (after_trigger fresh set) db.trips;
    }

    trigger_keeps_id :
        (r : TripRequest) → (after_trigger fresh set r).trip_request_id ≡ r.trip_request_id
    unfolding trigger_row
    trigger_keeps_id r = ground (arith, keeps_id r)

    key_stays : (r : TripRequest) → has_trip_id k (after_trigger fresh set r) ≡ has_trip_id k r
    key_stays r = rw (trigger_keeps_id r)

    -- A trip that meets the condition is rewritten, and nothing else.
    pub statement_applies :
        c t ≡ true
        → (statement db ≡ done (some (after_trigger fresh set t)) rewritten)
          × Holds k (after_trigger fresh set t) rewritten
    statement_applies e = (
      rw (update_watched_trips_done _ set fresh good db h.sound, found_where c, e),
      record {
        found = rw (
          find-update_where (has_trip_id k) (λ r. has_trip_id k r && c r) (after_trigger fresh set)
              db.trips key_stays,
          h.found,
          Holds-id,
          e,
        );
        unique =
            rw
              (count-update_where (has_trip_id k) (λ r. has_trip_id k r && c r)
                (after_trigger fresh set) db.trips key_stays)
              h.unique;
        sound =
            All-update_where IsSound (λ r. has_trip_id k r && c r) (after_trigger fresh set)
              db.trips (λ r w s. (good r w s).sound) h.sound;
      },
    )

    -- A trip that does not meet it stays, and so do all tables.
    pub statement_misses : c t ≡ false → statement db ≡ done none db
    statement_misses e =
        let missed : find (λ r. has_trip_id k r && c r) db.trips ≡ none = rw (found_where c, e) in
        rw (
          update_watched_trips_done _ set fresh good db h.sound,
          missed,
          update_where-none _ (after_trigger fresh set) db.trips missed,
        )
