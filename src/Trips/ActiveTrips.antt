-- ===== src/Trips/ActiveTrips.antt =====
-- Active requests of a passenger: what the calls of apps/api/src/modules/trips and
-- apps/api/src/modules/assignment, and the creations of apps/api/src/modules/trips/trips.repository.ts,
-- do to their number.
use voyya_backend.Prelude.{
  nil, cons, ℕ, ◌≤◌, String, ◌≡◌, refl, subst, inl, inr, Bool, true, false, List, [], ◌∷◌, ◌++◌,
  arith, ◌==◌, Bool-cases, any, count, Rowwise, ◌+◌, Option, ==→eq,
}
use voyya_backend.Contracts.TripStatus.{is_terminal_trip_status}
use voyya_backend.Contracts.Machine.{terminal_absorbs, terminal-iff-no_exit}
use voyya_backend.Db.Rows.{TripRequest, Db}
use voyya_backend.Db.Tx.{Outcome, done, thrown}
use voyya_backend.Trips.Repository.{
  create_trip_request, new_trip_request, is_active_of, is_requested_company_rejected,
}
use voyya_backend.Trips.Soundness.{AllSound}
use voyya_backend.Trips.Soundness.Since.{Follows}
use voyya_backend.Trips.History.{Call, step, run}
use voyya_backend.Trips.Soundness.Repository.{create_trip_request_sound}
use voyya_backend.Trips.History.Keeping.{history_sound}

-- What is active was active before, and belongs to the same passenger.
active_before :
    (passenger : ℕ) (x y : TripRequest)
    → Follows x y
    → is_active_of passenger y ≡ true
    → is_active_of passenger x ≡ true
active_before passenger x y f active = elim (Bool-cases (is_terminal_trip_status x.status)) [
  | inl ended ↦
      let same_status = terminal_absorbs x.status y.status ended f.path in
      rw (← same_status, ← f.same_passenger) active
  | inr open' ↦ ground (arith, f.same_passenger, (terminal-iff-no_exit x.status).1, open', active)
]

fewer_active :
    (passenger : ℕ) {xs ys : List TripRequest}
    → Rowwise Follows xs ys
    → count (is_active_of passenger) ys ≤ count (is_active_of passenger) xs
fewer_active passenger nil = omega arith
fewer_active passenger (cons {x = x} {y = y} f rest) =
    elim (Bool-cases (is_active_of passenger y)) [
      | inl e ↦ rw (e, active_before passenger x y f e) (omega (arith, fewer_active passenger rest))
      | inr e ↦ rw e (ground (arith, fewer_active passenger rest))
    ]

-- What writes a trip: a call, with the value that the start-code trigger would draw, or the creation
-- of a request, of this identifier, passenger, municipality, service, instant, fare and company.
pub data Event : Type 0 where
  called : String → Call → Event
  created : ℕ → ℕ → ℕ → ℕ → ℕ → ℕ → Option ℕ → Event

-- The tables after a creation that is committed, or rolled back.
abbrev pub after_creation : Db → Outcome TripRequest → Db
after_creation db (done row db') = db'
after_creation db (thrown e) = db

unfoldable pub happens : (ℕ → ℕ → ℕ) → (ℕ → ℕ → ℕ) → List Event → Db → Db
happens grace window [] db = db
happens grace window (called fresh c ∷ es) db =
    happens grace window es (step grace window db (fresh, c))
happens grace window (created k passenger municipality service now fare requested ∷ es) db =
    happens grace window es (
      after_creation db (
        create_trip_request (new_trip_request k passenger municipality service now fare requested)
          db))

-- Every passenger has one active request at most.
abbrev pub OneActive : Db → Type 0
OneActive db = (passenger : ℕ) → count (is_active_of passenger) db.trips ≤ 1

count-last :
    (p : TripRequest → Bool) (xs : List TripRequest) (y : TripRequest)
    → count p (xs ++ y ∷ []) ≡ count p xs + count p (y ∷ [])
count-last p [] y = ground arith
count-last p (x ∷ xs) y = ground (arith, count-last p xs y)

count-none : (p : TripRequest → Bool) (xs : List TripRequest) → any p xs ≡ false → count p xs ≡ 0
count-none p [] h = refl
count-none p (x ∷ xs) h = ground (arith, h, count-none p xs)

-- One active request of its passenger, or a request that is nobody else's.
one_more :
    (passenger : ℕ) (row : TripRequest) (xs : List TripRequest)
    → any (is_active_of row.passenger_id) xs ≡ false
    → count (is_active_of passenger) xs ≤ 1
    → count (is_active_of passenger) (xs ++ row ∷ []) ≤ 1
one_more passenger row xs none_active few = elim (Bool-cases (row.passenger_id == passenger)) [
  | inl e ↦
      let mine : count (is_active_of passenger) xs ≡ 0 =
        subst (λ n. count (is_active_of n) xs ≡ 0) (==→eq row.passenger_id passenger e)
          (count-none (is_active_of row.passenger_id) xs none_active) in
      rw (count-last (is_active_of passenger) xs row, mine) (ground arith)
  | inr e ↦ rw (count-last (is_active_of passenger) xs row, e) (omega (arith, few))
]

creation-OneActive :
    (row : TripRequest) (db : Db)
    → OneActive db
    → OneActive (after_creation db (create_trip_request row db))
unfolding create_trip_request
creation-OneActive row db h passenger = elim (Bool-cases (is_requested_company_rejected row db)) [
  | inl e ↦ rw e (h passenger)
  | inr free ↦ elim (Bool-cases (any (is_active_of row.passenger_id) db.trips)) [
    | inl e ↦ rw (free, e) (h passenger)
    | inr e ↦ rw (free, e) (one_more passenger row db.trips e (h passenger))
  ]
]

creation-AllSound :
    (k passenger municipality service now fare : ℕ) (requested : Option ℕ) (db : Db)
    → AllSound db
    → (o : Outcome TripRequest)
    → create_trip_request (new_trip_request k passenger municipality service now fare requested) db
      ≡ o
    → AllSound (after_creation db o)
creation-AllSound k passenger municipality service now fare requested db s (done r db') e =
    create_trip_request_sound k passenger municipality service now fare requested db r db' s e
creation-AllSound k passenger municipality service now fare requested db s (thrown x) e = s

-- Where all trips are sound and every passenger has one active request at most, this holds after any
-- calls of trips and assignments and any creations of requests, in any order: by drivers, passengers
-- and the end of a search, for any trips, fares and companies, whether they are refused or not.
pub active_trips_lem :
    (grace window : ℕ → ℕ → ℕ) (es : List Event) (db : Db)
    → AllSound db
    → OneActive db
    → OneActive (happens grace window es db)
unfolding happens run
active_trips_lem grace window [] db s h = h
active_trips_lem grace window (called fresh c ∷ es) db s h =
    let since = history_sound grace window db ((fresh, c) ∷ []) s in
    active_trips_lem grace window es (step grace window db (fresh, c)) since.sound
      (λ passenger. omega (arith, fewer_active passenger since.history, h passenger))
active_trips_lem grace window (created k passenger municipality service now fare requested ∷ es) db
      s h =
    let row = new_trip_request k passenger municipality service now fare requested in
    active_trips_lem grace window es (after_creation db (create_trip_request row db))
      (creation-AllSound k passenger municipality service now fare requested db s
        (create_trip_request row db) refl)
      (creation-OneActive row db h)
