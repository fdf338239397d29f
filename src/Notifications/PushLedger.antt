-- ===== src/Notifications/PushLedger.antt =====
-- apps/api/src/modules/notifications/passenger/passenger-push.ledger.ts. The map is the list of its
-- entries in the order of insertion, which is the order of its iterator; the chain of promises that
-- sends the pushes of a trip one after another is not modelled.
use voyya_backend.Prelude.{
  ℕ, ◌+◌, Bool, true, false, not, Option, none, some, List, [], ◌∷◌, ◌++◌, ltb, leb, ◌==◌,
  if◌then◌else◌, length, find, filter, update_where,
}

pub record TripEntry : Type 0 where
  pub trip_request_id : ℕ
  pub created_at : ℕ
  pub sent : ℕ
  pub driver_cancelled : Bool

abbrev pub max_entries : ℕ
max_entries = 5000

abbrev pub max_age_ms : ℕ
max_age_ms = 21600000

-- isExpired
abbrev pub is_expired : ℕ → TripEntry → Bool
is_expired now entry = ltb (entry.created_at + max_age_ms) now

abbrev pub has_key : ℕ → TripEntry → Bool
has_key k entry = entry.trip_request_id == k

-- `entries.delete(k)`
unfoldable pub forget : ℕ → List TripEntry → List TripEntry
forget k = filter (λ e. not (has_key k e))

abbrev pub alive_or_not :
    ℕ → ℕ → List TripEntry → Option TripEntry → Option TripEntry × List TripEntry
alive_or_not now k entries none = (none, entries)
alive_or_not now k entries (some entry) =
    if is_expired now entry then (none, forget k entries) else (some entry, entries)

-- find
unfoldable pub find_entry : ℕ → ℕ → List TripEntry → Option TripEntry × List TripEntry
unfolding forget
find_entry now k entries = alive_or_not now k entries (find (has_key k) entries)

-- The two loops of makeRoom.
unfoldable pub drop_expired : ℕ → List TripEntry → List TripEntry
drop_expired now [] = []
drop_expired now (e ∷ es) =
    let rest = drop_expired now es in if is_expired now e then rest else e ∷ es

unfoldable pub evict : List TripEntry → List TripEntry
evict [] = []
evict (e ∷ es) = let rest = evict es in if leb max_entries (length (e ∷ es)) then rest else e ∷ es

unfoldable pub make_room : ℕ → List TripEntry → List TripEntry
unfolding drop_expired evict
make_room now entries = evict (drop_expired now entries)

abbrev pub new_entry : ℕ → ℕ → TripEntry
new_entry now k = record {
  trip_request_id = k;
  created_at = now;
  sent = 0;
  driver_cancelled = false;
}

abbrev pub existing_or_new : ℕ → ℕ → Option TripEntry × List TripEntry → TripEntry × List TripEntry
existing_or_new now k (some entry, entries) = (entry, entries)
existing_or_new now k (none, entries) =
    (new_entry now k, make_room now entries ++ new_entry now k ∷ [])

-- entryFor
unfoldable pub entry_for : ℕ → ℕ → List TripEntry → TripEntry × List TripEntry
unfolding find_entry make_room
entry_for now k entries = existing_or_new now k (find_entry now k entries)

abbrev pub count_push : TripEntry → TripEntry
count_push e = record e { sent = e.sent + 1 }

abbrev pub mark_cancelled : TripEntry → TripEntry
mark_cancelled e = record e { driver_cancelled = true }

-- submit: whether the push is sent.
unfoldable pub submit : ℕ → ℕ → ℕ → List TripEntry → Bool × List TripEntry
unfolding entry_for
submit max_per_trip now k entries =
    let (entry, entries') = entry_for now k entries in
    if leb max_per_trip entry.sent
    then (false, entries')
    else (true, update_where (has_key k) count_push entries')

-- recordDriverCancellation
unfoldable pub record_driver_cancellation : ℕ → ℕ → List TripEntry → List TripEntry
unfolding entry_for
record_driver_cancellation now k entries =
    update_where (has_key k) mark_cancelled (entry_for now k entries).1

-- hadDriverCancellation
unfoldable pub had_driver_cancellation : ℕ → ℕ → List TripEntry → Bool × List TripEntry
unfolding find_entry
had_driver_cancellation now k entries =
    let (found, entries') = find_entry now k entries in
    (elim found [ none ↦ false | some e ↦ e.driver_cancelled ], entries')
