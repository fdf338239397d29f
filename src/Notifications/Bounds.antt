-- ===== src/Notifications/Bounds.antt =====
-- The bounds of the ledger of apps/api/src/modules/notifications/passenger/passenger-push.ledger.ts.
use voyya_backend.Prelude.{
  update_where, count-update_where, subst, ==→eq, ◌==◌, leb, ◌<◌, ◌↔◌, true, sym, ◌+◌, count,
  All-find, ap, ◌∙◌, length-append, ==_refl, ◌++◌, [], ◌∷◌, ℕ, ◌≤◌, ◌≡◌, refl, ◌⊎◌, inl, inr, Bool,
  not, Option, none, some, List, arith, Bool-cases, Option-cases, length, find, All,
}
use voyya_backend.Notifications.PushLedger.{
  TripEntry, max_entries, is_expired, has_key, forget, find_entry, drop_expired, make_room,
  new_entry, existing_or_new, entry_for, count_push, submit,
}
use voyya_backend.Notifications.Kept.{
  Kept, Kept-refl, Kept-trans, Kept-filter, Kept-drop_expired, Kept-evict, length-evict, count-Kept,
  All-Kept, length-Kept, count-forget, count-find-none, count-append, All-append, find-append,
  update_absent,
}

abbrev pub HasQuota : ℕ → TripEntry → Type 0
HasQuota max_per_trip e = e.sent ≤ max_per_trip

-- The ledger is small, no trip has had more pushes than it may, and a trip has one entry at most.
pub record IsBounded (max_per_trip : ℕ) (entries : List TripEntry) : Type 0 where
  pub small : length entries ≤ max_entries
  pub capped : All (HasQuota max_per_trip) entries
  pub unique : (k : ℕ) → count (has_key k) entries ≤ 1

length-update_where :
    (p : TripEntry → Bool) (f : TripEntry → TripEntry) (xs : List TripEntry)
    → length (update_where p f xs) ≡ length xs
length-update_where p f [] = refl
length-update_where p f (x ∷ xs) = omega (arith, length-update_where p f xs)

module _ (max_per_trip now k : ℕ) where
  pub part-IsBounded :
      {xs ys : List TripEntry} → Kept xs ys → IsBounded max_per_trip xs → IsBounded max_per_trip ys
  part-IsBounded kept i = record {
    small = omega (arith, length-Kept kept, i.small);
    capped = All-Kept (HasQuota max_per_trip) kept i.capped;
    unique = λ j. omega (arith, count-Kept (has_key j) kept, i.unique j);
  }

  -- What an entry's search leaves: a part of the entries, with the entry that it found, or without
  -- any of the trip.
  pub searched :
      (entries : List TripEntry)
      → Kept entries (find_entry now k entries).1
        × (((e : TripEntry) × (find_entry now k entries ≡ (some e, entries))
              × (find (has_key k) entries ≡ some e))
            ⊎ ((find_entry now k entries ≡ (none, (find_entry now k entries).1))
                × (count (has_key k) (find_entry now k entries).1 ≡ 0)))
  unfolding find_entry forget
  searched entries = elim (Option-cases (find (has_key k) entries)) [
    | inl e ↦ rw e (Kept-refl entries, inr (refl, count-find-none k entries e))
    | inr (x, e) ↦ elim (Bool-cases (is_expired now x)) [
      | inl old ↦ rw (e, old) (forgotten, inr (refl, count-forget k entries))
      | inr young ↦ rw (e, young) (Kept-refl entries, inl (x, refl, refl))
    ]
  ]
    where
      forgotten : Kept entries (forget k entries)
      forgotten = Kept-filter (λ e. not (has_key k e)) entries

  one_each :
      (j : ℕ) (rows : List TripEntry)
      → count (has_key k) rows ≡ 0
      → count (has_key j) rows ≤ 1
      → count (has_key j) (rows ++ new_entry now k ∷ []) ≤ 1
  one_each j rows none_left few = elim (Bool-cases (k == j)) [
    | inl e ↦
        let none_here : count (has_key j) rows ≡ 0 =
          subst (λ n. count (has_key n) rows ≡ 0) (==→eq k j e) none_left in
        let one : count (has_key j) (new_entry now k ∷ []) ≤ 1 = rw e (omega arith) in
        omega (arith, count-append (has_key j) rows (new_entry now k), none_here, one)
    | inr e ↦
        let other : count (has_key j) (new_entry now k ∷ []) ≡ 0 = rw e refl in
        omega (arith, count-append (has_key j) rows (new_entry now k), other, few)
  ]

  found_or_made :
      (entries : List TripEntry) (f : Option TripEntry × List TripEntry)
      → IsBounded max_per_trip f.1
      → ((e : TripEntry) × (f.0 ≡ some e) × (find (has_key k) f.1 ≡ some e))
        ⊎ ((f.0 ≡ none) × (count (has_key k) f.1 ≡ 0))
      → IsBounded max_per_trip (existing_or_new now k f).1
        × (find (has_key k) (existing_or_new now k f).1 ≡ some (existing_or_new now k f).0)
        × HasQuota max_per_trip (existing_or_new now k f).0
  unfolding make_room
  found_or_made entries (some e, rows) i (inr (q, z)) = cc
  found_or_made entries (none, rows) i (inl (e, q, z)) = cc
  found_or_made entries (some e, rows) i (inl (x, q, z)) =
      let same' : x ≡ e = cc in
      (
        i,
        z ∙ ap some same',
        (All-find (HasQuota max_per_trip) (has_key k) rows e i.capped (z ∙ ap some same')).0,
      )
  found_or_made entries (none, rows) i (inr (q, z)) =
      let kept : Kept rows (make_room now rows) =
        Kept-trans (Kept-drop_expired now rows) (Kept-evict (drop_expired now rows)) in
      let none_left : count (has_key k) (make_room now rows) ≡ 0 =
        omega (arith, count-Kept (has_key k) kept, z) in
      (
        record {
          small = omega (
            arith,
            length-append (make_room now rows) (new_entry now k ∷ []),
            length-evict (drop_expired now rows),
          );
          capped =
              All-append (HasQuota max_per_trip) (make_room now rows) (new_entry now k)
                (All-Kept (HasQuota max_per_trip) kept i.capped) (omega arith);
          unique = λ j.
              one_each j (make_room now rows) none_left
                (omega (arith, count-Kept (has_key j) kept, i.unique j));
        },
        find-append k (make_room now rows) (new_entry now k) none_left (==_refl k),
        omega arith,
      )

  -- The entry of a trip is in the ledger, once.
  pub entry_for-IsBounded :
      (entries : List TripEntry)
      → IsBounded max_per_trip entries
      → IsBounded max_per_trip (entry_for now k entries).1
        × (find (has_key k) (entry_for now k entries).1 ≡ some (entry_for now k entries).0)
        × HasQuota max_per_trip (entry_for now k entries).0
  unfolding entry_for
  entry_for-IsBounded entries i =
      let (kept, how) = searched entries in
      found_or_made entries (find_entry now k entries) (part-IsBounded kept i) (elim how [
        | inl (e, q, f) ↦ inl (e, ap (λ x. x.0) q, ap (λ x. find (has_key k) x.1) q ∙ f)
        | inr (q, z) ↦ inr (ap (λ x. x.0) q, z)
      ])

  -- Counting a push keeps the entries of the other trips.
  counted :
      (e : TripEntry) (xs : List TripEntry)
      → All (HasQuota max_per_trip) xs
      → count (has_key k) xs ≤ 1
      → find (has_key k) xs ≡ some e
      → e.sent < max_per_trip
      → All (HasQuota max_per_trip) (update_where (has_key k) count_push xs)
  counted e [] a u f room = tt
  counted e (x ∷ xs) a u f room = elim (Bool-cases (has_key k x)) [
    | inr other ↦ rw other (a.0, counted e xs a.1 (rw other at u) (rw other at f) room)
    | inl own ↦
        let q : some x ≡ some e = rw own at f in
        let same' : x ≡ e = cc in
        let none_left : count (has_key k) xs ≡ 0 = ground arith in
        rw (own, update_absent (has_key k) count_push xs none_left)
          (
            subst (λ (y : TripEntry). y.sent + 1 ≤ max_per_trip) (sym same') (omega (arith, room)),
            a.1,
          )
  ]

  pub rewritten-IsBounded :
      (f : TripEntry → TripEntry) (xs : List TripEntry)
      → ((x : TripEntry) → (f x).trip_request_id ≡ x.trip_request_id)
      → IsBounded max_per_trip xs
      → All (HasQuota max_per_trip) (update_where (has_key k) f xs)
      → IsBounded max_per_trip (update_where (has_key k) f xs)
  rewritten-IsBounded f xs same_key i a = record {
    small = omega (arith, length-update_where (has_key k) f xs, i.small);
    capped = a;
    unique = λ j. omega (
      arith,
      count-update_where (has_key j) (has_key k) f xs (λ x. ap (λ n. n == j) (same_key x)),
      i.unique j,
    );
  }

  -- From a ledger within its bounds: a push is sent exactly if the trip's entry counts fewer pushes
  -- than a trip may have, and sent or withheld it leaves a ledger within its bounds.
  pub submit-IsBounded :
      (entries : List TripEntry)
      → IsBounded max_per_trip entries
      → IsBounded max_per_trip (submit max_per_trip now k entries).1
        × (((submit max_per_trip now k entries).0 ≡ true)
            ↔ ((entry_for now k entries).0.sent < max_per_trip))
  unfolding submit
  submit-IsBounded entries i =
      let (bounded, found, quota) = entry_for-IsBounded entries i in
      let (entry, rows) = entry_for now k entries in
      elim (Bool-cases (leb max_per_trip entry.sent)) [
        | inl full ↦ rw full (bounded, (λ e. cc, λ e. absurd (ground arith)))
        | inr room ↦ rw room (
          rewritten-IsBounded count_push rows (λ x. refl) bounded
              (counted entry rows bounded.capped (bounded.unique k) found (ground arith)),
          (λ e. ground arith, λ e. refl),
        )
      ]
