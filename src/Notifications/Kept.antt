-- ===== src/Notifications/Kept.antt =====
-- Parts of the ledger's list of entries, for the bounds of apps/api/src/modules/notifications/passenger/passenger-push.ledger.ts.
use voyya_backend.Prelude.{
  ℕ, ◌+◌, ◌≤◌, ◌<◌, ◌≡◌, refl, ap, inl, inr, Bool, true, none, some, List, [], ◌∷◌, ◌++◌, arith,
  leb, Bool-cases, length, find, filter, update_where, count, All,
}
use voyya_backend.Notifications.PushLedger.{
  TripEntry, max_entries, is_expired, has_key, forget, drop_expired, evict,
}

-- Some of the entries, in their order.
pub data Kept : List TripEntry → List TripEntry → Type 0 where
  nothing : Kept [] []
  dropped : {x : TripEntry} {xs ys : List TripEntry} → Kept xs ys → Kept (x ∷ xs) ys
  held : {x : TripEntry} {xs ys : List TripEntry} → Kept xs ys → Kept (x ∷ xs) (x ∷ ys)

pub Kept-refl : (xs : List TripEntry) → Kept xs xs
Kept-refl [] = nothing
Kept-refl (x ∷ xs) = held (Kept-refl xs)

pub Kept-trans : {xs ys zs : List TripEntry} → Kept xs ys → Kept ys zs → Kept xs zs
Kept-trans nothing q = q
Kept-trans (dropped p) q = dropped (Kept-trans p q)
Kept-trans (held p) (dropped q) = dropped (Kept-trans p q)
Kept-trans (held p) (held q) = held (Kept-trans p q)

pub Kept-filter : (p : TripEntry → Bool) (xs : List TripEntry) → Kept xs (filter p xs)
Kept-filter p [] = nothing
Kept-filter p (x ∷ xs) = elim (Bool-cases (p x)) [
  | inl e ↦ rw e (held (Kept-filter p xs))
  | inr e ↦ rw e (dropped (Kept-filter p xs))
]

pub Kept-drop_expired : (now : ℕ) (xs : List TripEntry) → Kept xs (drop_expired now xs)
unfolding drop_expired
Kept-drop_expired now [] = nothing
Kept-drop_expired now (x ∷ xs) = elim (Bool-cases (is_expired now x)) [
  | inl e ↦ rw e (dropped (Kept-drop_expired now xs))
  | inr e ↦ rw e (Kept-refl (x ∷ xs))
]

pub Kept-evict : (xs : List TripEntry) → Kept xs (evict xs)
unfolding evict
Kept-evict [] = nothing
Kept-evict (x ∷ xs) = elim (Bool-cases (leb max_entries (length (x ∷ xs)))) [
  | inl e ↦ rw e (dropped (Kept-evict xs))
  | inr e ↦ rw e (Kept-refl (x ∷ xs))
]

pub length-evict : (xs : List TripEntry) → length (evict xs) < max_entries
unfolding evict
length-evict [] = omega arith
length-evict (x ∷ xs) = elim (Bool-cases (leb max_entries (length (x ∷ xs)))) [
  | inl e ↦ rw e (length-evict xs)
  | inr e ↦ rw e (ground arith)
]

pub count-Kept :
    (p : TripEntry → Bool) {xs ys : List TripEntry} → Kept xs ys → count p ys ≤ count p xs
count-Kept p nothing = omega arith
count-Kept p (dropped {x = x} k) = ground (arith, count-Kept p k)
count-Kept p (held {x = x} k) = ground (arith, count-Kept p k)

pub All-Kept : (P : TripEntry → Type 0) {xs ys : List TripEntry} → Kept xs ys → All P xs → All P ys
All-Kept P nothing a = a
All-Kept P (dropped k) a = All-Kept P k a.1
All-Kept P (held k) a = (a.0, All-Kept P k a.1)

pub length-Kept : {xs ys : List TripEntry} → Kept xs ys → length ys ≤ length xs
length-Kept nothing = omega arith
length-Kept (dropped k) = omega (arith, length-Kept k)
length-Kept (held k) = omega (arith, length-Kept k)

pub count-forget : (k : ℕ) (xs : List TripEntry) → count (has_key k) (forget k xs) ≡ 0
unfolding forget
count-forget k [] = refl
count-forget k (x ∷ xs) = ground (arith, count-forget k xs)

pub count-find-none :
    (k : ℕ) (xs : List TripEntry) → find (has_key k) xs ≡ none → count (has_key k) xs ≡ 0
count-find-none k [] e = refl
count-find-none k (x ∷ xs) e = ground (arith, count-find-none k xs)

pub count-append :
    (p : TripEntry → Bool) (xs : List TripEntry) (y : TripEntry)
    → count p (xs ++ y ∷ []) ≡ count p xs + count p (y ∷ [])
count-append p [] y = omega arith
count-append p (x ∷ xs) y = ground (arith, count-append p xs y)

pub All-append :
    (P : TripEntry → Type 0) (xs : List TripEntry) (y : TripEntry)
    → All P xs
    → P y
    → All P (xs ++ y ∷ [])
All-append P [] y a b = (b, tt)
All-append P (x ∷ xs) y a b = (a.0, All-append P xs y a.1 b)

pub find-append :
    (k : ℕ) (xs : List TripEntry) (y : TripEntry)
    → count (has_key k) xs ≡ 0
    → has_key k y ≡ true
    → find (has_key k) (xs ++ y ∷ []) ≡ some y
find-append k [] y e h = rw h
find-append k (x ∷ xs) y e h = elim (Bool-cases (has_key k x)) [
  | inl q ↦ absurd (ground arith)
  | inr q ↦ rw q (find-append k xs y (rw q at e) h)
]

pub update_absent :
    (p : TripEntry → Bool) (f : TripEntry → TripEntry) (xs : List TripEntry)
    → count p xs ≡ 0
    → update_where p f xs ≡ xs
update_absent p f [] e = refl
update_absent p f (x ∷ xs) e = elim (Bool-cases (p x)) [
  | inl q ↦ absurd (ground arith)
  | inr q ↦ rw q (ap (λ ys. x ∷ ys) (update_absent p f xs (rw q at e)))
]
