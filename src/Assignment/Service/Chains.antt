-- ===== src/Assignment/Service/Chains.antt =====
-- What holds of the chains that the service of apps/api/src/modules/assignment/assignment.service.ts
-- keeps, through any requests and events.
use voyya_backend.Prelude.{
  not→false, In, filter-In, ℕ, ◌+◌, ◌≤◌, ◌<◌, ◌≡◌, refl, sym, subst, inl, inr, Bool, true, false,
  not, List, [], ◌∷◌, arith, ◌==◌, is_some, Bool-cases, ==→eq, ==_refl, length, filter, count,
}
use voyya_backend.Db.Rows.{Db}
use voyya_backend.Tenancy.DispatchCompanies.{has_id}
use voyya_backend.Assignment.Dispatch.{ChainContext, Searched, try_next}
use voyya_backend.Assignment.Dispatch.Rounds.{IsClosed, DriversIn, rounds_left}
use voyya_backend.Assignment.Dispatch.Chains.{IsChain, SearchKept, try_next_kept}
use voyya_backend.Assignment.Service.{
  AssignmentService, Surroundings, of_trip, delete_chain, set_chain, settle, go_on,
}

-- A chain that waits for the answer to an offer.
abbrev pub IsHeld : ChainContext → Type 0
IsHeld ctx = IsChain ctx × (is_some ctx.current_offer ≡ true)

-- Every chain waits for an answer, and a trip has one chain at most.
pub record IsKept (s : AssignmentService) : Type 0 where
  pub held : (c : ChainContext) → In c s.chains → IsHeld c
  pub single : (trip : ℕ) → count (of_trip trip) s.chains ≤ 1

-- The same, but for the chain of one trip.
pub record IsKeptBut (k : ℕ) (s : AssignmentService) : Type 0 where
  pub held : (c : ChainContext) → In c s.chains → of_trip k c ≡ false → IsHeld c
  pub single : (trip : ℕ) → count (of_trip trip) s.chains ≤ 1

pub but : (k : ℕ) {s : AssignmentService} → IsKept s → IsKeptBut k s
but k h = record { held = λ c m e. h.held c m; single = h.single }

fewer_left :
    (trip k : ℕ) (cs : List ChainContext)
    → count (of_trip trip) (filter (λ c. not (of_trip k c)) cs) ≤ count (of_trip trip) cs
fewer_left trip k [] = omega arith
fewer_left trip k (c ∷ cs) = ground (arith, fewer_left trip k cs)

none_left :
    (k : ℕ) (cs : List ChainContext) → count (of_trip k) (filter (λ c. not (of_trip k c)) cs) ≡ 0
none_left k [] = refl
none_left k (c ∷ cs) = ground (arith, none_left k cs)

-- A chain that is deleted, or replaced by one that waits, was the one that may not have waited.
pub delete_chain-IsKept :
    (k : ℕ) (s : AssignmentService) → IsKeptBut k s → IsKept (delete_chain k s)
delete_chain-IsKept k s h = record {
  held = λ c m.
      let (n, e) = filter-In (λ x. not (of_trip k x)) c s.chains m in h.held c n (not→false _ e);
  single = λ trip. omega (arith, fewer_left trip k s.chains, h.single trip);
}

single_set :
    (ctx : ChainContext) (s : AssignmentService)
    → ((trip : ℕ) → count (of_trip trip) s.chains ≤ 1)
    → (trip : ℕ) → count (of_trip trip) (set_chain ctx s).chains ≤ 1
single_set ctx s h trip = elim (Bool-cases (ctx.trip_request_id == trip)) [
  | inl e ↦
      let same : trip ≡ ctx.trip_request_id = sym (==→eq _ _ e) in
      subst (λ t. count (of_trip t) (set_chain ctx s).chains ≤ 1) (sym same)
        (ground (arith, none_left ctx.trip_request_id s.chains))
  | inr e ↦ rw e (omega (arith, fewer_left trip ctx.trip_request_id s.chains, h trip))
]

set_chain-IsKept :
    (ctx : ChainContext) (s : AssignmentService)
    → IsHeld ctx
    → IsKeptBut ctx.trip_request_id s
    → IsKept (set_chain ctx s)
set_chain-IsKept ctx s c h = record { held = held'; single = single_set ctx s h.single }
  where
    held' : (x : ChainContext) → In x (set_chain ctx s).chains → IsHeld x
    held' x (inl e) = subst IsHeld (sym e) c
    held' x (inr m) =
        let (n, e) = filter-In (λ y. not (of_trip ctx.trip_request_id y)) x s.chains m in
        h.held x n (not→false _ e)

pub set_chain-IsKeptBut :
    (ctx : ChainContext) (s : AssignmentService)
    → IsKept s
    → IsKeptBut ctx.trip_request_id (set_chain ctx s)
set_chain-IsKeptBut ctx s h = record { held = held'; single = single_set ctx s h.single }
  where
    held' :
        (x : ChainContext)
        → In x (set_chain ctx s).chains
        → of_trip ctx.trip_request_id x ≡ false
        → IsHeld x
    held' x (inl e) other =
        let own : of_trip ctx.trip_request_id x ≡ true =
          subst (λ y. of_trip ctx.trip_request_id y ≡ true) (sym e) (==_refl ctx.trip_request_id) in
        cc
    held' x (inr m) other =
        h.held x (filter-In (λ y. not (of_trip ctx.trip_request_id y)) x s.chains m).0

-- What a request may meet: drivers among `ids`, choices in their range, and fuel enough to ask all.
pub record IsCalm (ids : List ℕ) (e : Surroundings) : Type 0 where
  pub closed : IsClosed ids e.rounds
  pub in_range : (n m : ℕ) → 0 < m → (e.rounds n).choice m < m
  pub enough : length ids + 1 < e.fuel

count-le-length : (p : ℕ → Bool) (xs : List ℕ) → count p xs ≤ length xs
count-le-length p [] = omega arith
count-le-length p (x ∷ xs) = ground (arith, count-le-length p xs)

rounds_left-le : (ids : List ℕ) (ctx : ChainContext) → rounds_left ids ctx ≤ length ids + 1
rounds_left-le ids ctx = ground (arith, count-le-length (λ k. not (has_id k ctx.attempted)) ids)

module _ (ids : List ℕ) (e : Surroundings) (calm : IsCalm ids e) where
  settled :
      (ctx : ChainContext) (r : Searched) (s : AssignmentService)
      → SearchKept e.geo e.rounds ctx r
      → IsKeptBut ctx.trip_request_id s
      → IsKept (settle r r.end s)
  settled ctx r s (c, g, inl (row, x, t, new, known, o, p, held)) h =
      let k =
        set_chain-IsKept r.ctx s (c, rw held refl)
          (subst (λ t. IsKeptBut t s) (sym g.same_trip) h) in
      subst (λ y. IsKept (settle r y s)) (sym x) (record { held = k.held; single = k.single })
  settled ctx r s (c, g, inr (x, o, why)) h =
      let k =
        delete_chain-IsKept r.ctx.trip_request_id s
          (subst (λ t. IsKeptBut t s) (sym g.same_trip) h) in
      subst (λ y. IsKept (settle r y s)) (sym x) (record { held = k.held; single = k.single })

  pub go_on-IsKept :
      (ctx : ChainContext) (s : AssignmentService) (db : Db)
      → DriversIn ids db
      → IsChain ctx
      → IsKeptBut ctx.trip_request_id s
      → IsKept (go_on e ctx s db).0
  go_on-IsKept ctx s db d c h =
      settled ctx (try_next e.geo e.rounds e.fuel ctx db) s
        (try_next_kept e.geo e.rounds ids calm.closed calm.in_range e.fuel ctx db d
          (omega (arith, rounds_left-le ids ctx, calm.enough)) c)
        h
