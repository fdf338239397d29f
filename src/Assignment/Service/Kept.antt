-- ===== src/Assignment/Service/Kept.antt =====
-- What the handlers of apps/api/src/modules/assignment/assignment.service.ts leave of the chains, and
-- its statements of the drivers.
use voyya_backend.Prelude.{
  In, Result, ok, err, ℕ, ◌≤◌, String, ◌≡◌, refl, sym, subst, inl, inr, Bool, true, false, not,
  ◌||◌, Option, none, some, List, ◌==◌, Bool-cases, update_where, count,
}
use voyya_backend.Db.Rows.{Assignment, Db}
use voyya_backend.Db.Tx.{DbError, Keeps, done-injective, >>=-Keeps, pure-Keeps}
use voyya_backend.Contracts.AssignmentStatus.{accepted, completed, notified}
use voyya_backend.Contracts.AssignmentStatus as Status
use voyya_backend.Assignment.Soundness.Drivers.{if-Keeps}
use voyya_backend.Assignment.Statements.{
  clashes, update_assignments, get_assignment, mark_timeout, mark_rejected,
}
use voyya_backend.Assignment.Take.{AcceptResult}
use voyya_backend.Assignment.Cancel.{CancelOutcome, reject, reject_offer}
use voyya_backend.Assignment.Dispatch.{ChainContext, CurrentOffer}
use voyya_backend.Assignment.Dispatch.Rounds.{DriversIn}
use voyya_backend.Assignment.Dispatch.Chains.{IsChain}
use voyya_backend.Assignment.Service.{
  AssignmentService, of_trip, delete_chain, clear_timer, finish_acceptance, cancelled_with,
  cancel_current,
}
use voyya_backend.Assignment.Service.Chains.{IsKept, IsKeptBut, but, delete_chain-IsKept}

-- The statements on assignments leave the drivers.
module _ (ids : List ℕ) where
  update_assignments-DriversIn :
      (p : Assignment → Bool) (set : Assignment → Assignment)
      → Keeps (DriversIn ids) (update_assignments p set)
  unfolding update_assignments
  update_assignments-DriversIn p set db r db' d h =
      elim (Bool-cases (
        clashes accepted (update_where p set db.assignments)
        || clashes completed (update_where p set db.assignments))) [
          | inl e ↦ cc (rw e at h)
          | inr e ↦ subst (DriversIn ids) (done-injective (rw e at h)) d
        ]

  pub mark_timeout-DriversIn :
      (now k company : ℕ) → Keeps (DriversIn ids) (mark_timeout now k company)
  unfolding mark_timeout
  mark_timeout-DriversIn now k company =
      >>=-Keeps (DriversIn ids) _ _ (update_assignments-DriversIn _ _)
        (λ rows. pure-Keeps (DriversIn ids) _)

  mark_rejected-DriversIn :
      (now k company : ℕ) (reason : Option String)
      → Keeps (DriversIn ids) (mark_rejected now k company reason)
  unfolding mark_rejected
  mark_rejected-DriversIn now k company reason =
      >>=-Keeps (DriversIn ids) _ _ (update_assignments-DriversIn _ _)
        (λ rows. pure-Keeps (DriversIn ids) _)

  get_assignment-DriversIn : (k company : ℕ) → Keeps (DriversIn ids) (get_assignment k company)
  unfolding get_assignment
  get_assignment-DriversIn k company db a db' d h = subst (DriversIn ids) (done-injective h) d

  reject_offer-DriversIn :
      (now driver company : ℕ) (reason : Option String) (a : Option Assignment)
      → Keeps (DriversIn ids) (reject_offer now driver company reason a)
  unfolding reject_offer
  reject_offer-DriversIn now driver company reason none = pure-Keeps (DriversIn ids) _
  reject_offer-DriversIn now driver company reason (some a) =
      if-Keeps (DriversIn ids) (not (a.driver_id == driver)) _ _ (pure-Keeps (DriversIn ids) _) (
        if-Keeps (DriversIn ids) (not (Status.same a.status notified)) _ _
          (pure-Keeps (DriversIn ids) _)
          (>>=-Keeps (DriversIn ids) _ _
            (mark_rejected-DriversIn now a.assignment_id company reason)
            (λ b. pure-Keeps (DriversIn ids) _)))

  pub reject-DriversIn :
      (now k driver company : ℕ) (reason : Option String)
      → Keeps (DriversIn ids) (reject now k driver company reason)
  unfolding reject
  reject-DriversIn now k driver company reason =
      >>=-Keeps (DriversIn ids) _ _ (get_assignment-DriversIn k company)
        (λ a. reject_offer-DriversIn now driver company reason a)

-- What does not touch the chains keeps them.
pub same_chains : {s s' : AssignmentService} → s'.chains ≡ s.chains → IsKept s → IsKept s'
same_chains e h = record {
  held = λ c m. h.held c (subst (In c) e m);
  single = λ trip. subst (λ cs. count (of_trip trip) cs ≤ 1) (sym e) (h.single trip);
}

pub same_chains_but :
    {k : ℕ} {s s' : AssignmentService} → s'.chains ≡ s.chains → IsKeptBut k s → IsKeptBut k s'
same_chains_but e h = record {
  held = λ c m o. h.held c (subst (In c) e m) o;
  single = λ trip. subst (λ cs. count (of_trip trip) cs ≤ 1) (sym e) (h.single trip);
}

pub deleted : (k : ℕ) (s : AssignmentService) → IsKept s → IsKept (delete_chain k s)
deleted k s h = delete_chain-IsKept k s (but k h)

pub finish_acceptance-IsKept :
    (k driver company : ℕ) (r : AcceptResult) (s : AssignmentService)
    → IsKept s
    → IsKept (finish_acceptance k driver company r s)
finish_acceptance-IsKept k driver company (AcceptResult.accepted trip vehicle passenger) s h =
    same_chains refl (deleted trip (clear_timer k s) (same_chains refl h))
finish_acceptance-IsKept k driver company AcceptResult.assignment_not_found s h = h
finish_acceptance-IsKept k driver company AcceptResult.not_the_driver s h = h
finish_acceptance-IsKept k driver company AcceptResult.commission_not_configured s h = h
finish_acceptance-IsKept k driver company AcceptResult.failed s h = h
finish_acceptance-IsKept k driver company AcceptResult.offer_expired s h = h
finish_acceptance-IsKept k driver company AcceptResult.already_taken s h = h

pub cancelled_with-IsKept :
    (k driver : ℕ) (r : Result DbError CancelOutcome × Db) (s : AssignmentService)
    → IsKept s
    → IsKept (cancelled_with k driver r s).0
cancelled_with-IsKept k driver (ok (CancelOutcome.cancelled trip passenger status true), db) s h =
    same_chains refl (deleted trip (clear_timer k s) (same_chains refl h))
cancelled_with-IsKept k driver (ok (CancelOutcome.cancelled trip passenger status false), db) s h =
    deleted trip (clear_timer k s) (same_chains refl h)
cancelled_with-IsKept k driver (ok CancelOutcome.not_found, db) s h = h
cancelled_with-IsKept k driver (ok CancelOutcome.not_driver, db) s h = h
cancelled_with-IsKept k driver (ok CancelOutcome.invalid_status, db) s h = h
cancelled_with-IsKept k driver (err e, db) s h = h

pub cancel_current-IsKept :
    (now : ℕ) (offer : Option CurrentOffer) (s : AssignmentService) (db : Db)
    → IsKept s
    → IsKept (cancel_current now offer s db).0
cancel_current-IsKept now none s db h = h
cancel_current-IsKept now (some offer) s db h = same_chains refl h

-- The chain whose offer is answered goes on without it.
pub without_offer :
    (ctx : ChainContext) → IsChain ctx → IsChain (record ctx { current_offer = none })
without_offer ctx c = record { within_retries = c.within_retries; asked = c.asked; once = c.once }
