-- ===== src/Contracts/Machine.antt =====
-- The laws of the transition tables of packages/shared: their terminal statuses, and how far they
-- go.
use voyya_backend.Prelude.{ℕ, ◌<◌, ◌≡◌, refl, ◌↔◌, ◌⊎◌, true, false, not, arith}
use voyya_backend.Contracts.TripStatus.{
  TripStatus, pending_assignment, assigned, driver_en_route, in_progress, completed,
  can_transition_trip_status, is_terminal_trip_status, is_active_trip_status,
}

-- The statuses that a trip can pass through, each by a row of the transition table.
pub data Reaches : TripStatus → TripStatus → Type 0 where
  here : {s : TripStatus} → Reaches s s
  next : {s t u : TripStatus} → can_transition_trip_status s t ≡ true → Reaches t u → Reaches s u

-- A status is terminal exactly when no transition leaves it, and active exactly when it is not
-- terminal.
pub terminal-iff-no_exit :
    (s : TripStatus)
    → ((is_terminal_trip_status s ≡ true)
        ↔ ((t : TripStatus) → can_transition_trip_status s t ≡ false))
      × (is_active_trip_status s ≡ not (is_terminal_trip_status s))
terminal-iff-no_exit pending_assignment = ((λ h. cc, λ h. cc (h assigned)), refl)
terminal-iff-no_exit assigned = ((λ h. cc, λ h. cc (h driver_en_route)), refl)
terminal-iff-no_exit driver_en_route = ((λ h. cc, λ h. cc (h in_progress)), refl)
terminal-iff-no_exit in_progress = ((λ h. cc, λ h. cc (h completed)), refl)
terminal-iff-no_exit _ = ((λ h t. refl, λ h. refl), refl)

-- How far a status stands from the end of a trip's life.
abbrev pub steps_left : TripStatus → ℕ
steps_left pending_assignment = 4
steps_left assigned = 3
steps_left driver_en_route = 2
steps_left in_progress = 1
steps_left _ = 0

-- A transition of the table brings a trip nearer to its end, in the number of steps that its
-- status has left, or it is the one from assigned back to pending_assignment.
pub transition-advances :
    (s t : TripStatus)
    → can_transition_trip_status s t ≡ true
    → (steps_left t < steps_left s) ⊎ ((s ≡ assigned) × (t ≡ pending_assignment))
transition-advances pending_assignment t h = ground arith
transition-advances assigned t h = ground arith
transition-advances driver_en_route t h = ground arith
transition-advances in_progress t h = ground arith
transition-advances _ t h = cc

-- A trip that has left its terminal status nowhere: what is reached from it is itself.
pub terminal_absorbs : (s t : TripStatus) → is_terminal_trip_status s ≡ true → Reaches s t → t ≡ s
terminal_absorbs s t h here = refl
terminal_absorbs s t h (next {t = m} e r) = cc ((terminal-iff-no_exit s).0.0 h m)
