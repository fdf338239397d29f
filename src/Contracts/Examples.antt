-- ===== src/Contracts/Examples.antt =====
-- The theorems on the transition table, at single statuses.
use voyya_backend.Prelude.{◌<◌, ◌≡◌, refl, ◌⊎◌}
use voyya_backend.Contracts.TripStatus.{pending_assignment, assigned}
use voyya_backend.Contracts.Machine.{steps_left, transition-advances}

transition-advances_example :
    (steps_left assigned < steps_left pending_assignment)
    ⊎ ((pending_assignment ≡ assigned) × (assigned ≡ pending_assignment))
transition-advances_example = transition-advances pending_assignment assigned refl
