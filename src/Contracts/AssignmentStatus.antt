-- ===== src/Contracts/AssignmentStatus.antt =====
-- packages/shared/src/contracts/assignment.ts: the status of an assignment and its transitions.
use voyya_backend.Prelude.{Bool, true, false, ◌||◌, List, [], ◌∷◌}

pub data AssignmentStatus : Type 0 where
  created notified accepted rejected timeout cancelled completed : AssignmentStatus

-- `===` between two statuses.
abbrev pub same : AssignmentStatus → AssignmentStatus → Bool
same created created = true
same notified notified = true
same accepted accepted = true
same rejected rejected = true
same timeout timeout = true
same cancelled cancelled = true
same completed completed = true
same _ _ = false

-- `array.includes(status)`.
abbrev pub includes : List AssignmentStatus → AssignmentStatus → Bool
includes [] s = false
includes (x ∷ xs) s = same x s || includes xs s

-- ASSIGNMENT_STATUS_TRANSITIONS
abbrev pub assignment_status_transitions : AssignmentStatus → List AssignmentStatus
assignment_status_transitions created = notified ∷ timeout ∷ []
assignment_status_transitions notified = accepted ∷ rejected ∷ timeout ∷ []
assignment_status_transitions accepted = cancelled ∷ completed ∷ []
assignment_status_transitions _ = []

abbrev pub can_transition_assignment_status : AssignmentStatus → AssignmentStatus → Bool
can_transition_assignment_status from to = includes (assignment_status_transitions from) to
