-- ===== src/Trips/FreeCancellation.antt =====
-- apps/api/src/modules/trips/domain/free-cancellation.ts: until when a passenger cancels for free.
use voyya_backend.Prelude.{
  ℕ, ◌+◌, ◌*◌, ◌<◌, ◌≡◌, ◌↔◌, ◌⊎◌, Bool, true, false, not, Option, none, some, List, [], ◌∷◌, arith,
  leb, if◌then◌else◌, or_else,
}
use voyya_backend.Contracts.TripStatus.{TripStatus, assigned, driver_en_route, includes}
use voyya_backend.Db.Rows.{TripRequest}

-- WINDOWED_STATUSES
abbrev pub windowed_statuses : List TripStatus
windowed_statuses = assigned ∷ driver_en_route ∷ []

unfoldable pub free_cancellation_deadline : TripRequest → ℕ → Option ℕ
free_cancellation_deadline trip window_min =
    if not (includes windowed_statuses trip.status)
    then none
    else some (or_else trip.assigned_at trip.updated_at + window_min * 60000)

abbrev until : ℕ → Option ℕ → Bool
until received_at none = true
until received_at (some deadline) = leb received_at deadline

unfoldable pub is_free_cancellation : TripRequest → ℕ → ℕ → Bool
unfolding free_cancellation_deadline
is_free_cancellation trip window_min received_at =
    until received_at (free_cancellation_deadline trip window_min)

-- For a trip with an instant of assignment: a cancellation is not free exactly when the trip is
-- assigned or its driver on the way, and the cancellation is received after the window that
-- opened at the assignment.
pub is_free_cancellation_lem :
    (trip : TripRequest) (window_min received_at assigned_at : ℕ)
    → trip.assigned_at ≡ some assigned_at
    → (is_free_cancellation trip window_min received_at ≡ false) ↔ (
        ((trip.status ≡ assigned) ⊎ (trip.status ≡ driver_en_route))
        × (assigned_at + window_min * 60000 < received_at))
unfolding is_free_cancellation
is_free_cancellation_lem trip window_min received_at assigned_at e =
    (λ h. ground arith, λ h. ground arith)
