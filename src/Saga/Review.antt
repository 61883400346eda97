-- ===== src/Saga/Review.antt =====
-- `ReviewProcessingSaga` of internal/events/sagas.go: `NewReviewProcessingSaga`, `Start` and `Handle`. Both
-- methods run as one step, since they hold the saga's lock; a panic leaves the saga in no known state.
pub mod Data
pub mod Steps
pub mod Laws
pub mod Effects
pub mod Completed
use text.Mathlib.Text.{◌==◌}
use hotel_reviews_microservi.Base.{Bool, true, false, Option, none, some, if◌then◌else◌}
use hotel_reviews_microservi.Saga.Types.{
  EventType, review_created, system_error, Event, SagaStatus, pending, SagaError, message, Saga,
  Returned, returned, is_pending,
}
use hotel_reviews_microservi.Saga.Steps.{execute_steps, handle_system_error}
use Data.{Context, Services}
use Steps.{review_steps}

abbrev pub is_review_created : EventType → Bool
is_review_created review_created = true
is_review_created _ = false

abbrev pub is_system_error : EventType → Bool
is_system_error system_error = true
is_system_error _ = false

module _ {ℓ} {W : Type ℓ} {Rating : Type 0} where
  abbrev pub new_review_processing_saga : W → Saga (Context W Rating)
  new_review_processing_saga w = record {
    status = pending;
    state = record {
      review_id = none;
      trigger_event = none;
      review = none;
      moderation_result = none;
      world = w;
    };
  }

  -- What `Start` writes into the saga's data.
  abbrev pub triggered : Event → Context W Rating → Context W Rating
  triggered event c = record c { review_id = some event.aggregate_id; trigger_event = some event }

module _ {ℓ} {W : Type ℓ} {Rating Uuid : Type 0} (services : Services W Rating Uuid) where
  unfoldable pub start : Event → Saga (Context W Rating) → Returned (Saga (Context W Rating))
  start event saga =
      if is_pending saga.status
      then if is_review_created event.event_type
        then execute_steps (review_steps services) (triggered event saga.state)
        else returned saga (some (message "invalid trigger event type"))
      else returned saga (some (message "saga is not in pending status"))

  unfoldable pub handle : Event → Saga (Context W Rating) → Returned (Saga (Context W Rating))
  handle event saga = elim saga.state.trigger_event [
    | none ↦ returned saga none
    | some trigger ↦
        if event.correlation_id == trigger.correlation_id
        then if is_system_error event.event_type
          then handle_system_error (review_steps services) saga.state
          else returned saga none
        else returned saga none
  ]
