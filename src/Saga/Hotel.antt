-- ===== src/Saga/Hotel.antt =====
-- `HotelOnboardingSaga` of internal/events/sagas.go: `NewHotelOnboardingSaga`, `Start` and `Handle`. Its
-- `executeSteps` and `compensateSteps` are those of the review processing saga.
pub mod Data
pub mod Steps
pub mod Laws
pub mod Onboarded
mod Examples
use text.Mathlib.Text.{◌==◌}
use hotel_reviews_microservi.Base.{Bool, true, false, Option, none, some, if◌then◌else◌}
use hotel_reviews_microservi.Saga.Types.{
  EventType, hotel_created, Event, pending, message, Saga, Returned, returned, is_pending,
}
use hotel_reviews_microservi.Saga.Steps.{execute_steps}
use Data.{HotelContext, HotelServices}
use Steps.{hotel_steps}

abbrev pub is_hotel_created : EventType → Bool
is_hotel_created hotel_created = true
is_hotel_created _ = false

module _ {ℓ} {W : Type ℓ} where
  abbrev pub new_hotel_onboarding_saga : W → Saga (HotelContext W)
  new_hotel_onboarding_saga w = record {
    status = pending;
    state = record { hotel_id = none; trigger_event = none; hotel = none; world = w };
  }

  -- What `Start` writes into the saga's data.
  abbrev pub hotel_triggered : Event → HotelContext W → HotelContext W
  hotel_triggered event c = record c {
    hotel_id = some event.aggregate_id;
    trigger_event = some event;
  }

  unfoldable pub hotel_handle : Event → Saga (HotelContext W) → Returned (Saga (HotelContext W))
  hotel_handle event saga = elim saga.state.trigger_event [
    | none ↦ returned saga none
    | some trigger ↦
        if event.correlation_id == trigger.correlation_id
        then returned saga none
        else returned saga none
  ]

module _ {ℓ} {W : Type ℓ} {Uuid : Type 0} (services : HotelServices W Uuid) where
  unfoldable pub hotel_start : Event → Saga (HotelContext W) → Returned (Saga (HotelContext W))
  hotel_start event saga =
      if is_pending saga.status
      then if is_hotel_created event.event_type
        then execute_steps (hotel_steps services) (hotel_triggered event saga.state)
        else returned saga (some (message "invalid trigger event type"))
      else returned saga (some (message "saga is not in pending status"))
