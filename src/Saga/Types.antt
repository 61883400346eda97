-- ===== src/Saga/Types.antt =====
-- The saga types of internal/events/event_bus.go: events, the status of a saga, and its steps.
use Prim.Native.String.{String}
use hotel_reviews_microservi.Base.{Bool, true, false, Option, none, some}

pub data EventType : Type 0 where
  user_registered user_updated user_deleted : EventType
  hotel_created hotel_updated hotel_deleted : EventType
  review_created review_updated review_deleted review_moderated : EventType
  file_uploaded file_processed file_deleted : EventType
  page_view search_performed booking_attempt : EventType
  system_health system_error system_metric : EventType

-- The fields of an `Event` that the sagas read.
pub record Event : Type 0 where
  pub event_type : EventType
  pub aggregate_id : String
  pub correlation_id : String

pub data SagaStatus : Type 0 where
  pending in_progress completed failed cancelled : SagaStatus

-- Go's errors: a text, a text around another error, and the error of a saga's step.
pub data SagaError : Type 0 where
  message : String → SagaError
  wrap : String → SagaError → SagaError
  step_failed : String → SagaError → SagaError

-- What a function does that changes the state `S` and returns an error or nil.
abbrev pub Action {ℓ} : Type ℓ → Type ℓ
Action S = S → S × Option SagaError

pub record SagaStep {ℓ} (S : Type ℓ) : Type ℓ where
  pub step_id : String
  pub execute : Action S
  pub compensate : Action S

-- A saga's status, and what its steps read and write: its data, and the services behind them.
pub record Saga {ℓ} (S : Type ℓ) : Type ℓ where
  pub status : SagaStatus
  pub state : S

-- A call that may panic: `s.Steps[i]` does, out of range.
pub data Returned {ℓ} (S : Type ℓ) : Type ℓ where
  returned : S → Option SagaError → Returned S
  panicked : Returned S

abbrev pub is_pending : SagaStatus → Bool
is_pending pending = true
is_pending _ = false

abbrev pub no_error : Option SagaError → Bool
no_error none = true
no_error (some e) = false
