-- ===== src/Saga/Review/Data.antt =====
-- What the review processing saga of internal/events/sagas.go works on: its data, and the interfaces
-- of the services that it calls. The services are parameters, over any state `W` of their own.
use Prim.Native.String.{String}
use hotel_reviews_microservi.Base.{Bool, Option, List}
use hotel_reviews_microservi.Saga.Types.{SagaError, Event}

-- A value and a nil error, or an error; a service returns no nil pointer with a nil error.
pub data Result (A : Type 0) : Type 0 where
  ok : A → Result A
  err : SagaError → Result A

pub record ReviewData (Rating : Type 0) : Type 0 where
  pub id : String
  pub hotel_id : String
  pub user_id : String
  pub content : String
  pub rating : Rating

-- The fields of a `ModerationResult` that the saga reads.
pub record ModerationResult : Type 0 where
  pub approved : Bool
  pub reasons : List String

-- The fields of the review that is indexed.
pub record DomainReview (Rating Uuid : Type 0) : Type 0 where
  pub id : Uuid
  pub hotel_id : Uuid
  pub user_id : Option Uuid
  pub comment : String
  pub rating : Rating

-- The saga's `Data`, whose values under their keys have one type each, and the services' state.
pub record Context {ℓ} (W : Type ℓ) (Rating : Type 0) : Type ℓ where
  pub review_id : Option String
  pub trigger_event : Option Event
  pub review : Option (ReviewData Rating)
  pub moderation_result : Option ModerationResult
  pub world : W

pub record Services {ℓ} (W : Type ℓ) (Rating Uuid : Type 0) : Type ℓ where
  pub get_review : String → W → W × Result (ReviewData Rating)
  pub update_review_status : String → String → W → W × Option SagaError
  pub moderate_content : String → W → W × Result ModerationResult
  pub approve_content : String → W → W × Option SagaError
  pub reject_content : String → String → W → W × Option SagaError
  pub update_hotel_metrics : String → Rating → W → W × Option SagaError
  pub track_user_activity : String → String → W → W × Option SagaError
  pub send_push_notification : String → String → String → W → W × Option SagaError
  pub index_review : DomainReview Rating Uuid → W → W × Option SagaError
  pub delete_review_index : String → W → W × Option SagaError
  -- Go's tests `rating < 1` and `rating > 5` on floating point numbers, and `uuid.Parse` without its
  -- error.
  pub below_one : Rating → Bool
  pub above_five : Rating → Bool
  pub parse_uuid : String → Uuid
