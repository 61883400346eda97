-- ===== src/Saga/Examples.antt =====
-- The theorems on the sagas at concrete inputs. The services here keep a log of the calls that write,
-- the last one first; ratings are in tenths.
use Prim.Native.String.{String}
use hotel_reviews_microservi.Base.{ℕ, ◌≡◌, refl, Bool, true, none, some, List, [], ◌∷◌, ltb, Option}
use hotel_reviews_microservi.Saga.Types.{
  Event, review_created, system_error, SagaError, message, Saga, completed, returned,
}
use hotel_reviews_microservi.Saga.Steps.{execute_steps, run_steps}
use hotel_reviews_microservi.Saga.Steps.Laws.{Outcome, execute_steps-Outcome}
use hotel_reviews_microservi.Saga.Review.Data.{ok, ReviewData, Context, Services}
use hotel_reviews_microservi.Saga.Review.Steps.{
  review_steps, validate_review, check_review, moderate_content, report_moderation,
  update_analytics, index_review, send_notifications, finalize_review,
}
use hotel_reviews_microservi.Saga.Review.{new_review_processing_saga, triggered, start}
use hotel_reviews_microservi.Saga.Review.Laws.{Ends, start-Ends}
use hotel_reviews_microservi.Saga.Review.Completed.{Finalized, start-Finalized}

abbrev stay : ReviewData ℕ
stay = record { id = "r1"; hotel_id = "h1"; user_id = "u1"; content = "A quiet room"; rating = 45 }

abbrev Log : Type 0
Log = List String

abbrev quiet : Log → Log × Option SagaError
quiet w = (w, none)

abbrev services_with : Bool → Services Log ℕ String
services_with approves = record {
  get_review = λ id w. (w, ok stay);
  update_review_status = λ id status w. (status ∷ w, none);
  moderate_content = λ content w. (w, ok (record { approved = approves; reasons = [] }));
  approve_content = λ id w. ("approve" ∷ w, none);
  reject_content = λ id reason w. ("reject" ∷ w, none);
  update_hotel_metrics = λ id rating w. ("metrics" ∷ w, none);
  track_user_activity = λ id activity w. ("activity" ∷ w, none);
  send_push_notification = λ id title text w. ("notify" ∷ w, none);
  index_review = λ review w. ("index" ∷ w, none);
  delete_review_index = λ id w. ("delete index" ∷ w, none);
  below_one = λ rating. ltb rating 10;
  above_five = λ rating. ltb 50 rating;
  parse_uuid = λ text. text;
}

abbrev down : SagaError
down = message "connection refused"

-- The status of a review cannot be updated.
abbrev failing_services : Services Log ℕ String
failing_services = record (services_with true) {
  update_review_status = λ id status w. (w, some down);
}

abbrev created : Event
created = record { event_type = review_created; aggregate_id = "r1"; correlation_id = "c1" }

abbrev crashed : Event
crashed = record { event_type = system_error; aggregate_id = "db"; correlation_id = "c1" }

abbrev new_saga : Saga (Context Log ℕ)
new_saga = new_review_processing_saga []

abbrev finished : Saga (Context Log ℕ)
finished = record {
  status = completed;
  state = record {
    review_id = some "r1";
    trigger_event = some created;
    review = some stay;
    moderation_result = some (record { approved = true; reasons = [] });
    world = "approved" ∷ "notify" ∷ "index" ∷ "activity" ∷ "metrics" ∷ "approved" ∷ "approve" ∷ [];
  };
}

start_approved : start (services_with true) created new_saga ≡ returned finished none
unfolding start execute_steps run_steps review_steps validate_review check_review moderate_content
    report_moderation update_analytics index_review send_notifications finalize_review
start_approved = refl

start-Finalized_example : Finalized (services_with true) finished.state
start-Finalized_example =
    start-Finalized (services_with true) created new_saga finished start_approved

start-Ends_example : Ends failing_services created (start failing_services created new_saga)
start-Ends_example = start-Ends failing_services created created new_saga refl refl

execute_steps-Outcome_example :
    Outcome
      (review_steps failing_services)
      (triggered created new_saga.state)
      (execute_steps (review_steps failing_services) (triggered created new_saga.state))
execute_steps-Outcome_example =
    execute_steps-Outcome (review_steps failing_services) (triggered created new_saga.state)
