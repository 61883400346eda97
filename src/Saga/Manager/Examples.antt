-- ===== src/Saga/Manager/Examples.antt =====
-- The theorems on the saga manager at concrete inputs: a saga here is its identifier with its status, and
-- the services count the events that are handled.
use Prim.Native.String.{String}
use text.Mathlib.Text.{◌==◌}
use hotel_reviews_microservi.Base.{ℕ, suc, ◌≡◌, refl, none, some, List, [], ◌∷◌, if◌then◌else◌}
use hotel_reviews_microservi.Saga.Types.{
  Event, system_error, SagaStatus, in_progress, completed, failed, SagaError, message,
}
use hotel_reviews_microservi.Base.Maps.{get}
use hotel_reviews_microservi.Saga.Manager.{SagaInterface, handle_event}

abbrev lost : SagaError
lost = message "connection lost"

-- Only the saga b fails to handle an event.
abbrev sagas : SagaInterface (String × SagaStatus) ℕ
sagas = record {
  start = λ event saga n. ((saga.0, in_progress), suc n, none);
  handle = λ event saga n. ((saga.0, failed), suc n, if saga.0 == "b" then some lost else none);
  get_saga_id = λ saga. saga.0;
  get_status = λ saga. saga.1;
}

abbrev crash : Event
crash = record { event_type = system_error; aggregate_id = "db"; correlation_id = "c1" }

abbrev running : List (String × (String × SagaStatus))
running = ("a", ("a", in_progress)) ∷ []

handled_first : (handle_event sagas crash running 0).2 ≡ none
unfolding handle_event
handled_first = refl

abbrev mixed : List (String × (String × SagaStatus))
mixed = ("a", ("a", completed)) ∷ (("b", ("b", in_progress)) ∷ [])

found : get "b" mixed ≡ some ("b", in_progress)
unfolding get
found = refl
