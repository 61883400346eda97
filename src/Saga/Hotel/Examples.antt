-- ===== src/Saga/Hotel/Examples.antt =====
-- The theorems on the hotel onboarding saga at concrete inputs. The services keep a log of the calls
-- that write, the last one first.
use Prim.Native.String.{String}
use hotel_reviews_microservi.Base.{◌≡◌, refl, none, some, List, [], ◌∷◌}
use hotel_reviews_microservi.Saga.Types.{
  hotel_created, Event, completed, SagaError, message, Saga, returned,
}
use hotel_reviews_microservi.Saga.Hotel.Data.{HotelData, found, HotelContext, HotelServices}
use hotel_reviews_microservi.Saga.Steps.{execute_steps, run_steps}
use hotel_reviews_microservi.Saga.Hotel.Steps.{
  check_hotel, validate_hotel_data, validate_address, validate_contact, validate_license,
  index_hotel, notify_completion, hotel_steps,
}
use hotel_reviews_microservi.Saga.Hotel.{new_hotel_onboarding_saga, hotel_triggered, hotel_start}

abbrev inn : HotelData
inn = record {
  id = "h1";
  name = "The Inn";
  address = "1 High Street";
  contact_info = "desk";
  license = "L1";
}

abbrev services : HotelServices (List String) String
services = record {
  get_hotel = λ id w. (w, found inn);
  update_hotel_status = λ id status w. (status ∷ w, none);
  validate_hotel_data = λ id w. (w, none);
  validate_hotel_address = λ address w. (w, none);
  validate_hotel_contact = λ contact w. (w, none);
  validate_hotel_license = λ license w. (w, none);
  index_hotel = λ hotel w. ("index" ∷ w, none);
  delete_hotel_index = λ id w. ("delete index" ∷ w, none);
  parse_uuid = λ text. text;
}

abbrev down : SagaError
down = message "connection refused"

abbrev failing_services : HotelServices (List String) String
failing_services = record services { update_hotel_status = λ id status w. (w, some down) }

abbrev created : Event
created = record { event_type = hotel_created; aggregate_id = "h1"; correlation_id = "c1" }

abbrev new_saga : Saga (HotelContext (List String))
new_saga = new_hotel_onboarding_saga []

abbrev onboarded : Saga (HotelContext (List String))
onboarded = record {
  status = completed;
  state = record (hotel_triggered created new_saga.state) {
    hotel = some inn;
    world = "active" ∷ "index" ∷ [];
  };
}

hotel_started : hotel_start services created new_saga ≡ returned onboarded none
unfolding hotel_start execute_steps run_steps hotel_steps check_hotel validate_hotel_data
    validate_address validate_contact validate_license index_hotel notify_completion
hotel_started = refl
