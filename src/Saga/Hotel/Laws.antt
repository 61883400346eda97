-- ===== src/Saga/Hotel/Laws.antt =====
-- When a hotel is onboarded, and what is left when the last step fails.
use Prim.Native.String.{String}
use hotel_reviews_microservi.Base.{◌≡◌, true, none, some, arith}
use hotel_reviews_microservi.Saga.Types.{
  Event, completed, failed, SagaError, wrap, step_failed, Saga, returned, is_pending,
}
use hotel_reviews_microservi.Saga.Steps.{compensate_steps, run_steps, execute_steps}
use hotel_reviews_microservi.Saga.Hotel.Data.{HotelData, found, HotelContext, HotelServices}
use hotel_reviews_microservi.Saga.Hotel.Steps.{
  check_hotel, validate_hotel_data, validate_address, validate_contact, validate_license,
  index_hotel, to_domain_hotel, compensate_index_hotel, notify_completion, hotel_steps,
}
use hotel_reviews_microservi.Saga.Hotel.{is_hotel_created, hotel_triggered, hotel_start}

module _ {ℓ} {W : Type ℓ} {Uuid : Type 0} (services : HotelServices W Uuid) where
  -- The calls of the services by which a hotel is checked and indexed all succeed, one after the other,
  -- from the first state to the second.
  abbrev pub Indexes : String → HotelData → W → W → Type ℓ
  Indexes hotel_id hotel w t =
      (w1 w2 w3 w4 w5 : W) × (services.get_hotel hotel_id w ≡ (w1, found hotel))
      × (services.validate_hotel_data hotel_id w1 ≡ (w2, none))
      × (services.validate_hotel_address hotel.address w2 ≡ (w3, none))
      × (services.validate_hotel_contact hotel.contact_info w3 ≡ (w4, none))
      × (services.validate_hotel_license hotel.license w4 ≡ (w5, none))
      × (services.index_hotel (to_domain_hotel services hotel) w5 ≡ (t, none))

  module _ (event : Event) (saga : Saga (HotelContext W)) (hotel : HotelData) (w t : W)
      (is_new : is_pending saga.status ≡ true)
      (is_creation : is_hotel_created event.event_type ≡ true)
      (indexed : Indexes event.aggregate_id hotel saga.state.world w) where
    -- Where the hotel is checked and indexed, and made active, the saga is completed.
    pub hotel_start_completed :
        services.update_hotel_status hotel.id "active" w ≡ (t, none)
        → hotel_start services event saga
          ≡ returned
              (record {
                status = completed;
                state = record (hotel_triggered event saga.state) { hotel = some hotel; world = t };
              })
              none
    unfolding hotel_start execute_steps run_steps hotel_steps check_hotel validate_hotel_data
        validate_address validate_contact validate_license index_hotel notify_completion
    hotel_start_completed h = ground arith

    -- Where the hotel is checked and indexed, but cannot be made active, the saga is failed with that
    -- error, and the hotel is taken out of the index; an error of this is not reported.
    pub hotel_start_withdrawn :
        (e : SagaError)
        → services.update_hotel_status hotel.id "active" w ≡ (t, some e)
        → hotel_start services event saga
          ≡ returned
              (record {
                status = failed;
                state = record (hotel_triggered event saga.state) {
                  hotel = some hotel;
                  world = (services.delete_hotel_index hotel.id t).0;
                };
              })
              (some (step_failed "notify_completion" (wrap "failed to update hotel status" e)))
    unfolding hotel_start execute_steps run_steps compensate_steps hotel_steps check_hotel
        validate_hotel_data validate_address validate_contact validate_license index_hotel
        compensate_index_hotel notify_completion
    hotel_start_withdrawn e h = ground arith
