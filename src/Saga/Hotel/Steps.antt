-- ===== src/Saga/Hotel/Steps.antt =====
-- The six steps of the hotel onboarding saga, and their compensations.
use Prim.Native.String.{String}
use hotel_reviews_microservi.Base.{Option, none, some, List, [], ◌∷◌}
use hotel_reviews_microservi.Saga.Types.{SagaError, message, wrap, Action, SagaStep}
use hotel_reviews_microservi.Saga.Actions.{within}
use hotel_reviews_microservi.Saga.Hotel.Data.{
  HotelData, found, missed, DomainHotel, HotelContext, HotelServices,
}

module _ {ℓ} {W : Type ℓ} where
  abbrev nothing_to_do : Action (HotelContext W)
  nothing_to_do c = (c, none)

  abbrev ask : (W → W × Option SagaError) → Action (HotelContext W)
  ask f c = let (w, e) = f c.world in (record c { world = w }, e)

  abbrev with_hotel : (HotelData → Action (HotelContext W)) → Action (HotelContext W)
  with_hotel k c = elim c.hotel [
    | none ↦ (c, some (message "missing hotel data"))
    | some hotel ↦ k hotel c
  ]

  abbrev if_hotel : (HotelData → Action (HotelContext W)) → Action (HotelContext W)
  if_hotel k c = elim c.hotel [ none ↦ (c, none) | some hotel ↦ k hotel c ]

module _ {ℓ} {W : Type ℓ} {Uuid : Type 0} (services : HotelServices W Uuid) where
  -- `validateHotelData`, once the hotel is fetched.
  unfoldable pub check_hotel : String → HotelData → Action (HotelContext W)
  check_hotel hotel_id hotel c =
      let (w, e) = services.validate_hotel_data hotel_id c.world in
      let c' : HotelContext W = record c { world = w } in
      elim e [
        | some x ↦ (c', some (wrap "hotel data validation failed" x))
        | none ↦ (record c' { hotel = some hotel }, none)
      ]

  unfoldable pub validate_hotel_data : Action (HotelContext W)
  validate_hotel_data c = elim c.hotel_id [
    | none ↦ (c, some (message "missing hotel_id in saga data"))
    | some hotel_id ↦
        let (w, fetched) = services.get_hotel hotel_id c.world in
        let c' : HotelContext W = record c { world = w } in
        elim fetched [
          | missed e ↦ (c', some (wrap "failed to get hotel" e))
          | found hotel ↦ check_hotel hotel_id hotel c'
        ]
  ]

  unfoldable pub validate_address : Action (HotelContext W)
  validate_address = with_hotel λ hotel. ask (services.validate_hotel_address hotel.address)

  unfoldable pub validate_contact : Action (HotelContext W)
  validate_contact = with_hotel λ hotel. ask (services.validate_hotel_contact hotel.contact_info)

  unfoldable pub validate_license : Action (HotelContext W)
  validate_license = with_hotel λ hotel. ask (services.validate_hotel_license hotel.license)

  unfoldable pub to_domain_hotel : HotelData → DomainHotel Uuid
  to_domain_hotel hotel = record { id = services.parse_uuid hotel.id; name = hotel.name }

  unfoldable pub index_hotel : Action (HotelContext W)
  index_hotel = with_hotel λ hotel. ask (services.index_hotel (to_domain_hotel hotel))

  unfoldable pub compensate_index_hotel : Action (HotelContext W)
  compensate_index_hotel = if_hotel λ hotel. ask (services.delete_hotel_index hotel.id)

  unfoldable pub notify_completion : Action (HotelContext W)
  notify_completion = with_hotel λ hotel c.
      let (w, e) = services.update_hotel_status hotel.id "active" c.world in
      (record c { world = w }, within e "failed to update hotel status")

  unfoldable pub compensate_notify_completion : Action (HotelContext W)
  compensate_notify_completion =
      if_hotel λ hotel. ask (services.update_hotel_status hotel.id "pending")

  -- The steps that `NewHotelOnboardingSaga` defines.
  unfoldable pub hotel_steps : List (SagaStep (HotelContext W))
  hotel_steps =
      record {
        step_id = "validate_hotel_data";
        execute = validate_hotel_data;
        compensate = nothing_to_do;
      }
      ∷ record {
        step_id = "validate_address";
        execute = validate_address;
        compensate = nothing_to_do;
      }
      ∷ record {
        step_id = "validate_contact";
        execute = validate_contact;
        compensate = nothing_to_do;
      }
      ∷ record {
        step_id = "validate_license";
        execute = validate_license;
        compensate = nothing_to_do;
      }
      ∷ record {
        step_id = "index_hotel";
        execute = index_hotel;
        compensate = compensate_index_hotel;
      }
      ∷ record {
        step_id = "notify_completion";
        execute = notify_completion;
        compensate = compensate_notify_completion;
      }
      ∷ []
