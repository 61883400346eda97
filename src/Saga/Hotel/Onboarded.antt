-- ===== src/Saga/Hotel/Onboarded.antt =====
-- What is true of a hotel whose saga has been completed.
use Prim.Native.String.{String}
use hotel_reviews_microservi.Base.{◌⊎◌, ◌≡◌, refl, subst, Bool-cases, none, some, arith, inl, inr}
use hotel_reviews_microservi.Saga.Types.{Event, SagaError, Saga, returned, is_pending}
use hotel_reviews_microservi.Saga.Steps.Laws.{Runs, execute_steps-Runs}
use hotel_reviews_microservi.Saga.Hotel.Data.{
  HotelData, Fetched, found, missed, HotelContext, HotelServices,
}
use hotel_reviews_microservi.Saga.Hotel.Steps.{
  check_hotel, validate_hotel_data, validate_address, validate_contact, validate_license,
  index_hotel, to_domain_hotel, notify_completion, hotel_steps,
}
use hotel_reviews_microservi.Saga.Hotel.{is_hotel_created, hotel_triggered, hotel_start}
use hotel_reviews_microservi.Saga.Hotel.Laws.{Indexes}

module _ {ℓ} {W : Type ℓ} {Uuid : Type 0} (services : HotelServices W Uuid) where
  Fetched-cases :
      (f : Fetched) → ((hotel : HotelData) × (f ≡ found hotel)) ⊎ ((e : SagaError) × (f ≡ missed e))
  Fetched-cases (found hotel) = inl (hotel, refl)
  Fetched-cases (missed e) = inr (e, refl)

  validate_hotel_data-eq-none :
      (id : String) (c m : HotelContext W)
      → c.hotel_id ≡ some id
      → validate_hotel_data services c ≡ (m, none)
      → (hotel : HotelData) × (w : W) × (services.get_hotel id c.world ≡ (w, found hotel))
        × (services.validate_hotel_data id w ≡ (m.world, none))
        × (m.hotel ≡ some hotel)
  unfolding validate_hotel_data check_hotel
  validate_hotel_data-eq-none id c m h e = elim (Fetched-cases (services.get_hotel id c.world).1) [
    | inl (hotel, f) ↦
        (hotel, (services.get_hotel id c.world).0, ground arith, ground arith, ground arith)
    | inr (x, f) ↦ absurd (ground arith)
  ]

  module _ (c m : HotelContext W) (hotel : HotelData) (has : c.hotel ≡ some hotel) where
    validate_address-eq-none :
        validate_address services c ≡ (m, none)
        → (services.validate_hotel_address hotel.address c.world ≡ (m.world, none))
          × (m.hotel ≡ some hotel)
    unfolding validate_address
    validate_address-eq-none e = ground arith

    validate_contact-eq-none :
        validate_contact services c ≡ (m, none)
        → (services.validate_hotel_contact hotel.contact_info c.world ≡ (m.world, none))
          × (m.hotel ≡ some hotel)
    unfolding validate_contact
    validate_contact-eq-none e = ground arith

    validate_license-eq-none :
        validate_license services c ≡ (m, none)
        → (services.validate_hotel_license hotel.license c.world ≡ (m.world, none))
          × (m.hotel ≡ some hotel)
    unfolding validate_license
    validate_license-eq-none e = ground arith

    index_hotel-eq-none :
        index_hotel services c ≡ (m, none)
        → (services.index_hotel (to_domain_hotel services hotel) c.world ≡ (m.world, none))
          × (m.hotel ≡ some hotel)
    unfolding index_hotel
    index_hotel-eq-none e = ground arith

    notify_completion-eq-none :
        notify_completion services c ≡ (m, none)
        → (services.update_hotel_status hotel.id "active" c.world ≡ (m.world, none))
          × (m.hotel ≡ some hotel)
    unfolding notify_completion
    notify_completion-eq-none e = ground arith

  -- The hotel in the data has been checked and indexed, and then made active, from the first state on.
  abbrev pub Onboarded : String → W → HotelContext W → Type ℓ
  Onboarded hotel_id w c =
      (hotel : HotelData) × (m : W) × Indexes services hotel_id hotel w m
      × (services.update_hotel_status hotel.id "active" m ≡ (c.world, none))
      × (c.hotel ≡ some hotel)

  Runs-Onboarded :
      (id : String) (c t : HotelContext W)
      → c.hotel_id ≡ some id
      → Runs (hotel_steps services) c t
      → Onboarded id c.world t
  unfolding hotel_steps
  Runs-Onboarded id c t has (m1, e1, (m2, e2, (m3, e3, (m4, e4, (m5, e5, (m6, e6, r)))))) =
      let (hotel, w, got, valid, h1) = validate_hotel_data-eq-none id c m1 has e1 in
      let (address, h2) = validate_address-eq-none m1 m2 hotel h1 e2 in
      let (contact, h3) = validate_contact-eq-none m2 m3 hotel h2 e3 in
      let (license, h4) = validate_license-eq-none m3 m4 hotel h3 e4 in
      let (index, h5) = index_hotel-eq-none m4 m5 hotel h4 e5 in
      let (active, h6) = notify_completion-eq-none m5 m6 hotel h5 e6 in
      subst (Onboarded id c.world) r (
        hotel,
        m5.world,
        (w, m1.world, m2.world, m3.world, m4.world, got, valid, address, contact, license, index),
        active,
        h6,
      )

  -- Where a start returns no error, the hotel of the event has been fetched, its data, address, contact
  -- and license have been found valid, it has been indexed and then made active, in this order, and no
  -- other service was called.
  pub hotel_start-Onboarded :
      (event : Event) (saga saga' : Saga (HotelContext W))
      → hotel_start services event saga ≡ returned saga' none
      → Onboarded event.aggregate_id saga.state.world saga'.state
  unfolding hotel_start
  hotel_start-Onboarded event saga saga' h = elim (Bool-cases (is_pending saga.status)) [
    | inl p ↦ elim (Bool-cases (is_hotel_created event.event_type)) [
      | inl q ↦
          Runs-Onboarded event.aggregate_id (hotel_triggered event saga.state) saga'.state refl (
            execute_steps-Runs (hotel_steps services) (hotel_triggered event saga.state) saga'
              (rw (p, q) at h))
      | inr q ↦ absurd (ground arith)
    ]
    | inr p ↦ absurd (ground arith)
  ]
