-- ===== src/Saga/Hotel/Data.antt =====
-- What the hotel onboarding saga of internal/events/sagas.go works on: its data, and the interfaces of
-- the services that it calls, which are parameters over any state `W` of their own.
use Prim.Native.String.{String}
use hotel_reviews_microservi.Base.{Option}
use hotel_reviews_microservi.Saga.Types.{SagaError, Event}

pub record HotelData : Type 0 where
  pub id : String
  pub name : String
  pub address : String
  pub contact_info : String
  pub license : String

-- `GetHotel` returns a hotel and a nil error, or an error.
pub data Fetched : Type 0 where
  found : HotelData → Fetched
  missed : SagaError → Fetched

-- The fields of the hotel that is indexed.
pub record DomainHotel (Uuid : Type 0) : Type 0 where
  pub id : Uuid
  pub name : String

-- The saga's `Data`, whose values under their keys have one type each, and the services' state.
pub record HotelContext {ℓ} (W : Type ℓ) : Type ℓ where
  pub hotel_id : Option String
  pub trigger_event : Option Event
  pub hotel : Option HotelData
  pub world : W

pub record HotelServices {ℓ} (W : Type ℓ) (Uuid : Type 0) : Type ℓ where
  pub get_hotel : String → W → W × Fetched
  pub update_hotel_status : String → String → W → W × Option SagaError
  pub validate_hotel_data : String → W → W × Option SagaError
  pub validate_hotel_address : String → W → W × Option SagaError
  pub validate_hotel_contact : String → W → W × Option SagaError
  pub validate_hotel_license : String → W → W × Option SagaError
  pub index_hotel : DomainHotel Uuid → W → W × Option SagaError
  pub delete_hotel_index : String → W → W × Option SagaError
  -- `uuid.Parse` without its error.
  pub parse_uuid : String → Uuid
