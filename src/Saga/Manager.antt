-- ===== src/Saga/Manager.antt =====
-- `SagaManager` of internal/events/event_bus.go, over the sagas' own interface: the two sagas behind it
-- are a parameter here, with the services that they share as the state `W`.
pub mod Laws
mod Examples
use Prim.Native.String.{String}
use hotel_reviews_microservi.Base.{
  Bool, true, false, Option, none, some, List, [], ◌∷◌, if◌then◌else◌,
}
use hotel_reviews_microservi.Saga.Types.{
  Event, SagaStatus, pending, in_progress, completed, failed, cancelled, SagaError, wrap,
}
use hotel_reviews_microservi.Base.Maps.{put}

pub record SagaInterface {ℓ κ} (G : Type ℓ) (W : Type κ) : Type (ℓ ⊔ κ) where
  pub start : Event → G → W → G × W × Option SagaError
  pub handle : Event → G → W → G × W × Option SagaError
  pub get_saga_id : G → String
  pub get_status : G → SagaStatus

abbrev pub is_over : SagaStatus → Bool
is_over pending = false
is_over in_progress = false
is_over completed = true
is_over failed = true
is_over cancelled = true

module _ {ℓ κ} {G : Type ℓ} {W : Type κ} (sagas : SagaInterface G W) where
  -- The map holds the saga itself, so it shows what the start has made of it.
  unfoldable pub start_saga :
      G → Event → List (String × G) → W → List (String × G) × W × Option SagaError
  start_saga saga event m w =
      let (saga', w', e) = sagas.start event saga w in (put (sagas.get_saga_id saga) saga' m, w', e)

  -- The loop over the sagas, in the order in which they are ranged over.
  unfoldable pub handle_event :
      Event → List (String × G) → W → List (String × G) × W × Option SagaError
  handle_event event [] w = ([], w, none)
  handle_event event (entry ∷ m) w =
      let (saga', w', err) = sagas.handle event entry.1 w in
      elim err [
        | some e ↦ ((entry.0, saga') ∷ m, w', some (wrap (sagas.get_saga_id entry.1) e))
        | none ↦ let (m', w'', e) = handle_event event m w' in ((entry.0, saga') ∷ m', w'', e)
      ]

  unfoldable pub remove_completed_sagas : List (String × G) → List (String × G)
  remove_completed_sagas [] = []
  remove_completed_sagas (entry ∷ m) =
      let rest = remove_completed_sagas m in
      if is_over (sagas.get_status entry.1) then rest else entry ∷ rest
