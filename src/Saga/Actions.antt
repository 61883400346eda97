-- ===== src/Saga/Actions.antt =====
-- How the steps of the sagas chain their calls, and put an error into a text.
use Prim.Native.String.{String}
use hotel_reviews_microservi.Base.{Option, none, some}
use hotel_reviews_microservi.Saga.Types.{SagaError, wrap, Action}

-- `if err := m; err != nil { return err }`, and then `k`.
infixl 5 ◌>>◌
abbrev pub ◌>>◌ {ℓ} : {S : Type ℓ} → Action S → Action S → Action S
◌>>◌ m k s = let (s', e) = m s in elim e [ none ↦ k s' | some x ↦ (s', some x) ]

abbrev pub within : Option SagaError → String → Option SagaError
within none text = none
within (some e) text = some (wrap text e)
