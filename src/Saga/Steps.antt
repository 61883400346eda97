-- ===== src/Saga/Steps.antt =====
-- `executeSteps`, `compensateSteps` and `handleSystemError` of internal/events/sagas.go. The two sagas
-- have the same `executeSteps` and `compensateSteps`, up to the texts of the log and of the error.
pub mod Laws
pub mod Agree
use Prim.Native.String.{String}
use hotel_reviews_microservi.Base.{
  ℕ, zero, suc, Option, none, some, List, [], ◌∷◌, length, get_elem?,
}
use hotel_reviews_microservi.Saga.Types.{
  SagaStatus, completed, failed, SagaError, step_failed, SagaStep, Saga, Returned, returned,
  panicked,
}

module _ {ℓ} {S : Type ℓ} where
  -- The steps with the indices below the number, from the last one down, as far as the first error.
  unfoldable pub compensate_steps : List (SagaStep S) → ℕ → S → Returned S
  compensate_steps steps zero s = returned s none
  compensate_steps steps (suc i) s = elim (get_elem? steps i) [
    | none ↦ panicked
    | some step ↦
        let (s', err) = step.compensate s in
        elim err [ none ↦ compensate_steps steps i s' | some e ↦ returned s' (some e) ]
  ]

  -- The error of the compensation is only logged.
  abbrev pub abort : String → SagaError → Returned S → Returned (Saga S)
  abort step_id e (returned s _) =
      returned (record { status = failed; state = s }) (some (step_failed step_id e))
  abort step_id e panicked = panicked

  -- The loop over the steps, of which the first `i` are done.
  unfoldable pub run_steps : List (SagaStep S) → List (SagaStep S) → ℕ → S → Returned (Saga S)
  run_steps steps [] i s = returned (record { status = completed; state = s }) none
  run_steps steps (step ∷ todo) i s =
      let (s', err) = step.execute s in
      elim err [
        | none ↦ run_steps steps todo (suc i) s'
        | some e ↦ abort step.step_id e (compensate_steps steps i s')
      ]

  unfoldable pub execute_steps : List (SagaStep S) → S → Returned (Saga S)
  execute_steps steps s = run_steps steps steps 0 s

  abbrev pub with_status : SagaStatus → Returned S → Returned (Saga S)
  with_status status (returned s e) = returned (record { status = status; state = s }) e
  with_status status panicked = panicked

  unfoldable pub handle_system_error : List (SagaStep S) → S → Returned (Saga S)
  handle_system_error steps s = with_status failed (compensate_steps steps (length steps) s)
