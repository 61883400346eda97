-- ===== src/Saga/Review/Laws.antt =====
-- What a review processing saga does from its start to its end, and on the events that follow.
use hotel_reviews_microservi.Base.{◌≡◌, refl, ◌⊎◌, inl, inr, true, false, Option, some, List}
use hotel_reviews_microservi.Saga.Types.{
  Event, completed, failed, SagaError, message, Saga, SagaStep, Returned, returned, is_pending,
  no_error,
}
use hotel_reviews_microservi.Saga.Steps.Laws.{Outcome, execute_steps-Outcome}
use hotel_reviews_microservi.Saga.Review.Data.{Context, Services}
use hotel_reviews_microservi.Saga.Review.Steps.{review_steps}
use hotel_reviews_microservi.Saga.Review.{is_review_created, triggered, start}

module _ {ℓ} {W : Type ℓ} {Rating Uuid : Type 0} (services : Services W Rating Uuid) where
  -- What a call leaves and returns, where it ends a saga: completed without an error, or failed with
  -- one; and a start by a later event does not change the saga.
  abbrev pub Ends : Event → Returned (Saga (Context W Rating)) → Type ℓ
  Ends later r =
      (saga : Saga (Context W Rating)) × (e : Option SagaError) × (r ≡ returned saga e)
      × ((saga.status ≡ completed) × (no_error e ≡ true)
          ⊎ (saga.status ≡ failed) × (no_error e ≡ false))
      × (start services later saga ≡ returned saga (some (message "saga is not in pending status")))

  Outcome-Ends :
      (steps : List (SagaStep (Context W Rating))) (c : Context W Rating)
      (r : Returned (Saga (Context W Rating)))
      → (later : Event) → Outcome steps c r
      → Ends later r
  unfolding start
  Outcome-Ends steps c r later (Outcome.completes t runs) = (_, _, refl, inl (refl, refl), refl)
  Outcome-Ends steps c r later (Outcome.aborts before after step m m' e eq runs x) =
      (_, _, refl, inr (refl, refl), refl)

  -- The start of a pending saga by the event that a review is created returns, and ends the saga: it
  -- is completed and there is no error, or it is failed and there is an error, and it cannot be
  -- started again by any event.
  pub start-Ends :
      (event later : Event) (saga : Saga (Context W Rating))
      → is_pending saga.status ≡ true
      → is_review_created event.event_type ≡ true
      → Ends later (start services event saga)
  unfolding start
  start-Ends event later saga p c =
      rw (p, c)
        (Outcome-Ends (review_steps services) (triggered event saga.state) _ later
          (execute_steps-Outcome (review_steps services) (triggered event saga.state)))
