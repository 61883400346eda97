-- ===== src/Saga/Review/Effects.antt =====
-- Which services a review processing saga calls, and what it leaves when it fails half-way.
use Prim.Native.String.{String}
use text.Mathlib.Text.{◌==◌}
use hotel_reviews_microservi.Base.{
  ◌≡◌, refl, Bool, not, true, false, ◌||◌, Option, none, some, arith,
}
use hotel_reviews_microservi.Saga.Types.{
  Event, failed, SagaError, wrap, step_failed, Saga, returned, is_pending,
}
use hotel_reviews_microservi.Saga.Steps.{compensate_steps, run_steps, execute_steps}
use hotel_reviews_microservi.Saga.Steps.Agree.{AllAgree, nothing, both, execute_steps-agree}
use hotel_reviews_microservi.Saga.Review.Data.{
  Result, ok, err, ReviewData, ModerationResult, DomainReview, Context, Services,
}
use hotel_reviews_microservi.Saga.Review.Steps.{
  validate_review, check_review, moderate_content, report_moderation, update_analytics,
  index_review, send_notifications, finalize_review, compensate_moderate_content,
  compensate_index_review, compensate_finalize_review, review_steps,
}
use hotel_reviews_microservi.Saga.Review.{
  is_review_created, triggered, new_review_processing_saga, start,
}

abbrev pub is_rejected : Result ModerationResult → Bool
is_rejected (err e) = true
is_rejected (ok result) = not result.approved

abbrev none_approved : Option ModerationResult → Bool
none_approved none = true
none_approved (some result) = not result.approved

module _ {ℓ} {W : Type ℓ} {Rating Uuid : Type 0} (services : Services W Rating Uuid) where
  abbrev NotApproved : Context W Rating → Type 0
  NotApproved c = none_approved c.moderation_result ≡ true

  module _ (metrics : String → Rating → W → W × Option SagaError)
      (activity : String → String → W → W × Option SagaError)
      (index : DomainReview Rating Uuid → W → W × Option SagaError)
      (rejects : (content : String) (w : W)
        → is_rejected (services.moderate_content content w).1 ≡ true) where
    abbrev pub with_others : Services W Rating Uuid
    with_others = record services {
      update_hotel_metrics = metrics;
      track_user_activity = activity;
      index_review = index;
    }

    validate_review-NotApproved :
        (c : Context W Rating) → NotApproved c → NotApproved (validate_review services c).0
    unfolding validate_review check_review
    validate_review-NotApproved c h = ground arith

    moderate_content-NotApproved :
        (c : Context W Rating) → NotApproved c → NotApproved (moderate_content services c).0
    unfolding moderate_content report_moderation
    moderate_content-NotApproved c h = grind (arith, rejects)

    later-NotApproved :
        (c : Context W Rating)
        → NotApproved c
        → ((update_analytics with_others c ≡ update_analytics services c)
            × NotApproved (update_analytics with_others c).0)
          × ((index_review with_others c ≡ index_review services c)
              × NotApproved (index_review with_others c).0)
          × NotApproved (send_notifications services c).0
          × NotApproved (finalize_review services c).0
    unfolding update_analytics index_review send_notifications finalize_review
    later-NotApproved c h = ground arith

    review_steps-agree : AllAgree NotApproved (review_steps with_others) (review_steps services)
    unfolding review_steps validate_review check_review moderate_content report_moderation
        update_analytics index_review send_notifications finalize_review compensate_moderate_content
        compensate_index_review compensate_finalize_review
    review_steps-agree =
        both
          (record {
            same_id = refl;
            same_compensate = λ c. refl;
            same_execute = λ c h. refl;
            keeps = validate_review-NotApproved;
          })
          (both
            (record {
              same_id = refl;
              same_compensate = λ c. refl;
              same_execute = λ c h. refl;
              keeps = moderate_content-NotApproved;
            })
            (both
              (record {
                same_id = refl;
                same_compensate = λ c. refl;
                same_execute = λ c h. (later-NotApproved c h).0.0;
                keeps = λ c h. (later-NotApproved c h).0.1;
              })
              (both
                (record {
                  same_id = refl;
                  same_compensate = λ c. refl;
                  same_execute = λ c h. (later-NotApproved c h).1.0;
                  keeps = λ c h. (later-NotApproved c h).1.1;
                })
                (both
                  (record {
                    same_id = refl;
                    same_compensate = λ c. refl;
                    same_execute = λ c h. refl;
                    keeps = λ c h. (later-NotApproved c h).2;
                  })
                  (both
                    (record {
                      same_id = refl;
                      same_compensate = λ c. refl;
                      same_execute = λ c h. refl;
                      keeps = λ c h. (later-NotApproved c h).3;
                    })
                    nothing)))))

    -- Where the moderation approves of nothing, the services of the analytics and the index make no
    -- difference to the start of a new saga: with any others in their place it ends in the same way.
    pub start_rejected :
        (event : Event) (w : W)
        → start with_others event (new_review_processing_saga w)
          ≡ start services event (new_review_processing_saga w)
    unfolding start
    start_rejected event w = ground (
      arith,
      execute_steps-agree NotApproved (review_steps with_others) (review_steps services)
          (triggered event (new_review_processing_saga w).state) review_steps-agree refl,
    )

  -- Where the moderation approves and its approval is recorded, but the status of the review cannot
  -- be updated, the saga is failed, and no service is called any more: the approval stays.
  pub start_approval_stays :
      (event : Event) (saga : Saga (Context W Rating)) (w1 w2 w3 w4 : W)
      (review : ReviewData Rating) (result : ModerationResult) (e : SagaError)
      → is_pending saga.status ≡ true
      → is_review_created event.event_type ≡ true
      → services.get_review event.aggregate_id saga.state.world ≡ (w1, ok review)
      → (review.content == "") ≡ false
      → (services.below_one review.rating || services.above_five review.rating) ≡ false
      → services.moderate_content review.content w1 ≡ (w2, ok result)
      → result.approved ≡ true
      → services.approve_content review.id w2 ≡ (w3, none)
      → services.update_review_status review.id "approved" w3 ≡ (w4, some e)
      → start services event saga
        ≡ returned
            (record {
              status = failed;
              state = record (triggered event saga.state) {
                review = some review;
                moderation_result = some result;
                world = w4;
              };
            })
            (some (step_failed "moderate_content" (wrap "failed to update review status" e)))
  unfolding start execute_steps run_steps compensate_steps review_steps validate_review check_review
      moderate_content report_moderation
  start_approval_stays event saga w1 w2 w3 w4 review result e p c g ne v m a ap' u = ground arith
