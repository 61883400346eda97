-- ===== src/Saga/Review/Steps.antt =====
-- The six steps of the review processing saga, and their compensations.
use Prim.Native.String.{String, ◌++◌}
use text.Mathlib.Text.{◌==◌}
use hotel_reviews_microservi.Base.{◌||◌, Option, none, some, List, [], ◌∷◌, if◌then◌else◌}
use hotel_reviews_microservi.Saga.Types.{SagaError, message, wrap, Action, SagaStep}
use hotel_reviews_microservi.Saga.Actions.{◌>>◌, within}
use hotel_reviews_microservi.Saga.Review.Data.{
  ok, err, ReviewData, ModerationResult, DomainReview, Context, Services,
}

module _ {ℓ} {W : Type ℓ} {Rating : Type 0} where
  abbrev nothing : Action (Context W Rating)
  nothing c = (c, none)

  abbrev throw : SagaError → Action (Context W Rating)
  throw e c = (c, some e)

  -- A service call, whose error is returned as it is, within a text, or not at all.
  abbrev call : (W → W × Option SagaError) → Action (Context W Rating)
  call f c = let (w, e) = f c.world in (record c { world = w }, e)

  abbrev call_within : String → (W → W × Option SagaError) → Action (Context W Rating)
  call_within text f c = let (w, e) = f c.world in (record c { world = w }, within e text)

  abbrev call_ignoring : (W → W × Option SagaError) → Action (Context W Rating)
  call_ignoring f c = (record c { world = (f c.world).0 }, none)

  -- The data that an earlier step has left, or an error.
  abbrev with_review : (ReviewData Rating → Action (Context W Rating)) → Action (Context W Rating)
  with_review k c = elim c.review [
    | none ↦ (c, some (message "missing review data in saga"))
    | some review ↦ k review c
  ]

  abbrev with_result :
      (ReviewData Rating → ModerationResult → Action (Context W Rating)) → Action (Context W Rating)
  with_result k = with_review λ review c. elim c.moderation_result [
    | none ↦ (c, some (message "missing moderation result in saga"))
    | some result ↦ k review result c
  ]

  abbrev if_review : (ReviewData Rating → Action (Context W Rating)) → Action (Context W Rating)
  if_review k c = elim c.review [ none ↦ (c, none) | some review ↦ k review c ]

abbrev first_reason : List String → String
first_reason [] = "Content did not pass moderation"
first_reason (reason ∷ reasons) = reason

module _ {ℓ} {W : Type ℓ} {Rating Uuid : Type 0} (services : Services W Rating Uuid) where
  -- `validateReview`, once the review is fetched.
  unfoldable pub check_review : ReviewData Rating → Action (Context W Rating)
  check_review review c =
      if review.content == ""
      then (c, some (message "review content is empty"))
      else if services.below_one review.rating || services.above_five review.rating
      then (c, some (message "invalid rating"))
      else (record c { review = some review }, none)

  unfoldable pub validate_review : Action (Context W Rating)
  validate_review c = elim c.review_id [
    | none ↦ (c, some (message "missing review_id in saga data"))
    | some id ↦
        let (w, fetched) = services.get_review id c.world in
        let c' : Context W Rating = record c { world = w } in
        elim fetched [
          | err e ↦ (c', some (wrap "failed to get review" e))
          | ok review ↦ check_review review c'
        ]
  ]

  -- `moderateContent`, once the content is moderated.
  unfoldable pub report_moderation :
      ReviewData Rating → ModerationResult → Action (Context W Rating)
  report_moderation review result =
      if result.approved
      then (do
        call_within "failed to approve content" (services.approve_content review.id)
        call_within "failed to update review status"
            (services.update_review_status review.id "approved"))
      else (do
        call_within "failed to reject content"
            (services.reject_content review.id (first_reason result.reasons))
        call_within "failed to update review status"
            (services.update_review_status review.id "rejected"))

  unfoldable pub moderate_content : Action (Context W Rating)
  moderate_content = with_review λ review c.
      let (w, moderated) = services.moderate_content review.content c.world in
      let c' : Context W Rating = record c { world = w } in
      elim moderated [
        | err e ↦ (c', some (wrap "content moderation failed" e))
        | ok result ↦
            report_moderation review result (record c' { moderation_result = some result })
      ]

  unfoldable pub compensate_moderate_content : Action (Context W Rating)
  compensate_moderate_content =
      if_review λ review. call (services.update_review_status review.id "pending")

  unfoldable pub update_analytics : Action (Context W Rating)
  update_analytics = with_result λ review result.
      if result.approved
      then (do
        call_within "failed to update hotel metrics"
            (services.update_hotel_metrics review.hotel_id review.rating)
        call_within "failed to track user activity"
            (services.track_user_activity review.user_id "review_approved"))
      else nothing

  unfoldable pub to_domain_review : ReviewData Rating → DomainReview Rating Uuid
  to_domain_review review = record {
    id = services.parse_uuid review.id;
    hotel_id = services.parse_uuid review.hotel_id;
    user_id = if review.user_id == "" then none else some (services.parse_uuid review.user_id);
    comment = review.content;
    rating = review.rating;
  }

  unfoldable pub index_review : Action (Context W Rating)
  index_review = with_result λ review result.
      if result.approved
      then call_within "failed to index review" (services.index_review (to_domain_review review))
      else nothing

  unfoldable pub compensate_index_review : Action (Context W Rating)
  compensate_index_review = if_review λ review. call (services.delete_review_index review.id)

  unfoldable pub send_notifications : Action (Context W Rating)
  send_notifications = with_result λ review result.
      if result.approved
      then call_ignoring (
          services.send_push_notification review.user_id "Review Approved"
            ("Your review for hotel " ++ review.hotel_id ++ " has been approved and is now live!"))
      else call_ignoring (
          services.send_push_notification review.user_id "Review Rejected"
            "Your review did not pass moderation. Please review our content guidelines and try again.")

  unfoldable pub finalize_review : Action (Context W Rating)
  finalize_review = with_result λ review result.
      call_within "failed to finalize review status" (
        services.update_review_status review.id
          (if result.approved then "approved" else "rejected"))

  unfoldable pub compensate_finalize_review : Action (Context W Rating)
  compensate_finalize_review =
      if_review λ review. call (services.update_review_status review.id "pending")

  -- The steps that `NewReviewProcessingSaga` defines.
  unfoldable pub review_steps : List (SagaStep (Context W Rating))
  review_steps =
      record { step_id = "validate_review"; execute = validate_review; compensate = nothing }
      ∷ record {
        step_id = "moderate_content";
        execute = moderate_content;
        compensate = compensate_moderate_content;
      }
      ∷ record { step_id = "update_analytics"; execute = update_analytics; compensate = nothing }
      ∷ record {
        step_id = "index_review";
        execute = index_review;
        compensate = compensate_index_review;
      }
      ∷ record {
        step_id = "send_notifications";
        execute = send_notifications;
        compensate = nothing;
      }
      ∷ record {
        step_id = "finalize_review";
        execute = finalize_review;
        compensate = compensate_finalize_review;
      }
      ∷ []
