-- ===== src/Saga/Review/Completed.antt =====
-- What is true of a review whose saga has been completed.
use text.Mathlib.Text.{◌==◌}
use hotel_reviews_microservi.Base.{
  ◌≡◌, subst, Bool, Bool-cases, true, false, ◌&&◌, not, Option, Option-cases, inl, inr, none, some,
  arith, if◌then◌else◌,
}
use hotel_reviews_microservi.Saga.Types.{Event, Saga, returned, is_pending}
use hotel_reviews_microservi.Saga.Steps.Laws.{Runs, execute_steps-Runs}
use hotel_reviews_microservi.Saga.Review.Data.{ReviewData, ModerationResult, Context, Services}
use hotel_reviews_microservi.Saga.Review.Steps.{
  validate_review, check_review, moderate_content, report_moderation, update_analytics,
  index_review, send_notifications, finalize_review, review_steps,
}
use hotel_reviews_microservi.Saga.Review.{is_review_created, triggered, start}

module _ {ℓ} {W : Type ℓ} {Rating Uuid : Type 0} (services : Services W Rating Uuid) where
  -- The checks of the review that a saga makes.
  abbrev pub is_valid : ReviewData Rating → Bool
  is_valid review =
      not (review.content == "")
      && not (services.below_one review.rating)
      && not (services.above_five review.rating)

  abbrev is_valid? : Option (ReviewData Rating) → Bool
  is_valid? none = false
  is_valid? (some review) = is_valid review

  validate_review-valid :
      (c m : Context W Rating) → validate_review services c ≡ (m, none) → is_valid? m.review ≡ true
  unfolding validate_review check_review
  validate_review-valid c m h = ground arith

  moderate_content-review :
      (c m : Context W Rating) → moderate_content services c ≡ (m, none) → m.review ≡ c.review
  unfolding moderate_content report_moderation
  moderate_content-review c m h = ground arith

  update_analytics-review :
      (c m : Context W Rating) → update_analytics services c ≡ (m, none) → m.review ≡ c.review
  unfolding update_analytics
  update_analytics-review c m h = ground arith

  index_review-review :
      (c m : Context W Rating) → index_review services c ≡ (m, none) → m.review ≡ c.review
  unfolding index_review
  index_review-review c m h = ground arith

  send_notifications-review :
      (c m : Context W Rating) → send_notifications services c ≡ (m, none) → m.review ≡ c.review
  unfolding send_notifications
  send_notifications-review c m h = ground arith

  -- The review is in the data and valid, and the last that was done is to set its status to what the
  -- moderation decided.
  abbrev pub Finalized : Context W Rating → Type ℓ
  Finalized c =
      (review : ReviewData Rating) × (result : ModerationResult) × (w : W) × (c.review
        ≡ some review)
      × (is_valid review ≡ true)
      × (c.moderation_result ≡ some result)
      × (services.update_review_status review.id
            (if result.approved then "approved" else "rejected") w
          ≡ (c.world, none))

  finalize_review-Finalized :
      (c m : Context W Rating)
      → finalize_review services c ≡ (m, none)
      → is_valid? c.review ≡ true
      → Finalized m
  unfolding finalize_review
  finalize_review-Finalized c m h v = elim (Option-cases c.review) [
    | inl e ↦ absurd (ground arith)
    | inr (review, e) ↦ elim (Option-cases c.moderation_result) [
      | inl f ↦ absurd (ground arith)
      | inr (result, f) ↦
          (review, result, c.world, ground arith, ground arith, ground arith, ground arith)
    ]
  ]

  Runs-Finalized : (c t : Context W Rating) → Runs (review_steps services) c t → Finalized t
  unfolding review_steps
  Runs-Finalized c t (m1, e1, (m2, e2, (m3, e3, (m4, e4, (m5, e5, (m6, e6, r)))))) =
      let v : is_valid? m5.review ≡ true = ground (
        arith,
        validate_review-valid c m1 e1,
        moderate_content-review m1 m2 e2,
        update_analytics-review m2 m3 e3,
        index_review-review m3 m4 e4,
        send_notifications-review m4 m5 e5,
      ) in
      subst Finalized r (finalize_review-Finalized m5 m6 e6 v)

  -- Where a start returns no error, the review of the saga is valid, and the last call of a service
  -- has set the status of this review to what the moderation decided.
  pub start-Finalized :
      (event : Event) (saga saga' : Saga (Context W Rating))
      → start services event saga ≡ returned saga' none
      → Finalized saga'.state
  unfolding start
  start-Finalized event saga saga' h = elim (Bool-cases (is_pending saga.status)) [
    | inl p ↦ elim (Bool-cases (is_review_created event.event_type)) [
      | inl q ↦ Runs-Finalized (triggered event saga.state) saga'.state (
          execute_steps-Runs (review_steps services) (triggered event saga.state) saga'
            (rw (p, q) at h))
      | inr q ↦ absurd (ground arith)
    ]
    | inr p ↦ absurd (ground arith)
  ]
