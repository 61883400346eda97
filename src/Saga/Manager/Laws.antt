-- ===== src/Saga/Manager/Laws.antt =====
-- Which sagas the manager keeps, and which see an event.
use Prim.Native.String.{String}
use hotel_reviews_microservi.Base.{
  ◌≡◌, ◌⊎◌, refl, Bool-cases, false, none, some, List, [], ◌∷◌, ◌++◌, arith, inl, inr,
}
use hotel_reviews_microservi.Saga.Types.{
  SagaStatus, pending, in_progress, completed, failed, cancelled, Event, SagaError, wrap,
}
use hotel_reviews_microservi.Saga.Manager.{
  SagaInterface, is_over, handle_event, remove_completed_sagas,
}
use hotel_reviews_microservi.Base.Maps.{get, AllValues}

-- A saga that is not over yet.
abbrev pub IsRunning : SagaStatus → Type 0
IsRunning status = (status ≡ pending) ⊎ (status ≡ in_progress)

is_over-false : (status : SagaStatus) → is_over status ≡ false → IsRunning status
is_over-false pending h = inl refl
is_over-false in_progress h = inr refl
is_over-false completed h = absurd (cc)
is_over-false failed h = absurd (cc)
is_over-false cancelled h = absurd (cc)

IsRunning-is_over : (status : SagaStatus) → IsRunning status → is_over status ≡ false
IsRunning-is_over status (inl e) = rw e
IsRunning-is_over status (inr e) = rw e

module _ {ℓ κ} {G : Type ℓ} {W : Type κ} (sagas : SagaInterface G W) where
  removed :
      (m : List (String × G))
      → AllValues (λ saga. IsRunning (sagas.get_status saga)) (remove_completed_sagas sagas m)
  unfolding remove_completed_sagas
  removed [] = tt
  removed (entry ∷ m) = elim (Bool-cases (is_over (sagas.get_status entry.1))) [
    | inl e ↦ rw e (removed m)
    | inr e ↦ rw e (is_over-false (sagas.get_status entry.1) e, removed m)
  ]

  kept :
      (key : String) (saga : G) (m : List (String × G))
      → get key m ≡ some saga
      → is_over (sagas.get_status saga) ≡ false
      → get key (remove_completed_sagas sagas m) ≡ some saga
  unfolding remove_completed_sagas get
  kept key saga [] h o = h
  kept key saga (entry ∷ m) h o = ground (arith, kept key saga m)

  -- After the removal every saga that is left is pending or in progress, and a pending or running saga
  -- that was found under its key is still found there.
  pub remove_completed_sagas_lem :
      (key : String) (saga : G) (m : List (String × G))
      → get key m ≡ some saga
      → IsRunning (sagas.get_status saga)
      → AllValues (λ s. IsRunning (sagas.get_status s)) (remove_completed_sagas sagas m)
        × (get key (remove_completed_sagas sagas m) ≡ some saga)
  remove_completed_sagas_lem key saga m h r =
      (removed m, kept key saga m h (IsRunning-is_over (sagas.get_status saga) r))

  -- The sagas that are ranged over first handle the event, and then the others do, where the first
  -- return no error.
  handle_event-append :
      (event : Event) (before after : List (String × G)) (w : W)
      → (handle_event sagas event before w).2 ≡ none
      → let first = handle_event sagas event before w in
        let second = handle_event sagas event after first.1 in
        handle_event sagas event (before ++ after) w ≡ (first.0 ++ second.0, second.1, second.2)
  unfolding handle_event
  handle_event-append event [] after w h = refl
  handle_event-append event (entry ∷ before) after w h =
      ground (arith, handle_event-append event before after (sagas.handle event entry.1 w).1)

  -- Where some sagas handle an event without an error, and the next one that is ranged over with an
  -- error, the event is answered with this error, and the sagas that come after do not see it.
  pub handle_event_stops :
      (event : Event) (before after : List (String × G)) (entry : String × G) (w : W)
      (e : SagaError)
      → (handle_event sagas event before w).2 ≡ none
      → (sagas.handle event entry.1 (handle_event sagas event before w).1).2 ≡ some e
      → let first = handle_event sagas event before w in
        let stop = sagas.handle event entry.1 first.1 in
        handle_event sagas event (before ++ (entry ∷ after)) w ≡ (
          first.0 ++ ((entry.0, stop.0) ∷ after),
          stop.1,
          some (wrap (sagas.get_saga_id entry.1) e),
        )
  unfolding handle_event
  handle_event_stops event before after entry w e h x =
      ground (arith, handle_event-append event before (entry ∷ after) w)
