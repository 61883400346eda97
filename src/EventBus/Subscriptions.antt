-- ===== src/EventBus/Subscriptions.antt =====
-- What subscriptions do to the handlers that an event reaches.
use hotel_reviews_microservi.Base.{
  ℕ, suc, ◌≡◌, refl, sym, ap, ◌∙◌, Bool, true, false, none, some, List, [], ◌∷◌, ◌++◌,
  if◌then◌else◌, ◌==◌, arith, replicate, Bool-cases, inl, inr,
}
use mathlib.Core.List.{append-nil, append_assoc}
use hotel_reviews_microservi.Saga.Types.{
  EventType, user_registered, user_updated, user_deleted, hotel_created, hotel_updated,
  hotel_deleted, review_created, review_updated, review_deleted, review_moderated, file_uploaded,
  file_processed, file_deleted, page_view, search_performed, booking_attempt, system_health,
  system_error, system_metric,
}
use hotel_reviews_microservi.EventBus.Bus.{
  type_number, same_type, MemoryEventBus, set_handlers, subscribe_types, remove_handler,
  unsubscribe_types, subscribe, unsubscribe, publish, start, stop,
}

-- The event type of a number.
type_at : ℕ → EventType
type_at n =
    if n == 0
    then user_registered
    else (if n == 1
        then user_updated
        else (if n == 2
            then user_deleted
            else (if n == 3
                then hotel_created
                else (if n == 4
                    then hotel_updated
                    else (if n == 5
                        then hotel_deleted
                        else (if n == 6
                            then review_created
                            else (if n == 7
                                then review_updated
                                else (if n == 8
                                    then review_deleted
                                    else (if n == 9
                                        then review_moderated
                                        else (if n == 10
                                            then file_uploaded
                                            else (if n == 11
                                                then file_processed
                                                else (if n == 12
                                                    then file_deleted
                                                    else (if n == 13
                                                        then page_view
                                                        else (if n == 14
                                                            then search_performed
                                                            else (if n == 15
                                                            then booking_attempt
                                                            else (if n == 16
                                                            then system_health
                                                            else (if n == 17
                                                            then system_error
                                                            else (system_metric))))))))))))))))))

type_at-type_number : (t : EventType) → type_at (type_number t) ≡ t
unfolding type_at
type_at-type_number user_registered = refl
type_at-type_number user_updated = refl
type_at-type_number user_deleted = refl
type_at-type_number hotel_created = refl
type_at-type_number hotel_updated = refl
type_at-type_number hotel_deleted = refl
type_at-type_number review_created = refl
type_at-type_number review_updated = refl
type_at-type_number review_deleted = refl
type_at-type_number review_moderated = refl
type_at-type_number file_uploaded = refl
type_at-type_number file_processed = refl
type_at-type_number file_deleted = refl
type_at-type_number page_view = refl
type_at-type_number search_performed = refl
type_at-type_number booking_attempt = refl
type_at-type_number system_health = refl
type_at-type_number system_error = refl
type_at-type_number system_metric = refl

same_type-eq : (a b : EventType) → same_type a b ≡ true → a ≡ b
same_type-eq a b h =
    let numbers : type_number a ≡ type_number b = ground (arith, h) in
    sym (type_at-type_number a) ∙ ap type_at numbers ∙ type_at-type_number b

abbrev pub contains : ℕ → List ℕ → Bool
contains h [] = false
contains h (x ∷ hs) = if x == h then true else contains h hs

-- How often a type is listed.
abbrev pub count_type : EventType → List EventType → ℕ
count_type t [] = 0
count_type t (x ∷ types) = let rest = count_type t types in if same_type x t then suc rest else rest

subscribe_types_lem :
    (h : ℕ) (types : List EventType) (handlers : EventType → List ℕ) (t : EventType)
    → subscribe_types h types handlers t ≡ handlers t ++ replicate (count_type t types) h
unfolding subscribe_types
subscribe_types_lem h [] handlers t = sym (append-nil (handlers t))
subscribe_types_lem h (x ∷ types) handlers t =
    subscribe_types_lem h types (set_handlers x (handlers x ++ h ∷ []) handlers) t
    ∙ elim (Bool-cases (same_type x t)) [
      | inl hit ↦ rw hit (
          ap (λ (u : EventType). (handlers u ++ h ∷ []) ++ replicate (count_type t types) h)
            (same_type-eq x t hit)
          ∙ append_assoc (handlers t) (h ∷ []) (replicate (count_type t types) h))
      | inr miss ↦ rw miss refl
    ]

remove_handler-append :
    (h : ℕ) (hs rest : List ℕ)
    → contains h hs ≡ false
    → remove_handler h (hs ++ h ∷ rest) ≡ hs ++ rest
remove_handler-append h [] rest c = ground arith
remove_handler-append h (x ∷ hs) rest c = ground (arith, remove_handler-append h hs rest)

unsubscribe_types_lem :
    (h : ℕ) (types : List EventType) (handlers old : EventType → List ℕ)
    → ((t : EventType) → contains h (old t) ≡ false)
    → ((t : EventType) → handlers t ≡ old t ++ replicate (count_type t types) h)
    → (t : EventType) → unsubscribe_types h types handlers t ≡ old t
unfolding unsubscribe_types
unsubscribe_types_lem h [] handlers old new e t = e t ∙ append-nil (old t)
unsubscribe_types_lem h (x ∷ types) handlers old new e t =
    unsubscribe_types_lem h types (set_handlers x (remove_handler h (handlers x)) handlers) old new
      (λ u. elim (Bool-cases (same_type x u)) [
        | inl hit ↦ rw hit (
            ap (λ (v : EventType). remove_handler h (handlers v)) (same_type-eq x u hit)
            ∙ ap (remove_handler h) (rw hit at (e u))
            ∙ remove_handler-append h (old u) (replicate (count_type u types) h) (new u))
        | inr miss ↦ rw miss (rw miss at (e u))
      ])
      t

module _ (types : ℕ → List EventType) (h : ℕ) (bus : MemoryEventBus) where
  -- A handler that is subscribed is called by every event as often as before and once more for each time that its
  -- types list the event's, after the other handlers of the type.
  pub publish-subscribe :
      (t : EventType)
      → publish t (subscribe types h bus) ≡ publish t bus ++ replicate (count_type t (types h)) h
  unfolding publish subscribe
  publish-subscribe t = subscribe_types_lem h (types h) bus.handlers t

  -- Where a handler was not subscribed to any type, its subscription and the end of it leave the handlers of every
  -- type as they were.
  pub unsubscribe-subscribe :
      ((t : EventType) → contains h (publish t bus) ≡ false)
      → (t : EventType) → publish t (unsubscribe types h (subscribe types h bus)) ≡ publish t bus
  unfolding publish subscribe unsubscribe
  unsubscribe-subscribe new t =
      unsubscribe_types_lem h (types h) (subscribe_types h (types h) bus.handlers) bus.handlers new
        (subscribe_types_lem h (types h) bus.handlers) t

-- A bus that is stopped and started again panics at its next stop: the channel is not made anew.
pub stop-start :
    (bus stopped : MemoryEventBus)
    → bus.running ≡ true
    → stop bus ≡ some stopped
    → stop (start stopped) ≡ none
unfolding stop start
stop-start bus stopped runs h = ground (arith, runs, h)
