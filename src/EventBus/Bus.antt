-- ===== src/EventBus/Bus.antt =====
-- The bus: the handlers of each type of event, and its life. A handler is a number that stands for its pointer,
-- and `types` gives what its `GetEventTypes` answers.
use hotel_reviews_microservi.Base.{
  ℕ, Bool, true, false, Option, none, some, List, [], ◌∷◌, ◌++◌, if◌then◌else◌, ◌==◌,
}
use hotel_reviews_microservi.Saga.Types.{
  EventType, user_registered, user_updated, user_deleted, hotel_created, hotel_updated,
  hotel_deleted, review_created, review_updated, review_deleted, review_moderated, file_uploaded,
  file_processed, file_deleted, page_view, search_performed, booking_attempt, system_health,
  system_error, system_metric,
}

-- The number of an event type, by which two are compared.
abbrev pub type_number : EventType → ℕ
type_number user_registered = 0
type_number user_updated = 1
type_number user_deleted = 2
type_number hotel_created = 3
type_number hotel_updated = 4
type_number hotel_deleted = 5
type_number review_created = 6
type_number review_updated = 7
type_number review_deleted = 8
type_number review_moderated = 9
type_number file_uploaded = 10
type_number file_processed = 11
type_number file_deleted = 12
type_number page_view = 13
type_number search_performed = 14
type_number booking_attempt = 15
type_number system_health = 16
type_number system_error = 17
type_number system_metric = 18

abbrev pub same_type : EventType → EventType → Bool
same_type a b = type_number a == type_number b

-- A type without handlers has the empty list.
pub record MemoryEventBus : Type 0 where
  pub handlers : EventType → List ℕ
  pub running : Bool
  pub stop_closed : Bool

abbrev pub new_memory_event_bus : MemoryEventBus
new_memory_event_bus = record { handlers = λ t. []; running = false; stop_closed = false }

abbrev pub set_handlers : EventType → List ℕ → (EventType → List ℕ) → EventType → List ℕ
set_handlers t hs handlers other = if same_type t other then hs else handlers other

-- The loop of `Subscribe` over the types of the handler.
unfoldable pub subscribe_types : ℕ → List EventType → (EventType → List ℕ) → EventType → List ℕ
subscribe_types h [] handlers = handlers
subscribe_types h (t ∷ types) handlers =
    subscribe_types h types (set_handlers t (handlers t ++ h ∷ []) handlers)

-- The inner loop of `Unsubscribe`: the first place of the handler is taken out.
abbrev pub remove_handler : ℕ → List ℕ → List ℕ
remove_handler h [] = []
remove_handler h (x ∷ hs) = if x == h then hs else x ∷ remove_handler h hs

unfoldable pub unsubscribe_types : ℕ → List EventType → (EventType → List ℕ) → EventType → List ℕ
unsubscribe_types h [] handlers = handlers
unsubscribe_types h (t ∷ types) handlers =
    unsubscribe_types h types (set_handlers t (remove_handler h (handlers t)) handlers)

module _ (types : ℕ → List EventType) where
  unfoldable pub subscribe : ℕ → MemoryEventBus → MemoryEventBus
  unfolding subscribe_types
  subscribe h bus = record bus { handlers = subscribe_types h (types h) bus.handlers }

  unfoldable pub unsubscribe : ℕ → MemoryEventBus → MemoryEventBus
  unfolding unsubscribe_types
  unsubscribe h bus = record bus { handlers = unsubscribe_types h (types h) bus.handlers }

-- The handlers that `Publish` calls for an event of the type, each in a goroutine of its own, in order.
unfoldable pub publish : EventType → MemoryEventBus → List ℕ
publish t bus = bus.handlers t

unfoldable pub start : MemoryEventBus → MemoryEventBus
start bus = record bus { running = true }

-- `none` is the panic of a channel that is closed twice.
unfoldable pub stop : MemoryEventBus → Option MemoryEventBus
stop bus =
    if bus.running
    then if bus.stop_closed then none else some (record bus { running = false; stop_closed = true })
    else some bus
