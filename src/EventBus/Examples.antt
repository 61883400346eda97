-- ===== src/EventBus/Examples.antt =====
-- The bus and the outbox at concrete inputs: tests, and the inputs of their theorems.
use hotel_reviews_microservi.Base.{
  ℕ, ◌≡◌, refl, true, false, none, some, List, [], ◌∷◌, ◌++◌, if◌then◌else◌, ◌==◌, ltb, arith,
}
use hotel_reviews_microservi.Saga.Types.{EventType, hotel_created, review_created}
use hotel_reviews_microservi.EventBus.Bus.{
  MemoryEventBus, new_memory_event_bus, subscribe, unsubscribe, publish, start, stop,
}
use hotel_reviews_microservi.EventBus.Subscriptions.{contains, unsubscribe-subscribe}
use hotel_reviews_microservi.EventBus.Shifted.{array_after, calls_from, publish-unsubscribe}
use hotel_reviews_microservi.EventBus.Outbox.{
  OutboxEvent, OutboxServices, Call, publishes, marks, watched, publish_events, publish_event,
  publish_loop, IsServed, publish_events-IsServed, publish_loop-stuck,
}

-- The handler 7 is for two types, the others for one.
types : ℕ → List EventType
types h = if h == 7 then hotel_created ∷ review_created ∷ [] else hotel_created ∷ []

bus : MemoryEventBus
unfolding types subscribe
bus = subscribe types 2 (subscribe types 1 new_memory_event_bus)

called : publish hotel_created (subscribe types 7 bus) ≡ 1 ∷ 2 ∷ 7 ∷ []
unfolding bus publish
called = refl

seven_is_new : (t : EventType) → contains 7 (publish t bus) ≡ false
unfolding bus publish
seven_is_new t = ground arith

unsubscribe-subscribe_example :
    publish review_created (unsubscribe types 7 (subscribe types 7 bus))
    ≡ publish review_created bus
unsubscribe-subscribe_example = unsubscribe-subscribe types 7 bus seven_is_new review_created

stopped : MemoryEventBus
unfolding bus start
stopped = record (start bus) { running = false; stop_closed = true }

first_stop : stop (start bus) ≡ some stopped
unfolding stop stopped
first_stop = refl

is_running : (start bus).running ≡ true
unfolding start
is_running = refl

abbrev four : MemoryEventBus
four = record { handlers = λ t. 1 ∷ 2 ∷ 3 ∷ 4 ∷ []; running = true; stop_closed = false }

only_created : types 1 ≡ hotel_created ∷ []
unfolding types
only_created = refl

four_called : publish hotel_created four ≡ [] ++ 1 ∷ ([] ++ 2 ∷ 3 ∷ 4 ∷ [])
unfolding publish
four_called = refl

publish-unsubscribe_example :
    (publish hotel_created (unsubscribe types 1 four) ≡ 2 ∷ 3 ∷ 4 ∷ [])
    × (calls_from 1 (array_after 1 (publish hotel_created four)) ≡ 3 ∷ 4 ∷ 4 ∷ [])
publish-unsubscribe_example =
    publish-unsubscribe types 1 hotel_created four [] [] 2 3 (4 ∷ []) only_created four_called refl

abbrev outbox_event : ℕ → OutboxEvent
outbox_event n = record { id = n; event_data = n }

-- The world is the list of the ids that are marked; the bus refuses the event 5, and only data below 10 decodes.
abbrev services : OutboxServices (List ℕ)
services = record {
  get_unpublished = λ limit w. some (outbox_event 20 ∷ []);
  mark_as_published = λ id w. (id ∷ w, true);
  from_json = λ text. if ltb text 10 then some text else none;
  publish = λ event w. if event == 5 then (w, false) else (w, true);
}

batch : List OutboxEvent
batch = outbox_event 4 ∷ outbox_event 5 ∷ outbox_event 12 ∷ outbox_event 6 ∷ []

called_for :
    (publish_events (watched services) batch ([], [])).1
    ≡ publishes 4 true ∷ marks 4 true ∷ publishes 5 false ∷ publishes 6 true ∷ marks 6 true ∷ []
unfolding publish_events publish_event batch
called_for = refl

publish_events-IsServed_example :
    (calls : List Call) × (publish_events (watched services) batch ([], [])
      ≡ (publish_events services batch [], [] ++ calls))
    × IsServed services batch calls
publish_events-IsServed_example = publish_events-IsServed services batch [] []

publish_loop-stuck_example : publish_loop (watched services) 3 ([], []) ≡ ([], [])
publish_loop-stuck_example =
    publish_loop-stuck services 3 (outbox_event 20 ∷ []) [] [] refl (refl, tt)
