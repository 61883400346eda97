-- ===== src/EventStore/Examples.antt =====
-- The theorems on the event store and the projections of internal/events/event_bus.go at concrete
-- inputs.
use Prim.Native.String.{String}
use hotel_reviews_microservi.Base.{ℕ, suc, ◌≡◌, none, List, [], ◌∷◌, arith}
use hotel_reviews_microservi.Saga.Types.{review_created}
use hotel_reviews_microservi.EventStore.{
  Heap, MemoryEventStore, new_memory_event_store, read, get_latest_version, current_version,
}
use hotel_reviews_microservi.EventStore.Log.{run, log, map_log, drop, read-run}
use hotel_reviews_microservi.EventStore.Projection.{Projection}

abbrev heap : Heap
heap a = record {
  event = record { event_type = review_created; aggregate_id = "r"; correlation_id = "c" };
  version = 1;
}

abbrev calls : List (String × List ℕ)
calls = ("a", 1 ∷ 2 ∷ []) ∷ ("b", 3 ∷ []) ∷ ("a", 4 ∷ []) ∷ []

read-run_example :
    let store = run calls (new_memory_event_store heap) in
    (read "a" 2 store ≡ map_log (drop 1) (log "a" none calls))
    × (get_latest_version "a" store ≡ current_version (log "a" none calls))
    × ((a : ℕ) → (store.heap a).event ≡ (heap a).event)
read-run_example = read-run heap calls "a" 2 (
  (omega arith, (omega arith, (omega arith, tt))),
  ((omega arith, (omega arith, tt)), ((omega arith, tt), (tt, tt))),
)

-- The state of a projection is its position, and how many events it has seen.
abbrev counting : Projection (ℕ × ℕ)
counting = record {
  handle = λ e p. ((p.0, suc p.1), none);
  get_last_processed_event = λ p. p.0;
  set_last_processed_event = λ n p. (n, p.1);
}

abbrev one_stream : MemoryEventStore
one_stream = record { heap = heap; streams = ("a", 1 ∷ 2 ∷ []) ∷ [] }

abbrev two_streams : MemoryEventStore
two_streams = record { heap = heap; streams = ("a", 1 ∷ []) ∷ ("b", 2 ∷ 3 ∷ []) ∷ [] }
