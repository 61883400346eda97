-- ===== src/EventStore/Projection.antt =====
-- `ProjectionManager` of internal/events/event_bus.go: each poll hands the projections the events that
-- they have not processed, as the event store gives them.
pub mod Resume
use hotel_reviews_microservi.Base.{ℕ, ◌+◌, Option, none, some, List, [], ◌∷◌}
use hotel_reviews_microservi.Saga.Types.{Event, SagaError, wrap}
use hotel_reviews_microservi.EventStore.{Heap, StoredEvent, MemoryEventStore, read_all}

-- The interface of a projection, with its state `G`.
pub record Projection {ℓ} (G : Type ℓ) : Type ℓ where
  pub handle : Event → G → G × Option SagaError
  pub get_last_processed_event : G → ℕ
  pub set_last_processed_event : ℕ → G → G

module _ {ℓ} {G : Type ℓ} (projection : Projection G) where
  -- `last` is the position of the event before the next one.
  unfoldable pub handle_events : Heap → ℕ → List ℕ → G → G × Option SagaError
  handle_events heap last [] p = (p, none)
  handle_events heap last (a ∷ events) p =
      let (p', failure) = projection.handle (heap a).event p in
      let rest =
        handle_events heap (last + 1) events (projection.set_last_processed_event (last + 1) p') in
      elim failure [
        | some e ↦ (p', some (wrap "projection failed to handle event" e))
        | none ↦ rest
      ]

  unfoldable pub process_projection : MemoryEventStore → G → G × Option SagaError
  process_projection store p =
      let last = projection.get_last_processed_event p in
      handle_events store.heap last (read_all (last + 1) store) p

-- One poll, of several projections; their errors are only printed.
unfoldable pub process_projections {ℓ} :
    {G : Type ℓ} → MemoryEventStore → List (Projection G × G) → List (Projection G × G)
process_projections store [] = []
process_projections store (e ∷ projections) =
    (e.0, (process_projection e.0 store e.1).0) ∷ process_projections store projections
