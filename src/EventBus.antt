-- ===== src/EventBus.antt =====
-- `MemoryEventBus` and `OutboxPublisher` of internal/events/event_bus.go.
pub mod Bus
pub mod Subscriptions
pub mod Shifted
pub mod Outbox
mod Examples
