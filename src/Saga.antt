-- ===== src/Saga.antt =====
-- internal/events/sagas.go, and the saga types of internal/events/event_bus.go.
pub mod Types
pub mod Steps
pub mod Actions
pub mod Review
pub mod Hotel
pub mod Manager
mod Examples
