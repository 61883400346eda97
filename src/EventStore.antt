-- ===== src/EventStore.antt =====
-- `MemoryEventStore` of internal/events/event_bus.go. The store keeps pointers to the events of its
-- callers, whose versions it writes, so the events stand in a heap, by their addresses.
pub mod Numbered
pub mod Log
pub mod Projection
mod Examples
use Prim.Native.String.{String}
use hotel_reviews_microservi.Base.{
  ℕ, suc, ◌+◌, Bool, true, false, Option, none, some, List, [], ◌∷◌, ◌++◌, if◌then◌else◌, leb, ◌==◌,
  length,
}
use hotel_reviews_microservi.Base.Maps.{get, put}
use hotel_reviews_microservi.Saga.Types.{Event}

pub record StoredEvent : Type 0 where
  pub event : Event
  pub version : ℕ

abbrev pub Heap : Type 0
Heap = ℕ → StoredEvent

pub record MemoryEventStore : Type 0 where
  pub heap : Heap
  pub streams : List (String × List ℕ)

-- A new store, in a given heap.
abbrev pub new_memory_event_store : Heap → MemoryEventStore
new_memory_event_store heap = record { heap = heap; streams = [] }

-- `event.Version = version`.
abbrev pub set_version : ℕ → ℕ → Heap → Heap
set_version address version heap a =
    if a == address then record (heap a) { version = version } else heap a

-- The events are numbered from `current + 1` on.
unfoldable pub set_versions : ℕ → List ℕ → Heap → Heap
set_versions current [] heap = heap
set_versions current (a ∷ events) heap =
    set_versions (suc current) events (set_version a (current + 1) heap)

-- The events of a stream; a missing key gives a nil slice.
abbrev pub events_of : Option (List ℕ) → List ℕ
events_of none = []
events_of (some events) = events

-- The version that the events of a stream have reached.
abbrev pub current_version : Option (List ℕ) → ℕ
current_version none = 0
current_version (some events) = length events

unfoldable pub append : String → List ℕ → MemoryEventStore → MemoryEventStore
append stream_id events store = record {
  heap = set_versions (current_version (get stream_id store.streams)) events store.heap;
  streams = put stream_id (events_of (get stream_id store.streams) ++ events) store.streams;
}

-- The events whose version is at least the given one.
unfoldable pub from_version : Heap → ℕ → List ℕ → List ℕ
from_version heap from [] = []
from_version heap from (a ∷ events) =
    let rest = from_version heap from events in if leb from (heap a).version then a ∷ rest else rest

-- `fromVersion <= 0` is replaced by 1.
abbrev pub at_least_one : ℕ → ℕ
at_least_one n = if leb n 0 then 1 else n

-- `none` is the error that there is no such stream.
unfoldable pub read : String → ℕ → MemoryEventStore → Option (List ℕ)
read stream_id from store = elim (get stream_id store.streams) [
  | none ↦ none
  | some events ↦ some (from_version store.heap (at_least_one from) events)
]

unfoldable pub all_events : List (String × List ℕ) → List ℕ
all_events [] = []
all_events (s ∷ streams) = s.1 ++ all_events streams

-- The events whose position is at least the given one; `position` counts the events before them.
unfoldable pub from_position : ℕ → ℕ → List ℕ → List ℕ
from_position from position [] = []
from_position from position (a ∷ events) =
    let rest = from_position from (position + 1) events in
    if leb from (position + 1) then a ∷ rest else rest

-- The streams are ranged over in the order of the list.
unfoldable pub read_all : ℕ → MemoryEventStore → List ℕ
read_all from store = from_position from 0 (all_events store.streams)

unfoldable pub get_latest_version : String → MemoryEventStore → ℕ
get_latest_version stream_id store = current_version (get stream_id store.streams)
