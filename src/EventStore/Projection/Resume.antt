-- ===== src/EventStore/Projection/Resume.antt =====
-- How polls of internal/events/event_bus.go go on from the position that a projection has reached.
use Prim.Native.String.{String}
use text.Mathlib.TextEquality.{eq_iff}
use mathlib.Core.List.{append-nil, append_assoc}
use hotel_reviews_microservi.Base.{
  ℕ, zero, suc, ◌+◌, ◌-◌, ◌≤◌, ◌≡◌, ◌≢◌, refl, sym, ap, ◌∙◌, Option, none, some, List, [], ◌∷◌,
  ◌++◌, length, length-append, arith, Option-cases, inl, inr,
}
use hotel_reviews_microservi.Base.Maps.{get, put, delete}
use hotel_reviews_microservi.Saga.Types.{SagaError}
use hotel_reviews_microservi.EventStore.{
  Heap, MemoryEventStore, append, current_version, all_events, from_position, read_all,
}
use hotel_reviews_microservi.EventStore.Numbered.{set_versions-event}
use hotel_reviews_microservi.EventStore.Log.{drop}
use hotel_reviews_microservi.EventStore.Projection.{Projection, handle_events, process_projection}

from_position-drop :
    (from : ℕ) (events : List ℕ) (n position : ℕ)
    → n ≡ from - 1 - position
    → from_position from position events ≡ drop n events
unfolding from_position
from_position-drop from [] zero position h = refl
from_position-drop from [] (suc n) position h = refl
from_position-drop from (a ∷ events) zero position h =
    ground (arith, from_position-drop from events zero (position + 1) (omega arith))
from_position-drop from (a ∷ events) (suc n) position h =
    ground (arith, from_position-drop from events n (position + 1) (omega arith))

read_all-drop :
    (last : ℕ) (store : MemoryEventStore)
    → read_all (last + 1) store ≡ drop last (all_events store.streams)
unfolding read_all
read_all-drop last store =
    from_position-drop (last + 1) (all_events store.streams) last 0 (omega arith)

drop-append : (n : ℕ) (xs ys : List ℕ) → n ≤ length xs → drop n (xs ++ ys) ≡ drop n xs ++ ys
drop-append zero xs ys h = refl
drop-append (suc n) [] ys h = absurd (omega arith)
drop-append (suc n) (x ∷ xs) ys h = drop-append n xs ys (omega arith)

drop-prefix : (xs ys : List ℕ) → drop (length xs) (xs ++ ys) ≡ ys
drop-prefix [] ys = refl
drop-prefix (x ∷ xs) ys = drop-prefix xs ys

length-drop : (n : ℕ) (xs : List ℕ) → length (drop n xs) ≡ length xs - n
length-drop zero xs = omega arith
length-drop (suc n) [] = omega arith
length-drop (suc n) (x ∷ xs) = length-drop n xs ∙ omega arith

module _ {ℓ} {G : Type ℓ} (projection : Projection G) where
  module _ (heap : Heap) where
    handle_events-done :
        (a : ℕ) (events : List ℕ) (last : ℕ) (p : G)
        → (projection.handle (heap a).event p).1 ≡ none
        → handle_events projection heap last (a ∷ events) p
          ≡ handle_events projection heap (last + 1) events (
              projection.set_last_processed_event (last + 1) (projection.handle (heap a).event p).0)
    unfolding handle_events
    handle_events-done a events last p e = simp (handle_events, e)

    -- Where the events are handled, the first one is.
    done-handle_events :
        (a : ℕ) (events : List ℕ) (last : ℕ) (p : G)
        → (handle_events projection heap last (a ∷ events) p).1 ≡ none
        → (projection.handle (heap a).event p).1 ≡ none
    unfolding handle_events
    done-handle_events a events last p h =
        elim (Option-cases (projection.handle (heap a).event p).1) [ inl e ↦ e | inr (x, e) ↦ cc ]

    handle_events-append :
        (xs ys : List ℕ) (last : ℕ) (p : G)
        → (handle_events projection heap last xs p).1 ≡ none
        → handle_events projection heap last (xs ++ ys) p
          ≡ handle_events projection heap
              (last + length xs)
              ys
              (handle_events projection heap last xs p).0
    handle_events-append [] ys last p h =
        unfold handle_events in ap (λ n. handle_events projection heap n ys p) (omega arith)
    handle_events-append (a ∷ xs) ys last p h =
        let e = done-handle_events a xs last p h in
        let p' =
          projection.set_last_processed_event (last + 1) (projection.handle (heap a).event p).0 in
        handle_events-done a (xs ++ ys) last p e
        ∙ rw (handle_events-done a xs last p e) (
            handle_events-append xs ys (last + 1) p' (rw (sym (handle_events-done a xs last p e)) h)
            ∙ ap
                (λ n.
                  handle_events projection heap n ys
                    (handle_events projection heap (last + 1) xs p').0)
                (omega arith))

    -- The events that have been handled are counted by the position.
    position-handle_events :
        ((n : ℕ) (p : G)
          → projection.get_last_processed_event (projection.set_last_processed_event n p) ≡ n)
        → (events : List ℕ) (last : ℕ) (p : G) → projection.get_last_processed_event p ≡ last
        → (handle_events projection heap last events p).1 ≡ none
        → projection.get_last_processed_event (handle_events projection heap last events p).0
          ≡ last + length events
    position-handle_events law [] last p g h = unfold handle_events in g ∙ omega arith
    position-handle_events law (a ∷ events) last p g h =
        let e = done-handle_events a events last p h in
        let p' =
          projection.set_last_processed_event (last + 1) (projection.handle (heap a).event p).0 in
        rw (handle_events-done a events last p e) (
          position-handle_events law events (last + 1) p' (law (last + 1) _)
            (rw (sym (handle_events-done a events last p e)) h)
          ∙ omega arith)

  -- Only the events matter, not their versions.
  handle_events-heap :
      (heap heap' : Heap)
      → ((a : ℕ) → (heap' a).event ≡ (heap a).event)
      → (events : List ℕ) (last : ℕ) (p : G)
      → handle_events projection heap' last events p ≡ handle_events projection heap last events p
  unfolding handle_events
  handle_events-heap heap heap' same [] last p = refl
  handle_events-heap heap heap' same (a ∷ events) last p =
      let p' = (projection.handle (heap a).event p).0 in
      let q = projection.set_last_processed_event (last + 1) p' in
      ground (arith, same a, handle_events-heap heap heap' same events (last + 1) q)

append-first :
    (id : String) (xs events : List ℕ) (rest : List (String × List ℕ)) (store : MemoryEventStore)
    → store.streams ≡ (id, xs) ∷ rest
    → delete id rest ≡ rest
    → (append id events store).streams ≡ (id, xs ++ events) ∷ rest
unfolding append get put delete
append-first id xs events rest store s d =
    let hit : get id store.streams ≡ some xs = ground (arith, eq_iff id id) in
    let gone : delete id store.streams ≡ rest = ground (arith, eq_iff id id, d) in
    rw (hit, gone) refl

all_events-first :
    (id : String) (xs events : List ℕ) (store : MemoryEventStore)
    → store.streams ≡ (id, xs) ∷ []
    → all_events (append id events store).streams ≡ all_events store.streams ++ events
unfolding all_events delete
all_events-first id xs events store s =
    rw (append-first id xs events [] store s refl, s, append-nil (xs ++ events), append-nil xs) refl

module _ {ℓ} {G : Type ℓ} (projection : Projection G)
    (law : (n : ℕ) (p : G)
      → projection.get_last_processed_event (projection.set_last_processed_event n p) ≡ n) where
  process_projection-drop :
      (store : MemoryEventStore) (p : G)
      → process_projection projection store p ≡ (
          let last = projection.get_last_processed_event p in
          handle_events projection store.heap last (drop last (all_events store.streams)) p)
  unfolding process_projection
  process_projection-drop store p =
      let last = projection.get_last_processed_event p in
      ap (λ events. handle_events projection store.heap last events p) (read_all-drop last store)

  handle_events-resumes :
      (h h' : Heap)
      → ((a : ℕ) → (h' a).event ≡ (h a).event)
      → (es events : List ℕ) (p : G)
      → let n = projection.get_last_processed_event p in
        let (p', failure) = handle_events projection h n (drop n es) p in
        n ≤ length es
        → failure ≡ none
        → let n' = projection.get_last_processed_event p' in
          handle_events projection h' n' (drop n' (es ++ events)) p'
          ≡ handle_events projection h' n (drop n (es ++ events)) p
  handle_events-resumes h h' same es events p within f =
      let n = projection.get_last_processed_event p in
      let p' = (handle_events projection h n (drop n es) p).0 in
      let at : projection.get_last_processed_event p' ≡ length es =
        position-handle_events projection h law (drop n es) n p refl f
        ∙ omega (arith, length-drop n es) in
      let alike = handle_events-heap projection h h' same (drop n es) n p in
      let count : n + length (drop n es) ≡ length es = omega (arith, length-drop n es) in
      rw (at, drop-prefix es events)
        (sym (
          ap (λ ys. handle_events projection h' n ys p) (drop-append n es events within)
          ∙ handle_events-append projection h' (drop n es) events n p
              (ap (λ (x : G × Option SagaError). x.1) alike ∙ f)
          ∙ rw (alike, count) refl))

  -- Where the position that a projection sets is the one it gives back: on a store of one stream, after a
  -- poll in which every event was handled, the next poll, with more events appended, goes on as if it were
  -- the first: it ends in the same state and with the same error as one poll of all the events. So no event
  -- is missed and none is handled twice.
  pub process_projection-resumes :
      (store : MemoryEventStore) (id : String) (xs events : List ℕ) (p : G)
      → store.streams ≡ (id, xs) ∷ []
      → projection.get_last_processed_event p ≤ length xs
      → let (p', failure) = process_projection projection store p in
        failure ≡ none
        → process_projection projection (append id events store) p'
          ≡ process_projection projection (append id events store) p
  unfolding append
  process_projection-resumes store id xs events p s within f =
      let store' = append id events store in
      let n = projection.get_last_processed_event p in
      let es = all_events store.streams in
      let polled = process_projection-drop store p in
      let p' = (process_projection projection store p).0 in
      let size : length es ≡ length xs = unfold all_events in rw s (ap length (append-nil xs)) in
      let all = all_events-first id xs events store s in
      let same = set_versions-event events (current_version (get id store.streams)) store.heap in
      rw (process_projection-drop store' p', process_projection-drop store' p, all, polled)
        (handle_events-resumes store.heap store'.heap same es events p (omega arith)
          (ap (λ (x : G × Option SagaError). x.1) (sym polled) ∙ f))

-- On a store of two streams, of which the first is ranged over first, a projection that has processed all
-- the events is given, after one more event is appended to the first stream, the last event of the second
-- stream once more, and not the new event: the positions of the events have moved.
pub read_all-moved :
    (store : MemoryEventStore) (id other : String) (xs ys : List ℕ) (y event : ℕ)
    → store.streams ≡ (id, xs) ∷ (other, ys ++ (y ∷ [])) ∷ []
    → other ≢ id
    → read_all (length (all_events store.streams) + 1) (append id (event ∷ []) store) ≡ y ∷ []
unfolding all_events delete
read_all-moved store id other xs ys y event s different =
    let rest : List (String × List ℕ) = (other, ys ++ (y ∷ [])) ∷ [] in
    let store' = append id (event ∷ []) store in
    let gone : delete id rest ≡ rest = ground (arith, eq_iff other id, different) in
    let before = (xs ++ (event ∷ [])) ++ ys in
    let all : all_events store'.streams ≡ before ++ (y ∷ []) =
      rw (append-first id xs (event ∷ []) rest store s gone, append-nil (ys ++ (y ∷ [])))
        (sym (append_assoc (xs ++ (event ∷ [])) ys (y ∷ []))) in
    let count : length (all_events store.streams) ≡ length before =
      rw (s, append-nil (ys ++ (y ∷ [])))
        (omega (
          arith,
          length-append xs (ys ++ (y ∷ [])),
          length-append ys (y ∷ []),
          length-append (xs ++ (event ∷ [])) ys,
          length-append xs (event ∷ []),
        )) in
    read_all-drop (length (all_events store.streams)) store'
    ∙ rw (all, count) (drop-prefix before (y ∷ []))
