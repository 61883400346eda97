-- ===== src/EventStore/Log.antt =====
-- The event store of internal/events/event_bus.go keeps, for each stream, the log of what was appended.
use Prim.Native.String.{String}
use text.Mathlib.Text.{◌==◌}
use text.Mathlib.TextEquality.{eq_iff}
use hotel_reviews_microservi.Base.{
  ℕ, zero, suc, ap, ◌-◌, ◌≡◌, ◌≢◌, refl, Option, Option-cases, inl, inr, none, some, List, [], ◌∷◌,
  ◌++◌, if◌then◌else◌, All, arith, subst, ◌∙◌, subst, ◌∙◌,
}
use hotel_reviews_microservi.Base.Maps.{get, get-put, AllValues, put-AllValues, get-AllValues}
use hotel_reviews_microservi.EventStore.{
  StoredEvent, Heap, MemoryEventStore, new_memory_event_store, set_versions, events_of,
  current_version, append, from_version, at_least_one, read, get_latest_version,
}
use hotel_reviews_microservi.EventStore.Numbered.{
  IsOutside, AllDistinct, Numbered, set_versions-outside, set_versions-Numbered, set_versions-event,
  Numbered-append, All-append, All-split, AllDistinct-split,
}

-- Appends of events, given by their addresses, to streams.
unfoldable pub run : List (String × List ℕ) → MemoryEventStore → MemoryEventStore
run [] store = store
run ((id, events) ∷ calls) store = run calls (append id events store)

-- The specification: the events appended to a stream, one after the other, if it was appended to at all.
unfoldable pub log : String → Option (List ℕ) → List (String × List ℕ) → Option (List ℕ)
log id acc [] = acc
log id acc ((other, events) ∷ calls) =
    log id (if other == id then some (events_of acc ++ events) else acc) calls

-- The elements from the one after the first `n` on.
abbrev pub drop : ℕ → List ℕ → List ℕ
drop zero xs = xs
drop (suc n) [] = []
drop (suc n) (a ∷ xs) = drop n xs

abbrev pub map_log : (List ℕ → List ℕ) → Option (List ℕ) → Option (List ℕ)
map_log f none = none
map_log f (some xs) = some (f xs)

-- Every event that is appended, to whatever stream.
abbrev pub appended : List (String × List ℕ) → List ℕ
appended [] = []
appended ((id, events) ∷ calls) = events ++ appended calls

-- A stream is numbered from 1 on, and none of its events is appended again.
abbrev IsLogged : Heap → List ℕ → List ℕ → Type 0
IsLogged heap later events = Numbered heap 0 events × All (λ a. IsOutside a later) events

module _ (events later : List ℕ) (n : ℕ) (heap : Heap) where
  -- Appending leaves the other streams as they are.
  Numbered-kept :
      (xs : List ℕ) (current : ℕ)
      → Numbered heap current xs
      → All (λ a. IsOutside a (events ++ later)) xs
      → Numbered (set_versions n events heap) current xs × All (λ a. IsOutside a later) xs
  Numbered-kept [] current m o = (tt, tt)
  Numbered-kept (a ∷ xs) current (e, m) (o, os) =
      let (p, q) = All-split (λ b. b ≢ a) events later o in
      let (m', os') = Numbered-kept xs (suc current) m os in
      (
        (ap (λ (x : StoredEvent). x.version) (set_versions-outside a events n heap p) ∙ e, m'),
        (q, os'),
      )

  IsLogged-kept :
      (streams : List (String × List ℕ))
      → AllValues (IsLogged heap (events ++ later)) streams
      → AllValues (IsLogged (set_versions n events heap) later) streams
  IsLogged-kept [] a = tt
  IsLogged-kept (s ∷ streams) (l, a) = (Numbered-kept s.1 0 l.0 l.1, IsLogged-kept streams a)

extended-IsLogged :
    (heap : Heap) (later events : List ℕ) (old : Option (List ℕ))
    → ((xs : List ℕ) → old ≡ some xs → IsLogged heap later xs)
    → Numbered heap (current_version old) events
    → All (λ a. IsOutside a later) events
    → IsLogged heap later (events_of old ++ events)
extended-IsLogged heap later events none l n o = (n, o)
extended-IsLogged heap later events (some xs) l n o =
    let (m, q) = l xs refl in
    (
      Numbered-append heap xs events 0 m (subst (λ k. Numbered heap k events) (omega arith) n),
      All-append (λ a. IsOutside a later) xs events q o,
    )

append-IsLogged :
    (id : String) (events later : List ℕ) (store : MemoryEventStore)
    → AllDistinct (events ++ later)
    → AllValues (IsLogged store.heap (events ++ later)) store.streams
    → let store' = append id events store in AllValues (IsLogged store'.heap later) store'.streams
unfolding append
append-IsLogged id events later store d a =
    let (p, q, r) = AllDistinct-split events later d in
    let old = get id store.streams in
    let n = current_version old in
    let heap' = set_versions n events store.heap in
    let kept = IsLogged-kept events later n store.heap store.streams a in
    put-AllValues (IsLogged heap' later) id (events_of old ++ events) store.streams
      (extended-IsLogged heap' later events old
        (λ xs e. get-AllValues (IsLogged heap' later) id store.streams kept e)
        (set_versions-Numbered events n store.heap p) r)
      kept

run-IsLogged :
    (calls : List (String × List ℕ)) (store : MemoryEventStore)
    → AllDistinct (appended calls)
    → AllValues (IsLogged store.heap (appended calls)) store.streams
    → AllValues (IsLogged (run calls store).heap []) (run calls store).streams
unfolding run
run-IsLogged [] store d a = a
run-IsLogged ((id, events) ∷ calls) store d a =
    run-IsLogged calls (append id events store) (AllDistinct-split events (appended calls) d).1
      (append-IsLogged id events (appended calls) store d a)

run-get :
    (calls : List (String × List ℕ)) (store : MemoryEventStore) (id : String)
    → get id (run calls store).streams ≡ log id (get id store.streams) calls
unfolding run log append
run-get [] store id = refl
run-get ((other, events) ∷ calls) store id =
    run-get calls (append other events store) id
    ∙ ap (λ acc. log id acc calls)
        (get-put other id (events_of (get other store.streams) ++ events) store.streams
          ∙ ground (arith, eq_iff other id))

run-event :
    (calls : List (String × List ℕ)) (store : MemoryEventStore) (a : ℕ)
    → ((run calls store).heap a).event ≡ (store.heap a).event
unfolding run append
run-event [] store a = refl
run-event ((id, events) ∷ calls) store a =
    run-event calls (append id events store) a
    ∙ set_versions-event events (current_version (get id store.streams)) store.heap a

from_version-drop :
    (heap : Heap) (from : ℕ) (events : List ℕ) (n current : ℕ)
    → Numbered heap current events
    → n ≡ from - 1 - current
    → from_version heap from events ≡ drop n events
unfolding from_version
from_version-drop heap from [] zero current m h = refl
from_version-drop heap from [] (suc n) current m h = refl
from_version-drop heap from (a ∷ events) zero current (e, m) h =
    ground (arith, from_version-drop heap from events zero (suc current) m (omega arith))
from_version-drop heap from (a ∷ events) (suc n) current (e, m) h =
    ground (arith, from_version-drop heap from events n (suc current) m (omega arith))

read-IsLogged :
    (id : String) (from : ℕ) (store : MemoryEventStore)
    → AllValues (IsLogged store.heap []) store.streams
    → read id from store ≡ map_log (drop (from - 1)) (get id store.streams)
unfolding read
read-IsLogged id from store a = elim (Option-cases (get id store.streams)) [
  | inl e ↦ simp (read, e)
  | inr (xs, e) ↦
      let (m, _) = get-AllValues (IsLogged store.heap []) id store.streams a e in
      simp (read, e)
        (ap some
          (from_version-drop store.heap (at_least_one from) xs (from - 1) 0 m (ground arith)))
]

-- After any appends to a new store of events that are all different, reading a stream from a version on
-- gives what was appended to it, in order and without the events below that version, an error if nothing was
-- appended to it; its latest version is the number of those events; and no event is changed but for its
-- version.
pub read-run :
    (heap : Heap) (calls : List (String × List ℕ)) (id : String) (from : ℕ)
    → AllDistinct (appended calls)
    → let store = run calls (new_memory_event_store heap) in
      (read id from store ≡ map_log (drop (from - 1)) (log id none calls))
      × (get_latest_version id store ≡ current_version (log id none calls))
      × ((a : ℕ) → (store.heap a).event ≡ (heap a).event)
unfolding get_latest_version get
read-run heap calls id from d =
    let new = new_memory_event_store heap in
    let store = run calls new in
    let logged = run-get calls new id in
    (
      read-IsLogged id from store (run-IsLogged calls new d tt)
          ∙ ap (map_log (drop (from - 1))) logged,
      ap current_version logged,
      λ a. run-event calls new a,
    )
