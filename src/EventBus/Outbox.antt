-- ===== src/EventBus/Outbox.antt =====
-- `publishPendingEvents` of `OutboxPublisher`, over the interface of the outbox's repository, the bus and the JSON
-- decoder, which share a world `W`.
use hotel_reviews_microservi.Base.{
  ℕ, zero, suc, ◌≡◌, refl, Bool, true, false, Option, none, some, List, [], ◌∷◌, ◌++◌, All,
  if◌then◌else◌, Bool-cases, Option-cases, inl, inr,
}
use mathlib.Core.List.{append-nil, append_assoc}

pub record OutboxEvent : Type 0 where
  pub id : ℕ
  pub event_data : ℕ

-- The interface `OutboxRepository` and the calls of the bus and of the decoder; `none` and `false` are errors. An
-- event is a number that stands for it.
pub record OutboxServices {ℓ} (W : Type ℓ) : Type ℓ where
  pub get_unpublished : ℕ → W → Option (List OutboxEvent)
  pub mark_as_published : ℕ → W → W × Bool
  pub from_json : ℕ → Option ℕ
  pub publish : ℕ → W → W × Bool

module _ {ℓ} {W : Type ℓ} (services : OutboxServices W) where
  -- The error of a mark is only printed.
  abbrev pub after_publish : ℕ → W × Bool → W
  after_publish id answer =
      if answer.1 then (services.mark_as_published id answer.0).0 else answer.0

  abbrev pub after_decode : ℕ → Option ℕ → W → W
  after_decode id none w = w
  after_decode id (some event) w = after_publish id (services.publish event w)

  -- A round of the loop; its errors are only printed.
  unfoldable pub publish_event : OutboxEvent → W → W
  publish_event o w = after_decode o.id (services.from_json o.event_data) w

  unfoldable pub publish_events : List OutboxEvent → W → W
  publish_events [] w = w
  publish_events (o ∷ events) w = publish_events events (publish_event o w)

  -- A poll; an error of the query ends it.
  unfoldable pub publish_pending_events : W → W
  publish_pending_events w = elim (services.get_unpublished 100 w) [
    | none ↦ w
    | some events ↦ publish_events events w
  ]

  -- The polls of `publishLoop`.
  unfoldable pub publish_loop : ℕ → W → W
  publish_loop zero w = w
  publish_loop (suc polls) w = publish_loop polls (publish_pending_events w)

-- A call that changes the world, with its answer.
pub data Call : Type 0 where
  publishes marks : ℕ → Bool → Call

abbrev pub with_call {ℓ} :
    {W : Type ℓ} → (Bool → Call) → List Call → W × Bool → (W × List Call) × Bool
with_call call calls r = ((r.0, calls ++ call r.1 ∷ []), r.1)

-- The same services, which write down each call that they get, and its answer.
abbrev pub watched {ℓ} : {W : Type ℓ} → OutboxServices W → OutboxServices (W × List Call)
watched services = record {
  get_unpublished = λ limit s. services.get_unpublished limit s.0;
  mark_as_published = λ id s. with_call (marks id) s.1 (services.mark_as_published id s.0);
  from_json = services.from_json;
  publish = λ event s. with_call (publishes event) s.1 (services.publish event s.0);
}

module _ {ℓ} {W : Type ℓ} (services : OutboxServices W) where
  -- The calls that serve a batch: an event that cannot be decoded gets none; one that the bus refuses is
  -- published and not marked; any other is published and marked right after it.
  pub data IsServed : List OutboxEvent → List Call → Type 0 where
    none_left : IsServed [] []
    unreadable :
        {o : OutboxEvent} {events : List OutboxEvent} {calls : List Call}
        → services.from_json o.event_data ≡ none
        → IsServed events calls
        → IsServed (o ∷ events) calls
    refused :
        {o : OutboxEvent} {event : ℕ} {events : List OutboxEvent} {calls : List Call}
        → services.from_json o.event_data ≡ some event
        → IsServed events calls
        → IsServed (o ∷ events) (publishes event false ∷ calls)
    served :
        {o : OutboxEvent} {event : ℕ} {marked : Bool} {events : List OutboxEvent}
        {calls : List Call}
        → services.from_json o.event_data ≡ some event
        → IsServed events calls
        → IsServed (o ∷ events) (publishes event true ∷ marks o.id marked ∷ calls)

  -- What a round calls, and that these calls serve its event.
  publish_event-IsServed :
      (o : OutboxEvent) (w : W) (log : List Call)
      → (calls : List Call) × (publish_event (watched services) o (w, log)
          ≡ (publish_event services o w, log ++ calls))
        × ((events : List OutboxEvent) (rest : List Call)
            → IsServed events rest
            → IsServed (o ∷ events) (calls ++ rest))
  unfolding publish_event
  publish_event-IsServed o w log = elim (Option-cases (services.from_json o.event_data)) [
    | inl d ↦ ([], simp (publish_event, d, append-nil), λ events rest r. unreadable d r)
    | inr (event, d) ↦ elim (Bool-cases (services.publish event w).1) [
      | inr refuses ↦ (
        publishes event false ∷ [],
        simp (publish_event, d, refuses),
        λ events rest r. refused d r,
      )
      | inl takes ↦
          let answer = services.mark_as_published o.id (services.publish event w).0 in
          (
            publishes event true ∷ marks o.id answer.1 ∷ [],
            simp (publish_event, d, takes, append_assoc),
            λ events rest r. served d r,
          )
    ]
  ]

  -- However the repository, the bus and the decoder answer, the calls that a batch gets are these: in the batch's
  -- order, none for an event that cannot be decoded, a publication alone for one that the bus refuses, and
  -- for any other a publication and right after it a mark with its id; what is published is what the
  -- event decodes to. The log of the calls is kept by services that only watch the given ones.
  pub publish_events-IsServed :
      (events : List OutboxEvent) (w : W) (log : List Call)
      → (calls : List Call) × (publish_events (watched services) events (w, log)
          ≡ (publish_events services events w, log ++ calls))
        × IsServed events calls
  unfolding publish_events
  publish_events-IsServed [] w log = ([], simp append-nil, none_left)
  publish_events-IsServed (o ∷ events) w log =
      let (first, e, serves) = publish_event-IsServed o w log in
      let (rest, e', r) =
        publish_events-IsServed events (publish_event services o w) (log ++ first) in
      (first ++ rest, rw e (simp (e', append_assoc)), serves events rest r)

  abbrev pub IsUndecodable : OutboxEvent → Type 0
  IsUndecodable o = services.from_json o.event_data ≡ none

  publish_events-idle :
      (events : List OutboxEvent) (w : W)
      → All IsUndecodable events
      → publish_events services events w ≡ w
  unfolding publish_events publish_event
  publish_events-idle [] w all = refl
  publish_events-idle (o ∷ events) w all =
      simp (publish_event, all.0) (publish_events-idle events w all.1)

  pending-idle :
      (events : List OutboxEvent) (w : W)
      → services.get_unpublished 100 w ≡ some events
      → All IsUndecodable events
      → publish_pending_events services w ≡ w
  unfolding publish_pending_events
  pending-idle events w batch all =
      rw (publish_pending_events, batch) (publish_events-idle events w all)

  loop-idle :
      (polls : ℕ) (events : List OutboxEvent) (w : W)
      → services.get_unpublished 100 w ≡ some events
      → All IsUndecodable events
      → publish_loop services polls w ≡ w
  unfolding publish_loop
  loop-idle zero events w batch all = refl
  loop-idle (suc polls) events w batch all =
      rw (pending-idle events w batch all) (loop-idle polls events w batch all)

-- Where none of the first hundred unpublished events can be decoded, no number of polls publishes or marks any
-- event or changes the world, whatever else waits in the outbox.
pub publish_loop-stuck {ℓ} :
    {W : Type ℓ} (services : OutboxServices W) (polls : ℕ) (events : List OutboxEvent) (w : W)
    (log : List Call)
    → services.get_unpublished 100 w ≡ some events
    → All (IsUndecodable services) events
    → publish_loop (watched services) polls (w, log) ≡ (w, log)
publish_loop-stuck services polls events w log batch all =
    loop-idle (watched services) polls events (w, log) batch all
