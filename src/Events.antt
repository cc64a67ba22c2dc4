-- ===== src/Events.antt =====
-- The delivery of domain events, apps/backend/src/events: the registry of subscribers, the relay
-- that moves the rows of the outbox onto the queue, and the dispatcher. The queue does not take a
-- job with the identifier of one that it remembers; whether a call of it fails and what it
-- remembers at the call are parameters.
pub mod Relay
pub mod Registered
pub mod Bus
mod Tests
use strat_align.Prelude.{
  ℕ, zero, suc, ◌+◌, Bool, true, false, Option, none, some, List, [], ◌∷◌, ◌++◌, ◌==◌, ◌&&◌, ltb,
  if◌then◌else◌, any, find, keep, map, length, Outcome, ok, err, ◌>>=◌, or_throw,
}
use strat_align.Strategy.Cycle.{has}

-- `EventSubscriber`, whose `handle` stands with the dispatcher.
pub record EventSubscriber : Type 0 where
  pub id : ℕ
  pub event_types : List ℕ

-- `EventSubscriberRegistry`: the two maps.
pub record Registry : Type 0 where
  pub by_event_type : ℕ → List EventSubscriber
  pub by_id : List EventSubscriber

pub data Error : Type 0 where
  already_registered unknown_subscriber handler_failed : Error

abbrev pub empty_registry : Registry
empty_registry = record { by_event_type = λ t. []; by_id = [] }

unfoldable pub find_by_id : Registry → ℕ → Option EventSubscriber
find_by_id registry id = find (λ s. s.id == id) registry.by_id

-- `push` onto the entry of a type.
abbrev pub push : ℕ → EventSubscriber → (ℕ → List EventSubscriber) → ℕ → List EventSubscriber
push type subscriber by_type t = if t == type then by_type t ++ (subscriber ∷ []) else by_type t

unfoldable pub push_each :
    List ℕ → EventSubscriber → (ℕ → List EventSubscriber) → ℕ → List EventSubscriber
push_each [] subscriber by_type = by_type
push_each (type ∷ types) subscriber by_type =
    push_each types subscriber (push type subscriber by_type)

abbrev pub add_subscriber :
    EventSubscriber → Registry → Option EventSubscriber → Outcome Error Registry
add_subscriber subscriber registry (some known) = err already_registered
add_subscriber subscriber registry none = ok (record {
  by_event_type = push_each subscriber.event_types subscriber registry.by_event_type;
  by_id = registry.by_id ++ (subscriber ∷ []);
})

unfoldable pub register : EventSubscriber → Registry → Outcome Error Registry
register subscriber registry =
    add_subscriber subscriber registry (find_by_id registry subscriber.id)

-- The event type "*" is 0.
unfoldable pub subscribers_for : Registry → ℕ → List EventSubscriber
subscribers_for registry event_type = registry.by_event_type event_type ++ registry.by_event_type 0

pub data Status : Type 0 where
  pending published : Status

-- A row of `domainEvent`, and the envelope that is made of it.
pub record Envelope : Type 0 where
  pub event_id : ℕ
  pub event_type : ℕ
  pub event_version : ℕ
  pub aggregate_type : ℕ
  pub aggregate_id : ℕ
  pub occurred_at : ℕ
  pub payload : ℕ

pub record DomainEvent : Type 0 where
  pub envelope : Envelope
  pub status : Status
  pub attempts : ℕ
  pub last_error : Option ℕ
  pub published_at : Option ℕ

-- A job of the dispatch queue, whose identifier is made of its event and its subscriber.
pub record EventDispatchJobData : Type 0 where
  pub event_id : ℕ
  pub subscriber_id : ℕ
  pub envelope : Envelope

abbrev pub is_pending : Status → Bool
is_pending pending = true
is_pending published = false

-- `orderBy` the time, stable, and `take`.
unfoldable pub insert : DomainEvent → List DomainEvent → List DomainEvent
insert e [] = e ∷ []
insert e (x ∷ xs) =
    let rest = insert e xs in
    if ltb x.envelope.occurred_at e.envelope.occurred_at then x ∷ rest else e ∷ x ∷ xs

unfoldable pub order : List DomainEvent → List DomainEvent
order [] = []
order (e ∷ es) = insert e (order es)

abbrev pub take_events : ℕ → List DomainEvent → List DomainEvent
take_events zero es = []
take_events (suc n) [] = []
take_events (suc n) (e ∷ es) = e ∷ take_events n es

unfoldable pub pending_batch : ℕ → List DomainEvent → List DomainEvent
pending_batch size table = take_events size (order (keep (λ e. is_pending e.status) table))

-- The jobs that the dispatch queue remembers, against which it tests a new one, and those that it
-- has taken so far.
pub record Jobs : Type 0 where
  pub retained : List EventDispatchJobData
  pub taken : List EventDispatchJobData

-- What the queue makes of the call for a job: the message with which it fails, if it does, and the
-- jobs that it still remembers at the call, since it removes finished ones after a while.
pub record QueueService : Type 0 where
  pub fails : EventDispatchJobData → Option ℕ
  pub remembers : EventDispatchJobData → EventDispatchJobData → Bool

-- `enqueue`: a job whose identifier is remembered is not added again.
abbrev pub same_job : EventDispatchJobData → EventDispatchJobData → Bool
same_job a b = a.event_id == b.event_id && a.subscriber_id == b.subscriber_id

abbrev pub accept_job : Bool → EventDispatchJobData → List EventDispatchJobData → Jobs → Jobs
accept_job true job retained jobs = record jobs { retained = retained }
accept_job false job retained jobs = record { retained = job ∷ retained; taken = job ∷ jobs.taken }

unfoldable pub add_job : QueueService → EventDispatchJobData → Jobs → Jobs
add_job queue job jobs =
    let retained = keep (queue.remembers job) jobs.retained in
    accept_job (any (same_job job) retained) job retained jobs

abbrev pub job_for : Envelope → EventSubscriber → EventDispatchJobData
job_for envelope subscriber = record {
  event_id = envelope.event_id;
  subscriber_id = subscriber.id;
  envelope = envelope;
}

abbrev pub after_enqueue : Option ℕ → Jobs → Option ℕ × Jobs → Option ℕ × Jobs
after_enqueue none jobs rest = rest
after_enqueue (some message) jobs rest = (some message, jobs)

-- The loop over the subscribers of an event, with the message of the call that fails, if one does.
unfoldable pub enqueue_each :
    QueueService → Envelope → List EventSubscriber → Jobs → Option ℕ × Jobs
enqueue_each queue envelope [] jobs = (none, jobs)
enqueue_each queue envelope (s ∷ ss) jobs =
    let job = job_for envelope s in
    after_enqueue (queue.fails job) jobs (enqueue_each queue envelope ss (add_job queue job jobs))

-- `recordRelayFailure`
unfoldable pub record_relay_failure : ℕ → ℕ → List DomainEvent → List DomainEvent
record_relay_failure event_id message table =
    map
      (λ e.
        if e.envelope.event_id == event_id
        then record e { attempts = e.attempts + 1; last_error = some message }
        else e)
      table

-- The outbox, the jobs of the queue, and `publishedIds`.
pub record Pass : Type 0 where
  pub events : List DomainEvent
  pub jobs : Jobs
  pub published_ids : List ℕ

-- What follows the loop over the subscribers of an event.
abbrev pub settle : ℕ → Pass → Option ℕ × Jobs → Pass
settle event_id pass (none, jobs) = record pass {
  jobs = jobs;
  published_ids = pass.published_ids ++ (event_id ∷ []);
}
settle event_id pass (some message, jobs) = record pass {
  events = record_relay_failure event_id message pass.events;
  jobs = jobs;
}

module _ (queue : QueueService) (registry : Registry) where
  unfoldable pub relay_event : DomainEvent → Pass → Pass
  relay_event e pass =
      settle e.envelope.event_id pass
        (enqueue_each queue e.envelope (subscribers_for registry e.envelope.event_type) pass.jobs)

  unfoldable pub relay_each : List DomainEvent → Pass → Pass
  relay_each [] pass = pass
  relay_each (e ∷ es) pass = relay_each es (relay_event e pass)

-- `updateMany` of the events that were relayed.
unfoldable pub mark_published : ℕ → List ℕ → List DomainEvent → List DomainEvent
mark_published now ids table =
    map
      (λ e.
        if has ids e.envelope.event_id
        then record e { status = published; published_at = some now }
        else e)
      table

pub record World : Type 0 where
  pub events : List DomainEvent
  pub jobs : Jobs

-- The loop of `relayPendingEvents` over a number of rows of the batch.
abbrev pub relay_some : QueueService → Registry → ℕ → ℕ → World → Pass
relay_some queue registry batch_size count world =
    relay_each queue registry (take_events count (pending_batch batch_size world.events))
      (record { events = world.events; jobs = world.jobs; published_ids = [] })

-- `relayPendingEvents`: the tables after the call, and the number of events that it returns.
unfoldable pub relay_pending_events : QueueService → Registry → ℕ → ℕ → World → World × ℕ
relay_pending_events queue registry batch_size now world =
    let pass = relay_some queue registry batch_size batch_size world in
    (
      record { events = mark_published now pass.published_ids pass.events; jobs = pass.jobs },
      length pass.published_ids,
    )

-- `dispatch`, with what the subscriber of an identifier makes of an envelope.
unfoldable pub dispatch :
    Registry
    → (ℕ → Envelope → Outcome Error (Unit {0}))
    → EventDispatchJobData
    → Outcome Error (Unit {0})
dispatch registry handle job =
    or_throw (find_by_id registry job.subscriber_id) unknown_subscriber >>= λ subscriber.
    handle subscriber.id job.envelope
