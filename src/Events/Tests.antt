-- ===== src/Events/Tests.antt =====
-- Runs of the relay and the registry, and the theorems at concrete tables.
use strat_align.Prelude.{
  ℕ, none, some, [], ◌∷◌, ◌≡◌, refl, true, arith, ◌==◌, if◌then◌else◌, In, inl, inr, ok, err,
  Outcome, List, false, length, ◌+◌,
}
use strat_align.Events.{
  EventSubscriber, Registry, Error, find_by_id, push_each, register, subscribers_for, published,
  pending, Envelope, DomainEvent, EventDispatchJobData, QueueService, job_for, insert, order,
  pending_batch, add_job, enqueue_each, record_relay_failure, relay_event, relay_each,
  mark_published, World, relay_pending_events, dispatch,
}
use strat_align.Events.Bus.{
  EventPublicationRequest, OutboxRow, row_of, create_many, publish_within, nudge_relay,
}
use strat_align.Events.Bus.Replayed.{HasDistinctKeys, replay_adds_nothing}
use strat_align.Events.Registered.{Registered, nobody, registers, dispatch_goes}
use strat_align.Events.Relay.Delivered.{IsSound, Reached, empty, announces, relays, relay-IsSound}
use strat_align.Events.Relay.Progress.{relays_batch}

delivery : Unit {0}
unfolding find_by_id push_each register subscribers_for insert order pending_batch add_job
    enqueue_each record_relay_failure relay_event relay_each mark_published relay_pending_events
    dispatch
delivery = tt

-- Subscriber 1 wants events of type 5, subscriber 2 those of every type.
abbrev first_subscriber : EventSubscriber
first_subscriber = record { id = 1; event_types = 5 ∷ [] }

abbrev second_subscriber : EventSubscriber
second_subscriber = record { id = 2; event_types = 0 ∷ [] }

abbrev one_registered : Registry
one_registered = record {
  by_event_type = push_each (5 ∷ []) first_subscriber (λ t. []);
  by_id = first_subscriber ∷ [];
}

abbrev registry : Registry
registry = record {
  by_event_type =
      push_each (0 ∷ []) second_subscriber (push_each (5 ∷ []) first_subscriber (λ t. []));
  by_id = first_subscriber ∷ second_subscriber ∷ [];
}

abbrev envelope : Envelope
envelope = record {
  event_id = 31;
  event_type = 5;
  event_version = 1;
  aggregate_type = 2;
  aggregate_id = 77;
  occurred_at = 400;
  payload = 6;
}

abbrev event : DomainEvent
event = record {
  envelope = envelope;
  status = pending;
  attempts = 0;
  last_error = none;
  published_at = none;
}

abbrev announced : World
announced = record { events = event ∷ []; jobs = record { retained = []; taken = [] } }

-- A queue that refuses the jobs of subscriber 2, one that takes every job, and one that forgets
-- too.
abbrev refuses : QueueService
refuses = record {
  fails = λ job. if job.subscriber_id == 2 then some 9 else none;
  remembers = λ job known. true;
}

abbrev accepts : QueueService
accepts = record { fails = λ job. none; remembers = λ job known. true }

abbrev forgets : QueueService
forgets = record { fails = λ job. none; remembers = λ job known. false }

abbrev first_job : EventDispatchJobData
first_job = job_for envelope first_subscriber

abbrev second_job : EventDispatchJobData
second_job = job_for envelope second_subscriber

abbrev retried : World
retried = record {
  events = record event { attempts = 1; last_error = some 9 } ∷ [];
  jobs = record { retained = first_job ∷ []; taken = first_job ∷ [] };
}

abbrev relayed : World
relayed = record {
  events =
      record event {
        status = published;
        attempts = 1;
        last_error = some 9;
        published_at = some 600;
      }
      ∷ [];
  jobs = record { retained = second_job ∷ first_job ∷ []; taken = second_job ∷ first_job ∷ [] };
}

runs :
    (register first_subscriber one_registered ≡ err Error.already_registered)
    × (subscribers_for registry 5 ≡ first_subscriber ∷ second_subscriber ∷ [])
    × (subscribers_for registry 6 ≡ second_subscriber ∷ [])
    × (relay_pending_events refuses registry 10 500 announced ≡ (retried, 0))
    × (relay_pending_events accepts registry 10 600 retried ≡ (relayed, 1))
    × (relay_pending_events accepts registry 10 700 relayed ≡ (relayed, 0))
    × ((relay_pending_events forgets registry 10 600 retried).0.jobs.taken
        ≡ second_job ∷ first_job ∷ first_job ∷ [])
unfolding delivery
runs = (refl, refl, refl, refl, refl, refl, refl)

built : Registered registry
unfolding delivery
built = registers second_subscriber (registers first_subscriber nobody refl) refl

abbrev handler : ℕ → Envelope → Outcome Error (Unit {0})
handler id e = if id == 1 then ok tt else err Error.handler_failed

dispatch_goes_example :
    dispatch registry handler (job_for envelope second_subscriber) ≡ handler 2 envelope
unfolding delivery
dispatch_goes_example = dispatch_goes handler envelope second_subscriber built (inr (inl refl))

delivered-Reached : Reached registry (relay_pending_events accepts registry 10 600 announced).0
delivered-Reached = relays accepts 10 600 (announces event empty refl (λ x i h. i))

relay-IsSound_example : IsSound registry (relay_pending_events accepts registry 10 600 announced).0
relay-IsSound_example = relay-IsSound registry delivered-Reached

relays_batch_example :
    (x : DomainEvent) × In x (relay_pending_events accepts registry 10 600 announced).0.events
    × (x.envelope ≡ envelope)
    × (x.status ≡ published)
unfolding delivery
relays_batch_example =
    relays_batch accepts (λ job. refl) registry 10 600 announced event (inl refl) refl (omega arith)

abbrev request : ℕ → ℕ → EventPublicationRequest
request key payload = record {
  event_type = 5;
  event_version = 1;
  aggregate_type = 2;
  aggregate_id = 77;
  dedupe_key = key;
  occurred_at = none;
  payload = payload;
}

bus : Unit {0}
unfolding create_many publish_within nudge_relay
bus = tt

abbrev requests : List EventPublicationRequest
requests = request 1 10 ∷ request 2 20 ∷ request 1 30 ∷ []

bus_runs :
    (publish_within 900 requests []
      ≡ (2, row_of 900 (request 2 20) ∷ row_of 900 (request 1 10) ∷ []))
    × (nudge_relay false 4 ≡ 4)
unfolding bus
bus_runs = (refl, refl)

replay_adds_nothing_example :
    HasDistinctKeys (publish_within 900 requests []).1
    × (length (publish_within 900 requests []).1
        ≡ (publish_within 900 requests []).0 + length {A = OutboxRow} [])
    × (publish_within 950 requests (publish_within 900 requests []).1
        ≡ (0, (publish_within 900 requests []).1))
replay_adds_nothing_example = replay_adds_nothing 900 950 requests [] tt
