-- ===== src/Events/Relay/Progress.antt =====
-- A pass in which no call of the queue fails publishes the oldest pending events.
use strat_align.Prelude.{
  ℕ, zero, suc, Bool, true, false, Option, none, some, List, [], ◌∷◌, ◌++◌, ◌≡◌, refl, sym, ap, ◌∙◌,
  inl, inr, arith, In, if◌then◌else◌, test_refl, In-map, keep, ◌≤◌,
}
use mathlib.Core.Path.{subst}
use strat_align.Strategy.Cycle.{has}
use strat_align.Events.{
  EventSubscriber, Registry, subscribers_for, published, Envelope, DomainEvent,
  EventDispatchJobData, Jobs, QueueService, job_for, pending, is_pending, order, take_events,
  pending_batch, add_job, enqueue_each, Pass, settle, relay_event, relay_each, mark_published,
  World, relay_some, relay_pending_events,
}
use strat_align.Events.Relay.Batch.{pending_until, batch-In, In-pending_batch}

has-last : (ids : List ℕ) (a : ℕ) → has (ids ++ (a ∷ [])) a ≡ true
has-last [] a = rw (test_refl a) refl
has-last (x ∷ ids) a = ground (arith, has-last ids a)

has-more : (ids : List ℕ) (a b : ℕ) → has ids b ≡ true → has (ids ++ (a ∷ [])) b ≡ true
has-more [] a b h = cc
has-more (x ∷ ids) a b h = ground (arith, has-more ids a b)

-- What an event that was relayed without a failure leaves.
settle-passes :
    (id : ℕ) (p : Pass) (r : Option ℕ × Jobs)
    → r.0 ≡ none
    → ((settle id p r).events ≡ p.events)
      × (has (settle id p r).published_ids id ≡ true)
      × ((k : ℕ) → has p.published_ids k ≡ true → has (settle id p r).published_ids k ≡ true)
settle-passes id p (none, jobs) h =
    (refl, has-last p.published_ids id, λ k i. has-more p.published_ids id k i)
settle-passes id p (some message, jobs) h = cc

take_all : (n : ℕ) (xs : List DomainEvent) → take_events n (take_events n xs) ≡ take_events n xs
take_all zero xs = refl
take_all (suc n) [] = refl
take_all (suc n) (x ∷ xs) = ap (λ ys. x ∷ ys) (take_all n xs)

batch_once : (n : ℕ) (t : List DomainEvent) → take_events n (pending_batch n t) ≡ pending_batch n t
unfolding pending_batch
batch_once n t = take_all n (order (keep (λ e. is_pending e.status) t))

marked-IsPublished :
    (b : Bool) (now : ℕ) (x : DomainEvent)
    → b ≡ true
    → ((if b then record x { status = published; published_at = some now } else x).envelope
        ≡ x.envelope)
      × ((if b then record x { status = published; published_at = some now } else x).status
          ≡ published)
marked-IsPublished true now x h = (refl, refl)
marked-IsPublished false now x h = cc

module _ (queue : QueueService) (takes : (job : EventDispatchJobData) → queue.fails job ≡ none)
    (registry : Registry) where
  enqueue_each-passes :
      (envelope : Envelope) (ss : List EventSubscriber) (jobs : Jobs)
      → (enqueue_each queue envelope ss jobs).0 ≡ none
  unfolding enqueue_each
  enqueue_each-passes envelope [] jobs = refl
  enqueue_each-passes envelope (s ∷ ss) jobs =
      rw (takes (job_for envelope s))
        (enqueue_each-passes envelope ss (add_job queue (job_for envelope s) jobs))

  -- What a pass over some events leaves.
  record HasRelayed (es : List DomainEvent) (p q : Pass) : Type 0 where
    same_events : q.events ≡ p.events
    kept_ids : (k : ℕ) → has p.published_ids k ≡ true → has q.published_ids k ≡ true
    all_ids : (e : DomainEvent) → In e es → has q.published_ids e.envelope.event_id ≡ true

  relay_each-HasRelayed :
      (es : List DomainEvent) (p : Pass) → HasRelayed es p (relay_each queue registry es p)
  unfolding relay_each relay_event
  relay_each-HasRelayed [] p = record {
    same_events = refl;
    kept_ids = λ k h. h;
    all_ids = λ e i. absurd i;
  }
  relay_each-HasRelayed (e ∷ es) p =
      let id = e.envelope.event_id in
      let subscribers = subscribers_for registry e.envelope.event_type in
      let r = enqueue_each queue e.envelope subscribers p.jobs in
      let (same, now_in, more) =
        settle-passes id p r (enqueue_each-passes e.envelope subscribers p.jobs) in
      let rest = relay_each-HasRelayed es (settle id p r) in
      record {
        same_events = rest.same_events ∙ same;
        kept_ids = λ k h. rest.kept_ids k (more k h);
        all_ids = λ f i. elim i [
          | inl here ↦
              subst
                (λ (d : DomainEvent).
                  has (relay_each queue registry es (settle id p r)).published_ids
                    d.envelope.event_id
                  ≡ true)
                (sym here) (rest.kept_ids id now_in)
          | inr later ↦ rest.all_ids f later
        ];
      }

  -- When no call of the queue fails, relayPendingEvents leaves every pending event published that
  -- is among the oldest: at most as many pending events as the batch size occurred at its time or
  -- before.
  pub relays_batch :
      (batch_size now : ℕ) (w : World) (e : DomainEvent)
      → In e w.events
      → e.status ≡ pending
      → pending_until e.envelope.occurred_at w.events ≤ batch_size
      → (x : DomainEvent) × In x (relay_pending_events queue registry batch_size now w).0.events
        × (x.envelope ≡ e.envelope)
        × (x.status ≡ published)
  unfolding relay_pending_events mark_published
  relays_batch batch_size now w e there waits oldest =
      let i = In-pending_batch batch_size w.events e there waits oldest in
      let batch = pending_batch batch_size w.events in
      let start : Pass = record { events = w.events; jobs = w.jobs; published_ids = [] } in
      let p = relay_some queue registry batch_size batch_size w in
      let done = relay_each-HasRelayed (take_events batch_size batch) start in
      let taken = subst (λ es. In e es) (sym (batch_once batch_size w.events)) i in
      let old =
        subst (λ es. In e es) (sym done.same_events)
          (batch-In batch_size batch_size w.events e taken) in
      let change = λ (d : DomainEvent).
        if has p.published_ids d.envelope.event_id
        then record d { status = published; published_at = some now }
        else d in
      (
        change e,
        In-map change p.events e old,
        (marked-IsPublished (has p.published_ids e.envelope.event_id) now e
            (done.all_ids e taken)).0,
        (marked-IsPublished (has p.published_ids e.envelope.event_id) now e
            (done.all_ids e taken)).1,
      )
