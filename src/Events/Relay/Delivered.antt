-- ===== src/Events/Relay/Delivered.antt =====
-- The outbox and the queue after any passes of the relay, those that stop in the middle among them.
use strat_align.Prelude.{
  ℕ, true, Option, none, some, List, [], ◌∷◌, ◌≡◌, ◌≢◌, refl, sym, ap, ◌∙◌, inl, inr, In, ◌==◌,
  and_true, eq_of_test,
}
use mathlib.Core.Path.{subst}
use strat_align.Strategy.Cycle.{has}
use strat_align.Events.{
  Registry, subscribers_for, pending, published, Envelope, DomainEvent, EventDispatchJobData,
  EventSubscriber, Jobs, QueueService, job_for, take_events, pending_batch, enqueue_each,
  record_relay_failure, Pass, settle, relay_event, relay_each, mark_published, World, relay_some,
  relay_pending_events,
}
use strat_align.Events.Relay.Rows.{
  HasIds, IsCarried, id_of, IsForwarded, failure-IsCarried, failure-IsForwarded, has-snoc, IsKnown,
  IsThere, carried-IsKnown, forwarded-IsThere, settle-IsCarried, settle-IsForwarded, mark_origin,
  mark-IsForwarded,
}
use strat_align.Events.Relay.Batch.{batch-In}
use strat_align.Events.Relay.{IsDelivered, IsQueue, HasJobIds, Enqueued, enqueue_each-Enqueued}

module _ (registry : Registry) where
  -- A job with the envelope of an event of a table, for a subscriber of its type.
  abbrev pub IsAnnounced : List DomainEvent → EventDispatchJobData → Type 0
  IsAnnounced events j =
      (e : DomainEvent) × (s : EventSubscriber) × In e events
      × In s (subscribers_for registry e.envelope.event_type)
      × (j ≡ job_for e.envelope s)

  -- The queue has taken a job for each subscriber of a published event, with the event's envelope,
  -- and no job but such ones of announced events; the jobs that it remembers are among them.
  pub record IsSound (w : World) : Type 0 where
    pub ids : HasIds w.events
    pub queue : IsQueue (IsAnnounced w.events) w.jobs
    pub delivered :
        (e : DomainEvent)
        → In e w.events
        → e.status ≡ published
        → IsDelivered registry w.jobs e.envelope

  HasIds-HasJobIds : (t : List DomainEvent) → HasIds t → HasJobIds (IsAnnounced t)
  HasIds-HasJobIds t ids j k (e, s, i, u, ej) (f, r, i', u', ek) h =
      let (same_event, same_subscriber) =
        and_true (j.event_id == k.event_id) (j.subscriber_id == k.subscriber_id) h in
      let one = ids e f i i' (
        sym (ap (λ (d : EventDispatchJobData). d.event_id) ej)
        ∙ eq_of_test j.event_id k.event_id same_event
        ∙ ap (λ (d : EventDispatchJobData). d.event_id) ek) in
      let two =
        sym (ap (λ (d : EventDispatchJobData). d.subscriber_id) ej)
        ∙ eq_of_test j.subscriber_id k.subscriber_id same_subscriber
        ∙ ap (λ (d : EventDispatchJobData). d.subscriber_id) ek in
      ej ∙ job-eq s r one two ∙ sym ek
    where
      job-eq :
          {v w : Envelope} (s r : EventSubscriber) → v ≡ w → s.id ≡ r.id → job_for v s ≡ job_for w r
      job-eq s r h k = rw (h, k) refl

  pub data Reached : World → Type 0 where
    empty : Reached (record { events = []; jobs = record { retained = []; taken = [] } })
    announces :
        {w : World} (e : DomainEvent)
        → Reached w
        → e.status ≡ pending
        → ((x : DomainEvent) → In x w.events → x.envelope.event_id ≢ e.envelope.event_id)
        → Reached (record w { events = e ∷ w.events })
    relays :
        {w : World} (queue : QueueService) (batch_size now : ℕ)
        → Reached w
        → Reached (relay_pending_events queue registry batch_size now w).0
    stops :
        {w : World} (queue : QueueService) (batch_size count : ℕ)
        → Reached w
        → Reached (record {
          events = (relay_some queue registry batch_size count w).events;
          jobs = (relay_some queue registry batch_size count w).jobs;
        })

  record IsPass (p : Pass) : Type 0 where
    world : IsSound (record { events = p.events; jobs = p.jobs })
    relayed :
        (e : DomainEvent)
        → In e p.events
        → has p.published_ids e.envelope.event_id ≡ true
        → IsDelivered registry p.jobs e.envelope

  forwarded-IsQueue :
      (t t' : List DomainEvent) (jobs : Jobs)
      → IsForwarded t t'
      → IsQueue (IsAnnounced t) jobs
      → IsQueue (IsAnnounced t') jobs
  forwarded-IsQueue t t' jobs forward q = record {
    remembered = q.remembered;
    known = λ j i.
        let (e, s, there, subscribed, same) = q.known j i in
        let (e', there', alike) = forward e there in
        (
          e',
          s,
          there',
          subst (λ (v : Envelope). In s (subscribers_for registry v.event_type)) (sym alike)
              subscribed,
          same ∙ ap (λ v. job_for v s) (sym alike),
        );
  }

  carried-IsPass :
      (t t' : List DomainEvent) (jobs : Jobs) (ids : List ℕ)
      → IsCarried t t'
      → IsForwarded t t'
      → IsPass (record { events = t; jobs = jobs; published_ids = ids })
      → IsPass (record { events = t'; jobs = jobs; published_ids = ids })
  carried-IsPass t t' jobs ids carried forward p = record {
    world = record {
      queue = forwarded-IsQueue t t' jobs forward p.world.queue;
      ids = λ x' y' i j e.
          let (x, i', ex, sx) = carried x' i in
          let (y, j', ey, sy) = carried y' j in
          ex ∙ p.world.ids x y i' j' (sym (ap id_of ex) ∙ e ∙ ap id_of ey) ∙ sym ey;
      delivered = λ x' i h.
          let (x, i', ex, sx) = carried x' i in
          subst (λ v. IsDelivered registry jobs v) (sym ex) (p.world.delivered x i' (sym sx ∙ h));
    };
    relayed = λ x' i h.
        let (x, i', ex, sx) = carried x' i in
        subst (λ v. IsDelivered registry jobs v) (sym ex)
          (p.relayed x i' (subst (λ v. has ids v.event_id ≡ true) ex h));
  }

  module _ (queue : QueueService) where
    abbrev IsEnqueued : DomainEvent → (p : Pass) → IsPass p → Option ℕ × Jobs → Type 0
    IsEnqueued e p sound r =
        Enqueued (HasIds-HasJobIds p.events sound.world.ids) queue e.envelope
          (subscribers_for registry e.envelope.event_type) p.jobs r

    enqueue-IsEnqueued :
        (e : DomainEvent) (p : Pass) (sound : IsPass p)
        → IsThere p.events e
        → IsEnqueued e p sound
            (enqueue_each queue e.envelope (subscribers_for registry e.envelope.event_type) p.jobs)
    enqueue-IsEnqueued e p sound (x, i, same) =
        enqueue_each-Enqueued (HasIds-HasJobIds p.events sound.world.ids) queue e.envelope
          (subscribers_for registry e.envelope.event_type) p.jobs sound.world.queue
          (λ s j. (
            x,
            s,
            i,
            subst (λ (v : Envelope). In s (subscribers_for registry v.event_type)) (sym same) j,
            ap (λ v. job_for v s) (sym same),
          ))

    -- The jobs of an event are added to those of a pass.
    more-IsPass :
        (e : DomainEvent) (p : Pass) (r : Option ℕ × Jobs) (sound : IsPass p)
        → IsEnqueued e p sound r
        → IsPass (record p { jobs = r.1 })
    more-IsPass e p r sound q = record {
      world = record {
        ids = sound.world.ids;
        queue = q.sound;
        delivered = λ x i h s j. q.more (job_for x.envelope s) (sound.world.delivered x i h s j);
      };
      relayed = λ x i h s j. q.more (job_for x.envelope s) (sound.relayed x i h s j);
    }

    settle-IsPass :
        (e : DomainEvent) (p : Pass) (r : Option ℕ × Jobs) (sound : IsPass p)
        → IsEnqueued e p sound r
        → IsKnown p.events e
        → IsPass (settle e.envelope.event_id p r)
    settle-IsPass e p (none, jobs) sound q known =
        let more = more-IsPass e p (none, jobs) sound q in
        record {
          world = more.world;
          relayed = λ x i h. elim (has-snoc p.published_ids e.envelope.event_id _ h) [
            | inl old ↦ more.relayed x i old
            | inr same ↦
                subst (λ v. IsDelivered registry jobs v) (sym (known x i (sym same)))
                  (q.all_taken refl)
          ];
        }
    settle-IsPass e p (some message, jobs) sound q known =
        let more = more-IsPass e p (some message, jobs) sound q in
        carried-IsPass p.events (record_relay_failure e.envelope.event_id message p.events) jobs
          p.published_ids (failure-IsCarried e.envelope.event_id message p.events)
          (failure-IsForwarded e.envelope.event_id message p.events) more

    relay_each-IsPass :
        (es : List DomainEvent) (p : Pass)
        → ((e : DomainEvent) → In e es → IsKnown p.events e × IsThere p.events e)
        → IsPass p
        → IsPass (relay_each queue registry es p)
          × IsForwarded p.events (relay_each queue registry es p).events
    unfolding relay_each relay_event
    relay_each-IsPass [] p known sound = (sound, λ x i. (x, i, refl))
    relay_each-IsPass (e ∷ es) p known sound =
        let subscribers = subscribers_for registry e.envelope.event_type in
        let r = enqueue_each queue e.envelope subscribers p.jobs in
        let next = settle e.envelope.event_id p r in
        let forward = settle-IsForwarded e.envelope.event_id p r in
        let (all_sound, all_forward) =
          relay_each-IsPass es next
            (λ f i. (
              carried-IsKnown p.events next.events f (settle-IsCarried e.envelope.event_id p r)
                  (known f (inr i)).0,
              forwarded-IsThere p.events next.events f forward (known f (inr i)).1,
            ))
            (settle-IsPass e p r sound (enqueue-IsEnqueued e p sound (known e (inl refl)).1)
              (known e (inl refl)).0) in
        (
          all_sound,
          λ x i.
              let (y, j, same) = forward x i in
              let (z, k, alike) = all_forward y j in (z, k, alike ∙ same),
        )

  relay_some-IsPass :
      (queue : QueueService) (size count : ℕ) (w : World)
      → IsSound w
      → IsPass (relay_some queue registry size count w)
  relay_some-IsPass queue size count w sound =
      (relay_each-IsPass queue (take_events count (pending_batch size w.events))
        (record { events = w.events; jobs = w.jobs; published_ids = [] })
        (λ e i.
          let there = batch-In count size w.events e i in
          (λ x j h. sound.ids x e j there h, (e, there, refl)))
        (record { world = sound; relayed = λ x i h. cc })).0

  mark-IsSound :
      (now : ℕ) (p : Pass)
      → IsPass p
      → IsSound (record { events = mark_published now p.published_ids p.events; jobs = p.jobs })
  mark-IsSound now p sound = record {
    queue =
        forwarded-IsQueue p.events (mark_published now p.published_ids p.events) p.jobs
          (mark-IsForwarded now p.published_ids p.events) sound.world.queue;
    ids = λ x' y' i j e.
        let (x, i', ex, sx) = mark_origin now p.published_ids p.events x' i in
        let (y, j', ey, sy) = mark_origin now p.published_ids p.events y' j in
        ex ∙ sound.world.ids x y i' j' (sym (ap id_of ex) ∙ e ∙ ap id_of ey) ∙ sym ey;
    delivered = λ x' i h.
        let (x, i', ex, sx) = mark_origin now p.published_ids p.events x' i in
        subst (λ v. IsDelivered registry p.jobs v) (sym ex)
          (elim sx [
            | inl done ↦ sound.relayed x i' done
            | inr same ↦ sound.world.delivered x i' (sym same ∙ h)
          ]);
  }

  announced-IsSound :
      (w : World) (e : DomainEvent)
      → IsSound w
      → e.status ≡ pending
      → ((x : DomainEvent) → In x w.events → x.envelope.event_id ≢ e.envelope.event_id)
      → IsSound (record w { events = e ∷ w.events })
  announced-IsSound w e sound is_new fresh = record {
    queue = forwarded-IsQueue w.events (e ∷ w.events) w.jobs (λ x i. (x, inr i, refl)) sound.queue;
    ids = ids_kept;
    delivered = λ x i h. elim i [ inl new ↦ cc | inr old ↦ sound.delivered x old h ];
  }
    where
      ids_kept : HasIds (e ∷ w.events)
      ids_kept x y (inl a) (inl b) h = ap (λ (d : DomainEvent). d.envelope) (a ∙ sym b)
      ids_kept x y (inl a) (inr j) h =
          absurd (fresh y j (sym h ∙ ap (λ (d : DomainEvent). d.envelope.event_id) a))
      ids_kept x y (inr i) (inl b) h =
          absurd (fresh x i (h ∙ ap (λ (d : DomainEvent). d.envelope.event_id) b))
      ids_kept x y (inr i) (inr j) h = sound.ids x y i j h

  -- Whatever events are announced and however the relay passes over them, with calls of the queue
  -- that fail, passes that stop before they mark what they relayed, and a queue that forgets any
  -- jobs at any call: the queue has taken, for a published event, a job with its envelope for each
  -- subscriber of its type; and every job that it has taken has the envelope of an announced event
  -- and goes to a subscriber of its type.
  pub relay-IsSound : {w : World} → Reached w → IsSound w
  unfolding relay_pending_events
  relay-IsSound empty = record {
    queue = record { remembered = λ j i. absurd i; known = λ j i. absurd i };
    ids = λ x y i j e. absurd i;
    delivered = λ e i h. absurd i;
  }
  relay-IsSound (announces {w} e r is_new fresh) =
      announced-IsSound w e (relay-IsSound r) is_new fresh
  relay-IsSound (relays {w} queue size now r) =
      mark-IsSound now (relay_some queue registry size size w)
        (relay_some-IsPass queue size size w (relay-IsSound r))
  relay-IsSound (stops {w} queue size count r) =
      (relay_some-IsPass queue size count w (relay-IsSound r)).world
