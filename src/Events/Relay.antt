-- ===== src/Events/Relay.antt =====
-- The jobs that the relay gives to the queue: what a call adds, and the loop over the subscribers.
pub mod Batch
pub mod Rows
pub mod Delivered
pub mod Progress
use strat_align.Prelude.{
  ℕ, zero, suc, ◌+◌, Bool, true, false, Option, none, some, List, [], ◌∷◌, ◌++◌, ◌≡◌, ◌≢◌, refl,
  sym, ap, ◌∙◌, ◌⊎◌, inl, inr, arith, In, ◌==◌, ◌&&◌, ◌||◌, any, map, keep, if◌then◌else◌,
  Bool-cases, Option-cases, eq_of_test, test_refl, map-In, keep-In,
}
use mathlib.Core.Path.{subst}
use strat_align.Strategy.Cycle.{has}
use strat_align.Strategy.Cycle.Sets.{In-of_has, has-of_In}
use strat_align.Events.{
  EventSubscriber, Registry, subscribers_for, Status, pending, published, Envelope, DomainEvent,
  EventDispatchJobData, insert, order, take_events, pending_batch, same_job, Jobs, QueueService,
  add_job, job_for, after_enqueue, enqueue_each, record_relay_failure, Pass, settle, relay_event,
  relay_each, mark_published, World, relay_some, relay_pending_events,
}

-- The queue has taken a job with an envelope for each subscriber of its type.
abbrev pub IsDelivered : Registry → Jobs → Envelope → Type 0
IsDelivered registry jobs envelope =
    (s : EventSubscriber)
    → In s (subscribers_for registry envelope.event_type)
    → In (job_for envelope s) jobs.taken

-- What a job is taken for.
abbrev pub JobKind : Type 1
JobKind = EventDispatchJobData → Type 0

-- The remembered jobs were taken, and those taken are of a kind.
pub record IsQueue (P : JobKind) (jobs : Jobs) : Type 0 where
  pub remembered : (j : EventDispatchJobData) → In j jobs.retained → In j jobs.taken
  pub known : (j : EventDispatchJobData) → In j jobs.taken → P j

-- Jobs of the kind with one identifier are one.
abbrev pub HasJobIds : JobKind → Type 0
HasJobIds P = (j k : EventDispatchJobData) → P j → P k → same_job j k ≡ true → j ≡ k

any-In :
    (j : EventDispatchJobData) (ks : List EventDispatchJobData)
    → any (same_job j) ks ≡ true
    → (k : EventDispatchJobData) × In k ks × (same_job j k ≡ true)
any-In j [] h = cc
any-In j (k ∷ ks) h = elim (Bool-cases (same_job j k)) [
  | inl found ↦ (k, inl refl, found)
  | inr other ↦
      let (m, i, e) = any-In j ks (subst (λ b. (b || any (same_job j) ks) ≡ true) other h) in
      (m, inr i, e)
]

module _ {P : JobKind} (ids : HasJobIds P) where
  -- A call of the queue that does not fail: the job is taken, now or before.
  record Added (j : EventDispatchJobData) (jobs after : Jobs) : Type 0 where
    sound : IsQueue P after
    more : (k : EventDispatchJobData) → In k jobs.taken → In k after.taken
    own : In j after.taken

  add_job-Added :
      (queue : QueueService) (j : EventDispatchJobData) (jobs : Jobs)
      → P j
      → IsQueue P jobs
      → Added j jobs (add_job queue j jobs)
  unfolding add_job
  add_job-Added queue j jobs of_kind q =
      elim (Bool-cases (any (same_job j) (keep (queue.remembers j) jobs.retained))) [
        | inl again ↦
            let (k, i, alike) = any-In j (keep (queue.remembers j) jobs.retained) again in
            let old = q.remembered k (keep-In (queue.remembers j) jobs.retained k i).0 in
            rw again (record {
              sound = record {
                remembered =
                    λ m h. q.remembered m (keep-In (queue.remembers j) jobs.retained m h).0;
                known = q.known;
              };
              more = λ m h. h;
              own = subst (λ m. In m jobs.taken) (sym (ids j k of_kind (q.known k old) alike)) old;
            })
        | inr new ↦ rw new (record {
          sound = record {
            remembered = λ m h. elim h [
              | inl same ↦ inl same
              | inr kept ↦ inr (q.remembered m (keep-In (queue.remembers j) jobs.retained m kept).0)
            ];
            known = λ m h. elim h [
              | inl same ↦ subst (λ x. P x) (sym same) of_kind
              | inr old ↦ q.known m old
            ];
          };
          more = λ m h. inr h;
          own = inl refl;
        })
      ]

  module _ (queue : QueueService) (envelope : Envelope) where
    -- What the loop over the subscribers leaves.
    pub record Enqueued (ss : List EventSubscriber) (jobs : Jobs) (r : Option ℕ × Jobs)
        : Type 0 where
      pub more : (k : EventDispatchJobData) → In k jobs.taken → In k r.1.taken
      pub sound : IsQueue P r.1
      pub all_taken :
          r.0 ≡ none → (s : EventSubscriber) → In s ss → In (job_for envelope s) r.1.taken

    pub enqueue_each-Enqueued :
        (ss : List EventSubscriber) (jobs : Jobs)
        → IsQueue P jobs
        → ((s : EventSubscriber) → In s ss → P (job_for envelope s))
        → Enqueued ss jobs (enqueue_each queue envelope ss jobs)
    unfolding enqueue_each
    enqueue_each-Enqueued [] jobs q kinds = record {
      more = λ k h. h;
      sound = q;
      all_taken = λ e s i. absurd i;
    }
    enqueue_each-Enqueued (s ∷ ss) jobs q kinds =
        let added = add_job-Added queue (job_for envelope s) jobs (kinds s (inl refl)) q in
        after (queue.fails (job_for envelope s)) added (
          enqueue_each-Enqueued ss (add_job queue (job_for envelope s) jobs) added.sound
            (λ t i. kinds t (inr i)))
      where
        after :
            (o : Option ℕ) {r : Option ℕ × Jobs}
            → Added (job_for envelope s) jobs (add_job queue (job_for envelope s) jobs)
            → Enqueued ss (add_job queue (job_for envelope s) jobs) r
            → Enqueued (s ∷ ss) jobs (after_enqueue o jobs r)
        after (some message) added e = record {
          more = λ k h. h;
          sound = q;
          all_taken = λ h t i. cc;
        }
        after none {r} added e = record {
          more = λ k h. e.more k (added.more k h);
          sound = e.sound;
          all_taken = λ h t i. elim i [
            | inl same ↦
                subst (λ u. In (job_for envelope u) r.1.taken) (sym same)
                  (e.more (job_for envelope s) added.own)
            | inr later ↦ e.all_taken h t later
          ];
        }
