-- ===== src/Events/Bus.antt =====
-- The writer of the outbox, apps/backend/src/events/event-bus.service.ts: `publishWithin` with any
-- number of events, and `nudgeRelay`.
pub mod Replayed
use strat_align.Prelude.{
  ℕ, suc, ◌+◌, Bool, true, false, Option, none, some, List, [], ◌∷◌, ◌==◌, if◌then◌else◌, any,
}

pub record EventPublicationRequest : Type 0 where
  pub event_type : ℕ
  pub event_version : ℕ
  pub aggregate_type : ℕ
  pub aggregate_id : ℕ
  pub dedupe_key : ℕ
  pub occurred_at : Option ℕ
  pub payload : ℕ

-- What is written of a row of `domainEvent`.
pub record OutboxRow : Type 0 where
  pub event_type : ℕ
  pub event_version : ℕ
  pub aggregate_type : ℕ
  pub aggregate_id : ℕ
  pub dedupe_key : ℕ
  pub occurred_at : ℕ
  pub payload : ℕ

abbrev pub or_now : ℕ → Option ℕ → ℕ
or_now now none = now
or_now now (some time) = time

abbrev pub row_of : ℕ → EventPublicationRequest → OutboxRow
row_of now request = record {
  event_type = request.event_type;
  event_version = request.event_version;
  aggregate_type = request.aggregate_type;
  aggregate_id = request.aggregate_id;
  dedupe_key = request.dedupe_key;
  occurred_at = or_now now request.occurred_at;
  payload = request.payload;
}

abbrev pub is_known : List OutboxRow → ℕ → Bool
is_known rows key = any (λ r. r.dedupe_key == key) rows

-- `createMany` with `skipDuplicates`: the number of rows that it adds, and the rows.
unfoldable pub create_many : ℕ → List EventPublicationRequest → List OutboxRow → ℕ × List OutboxRow
create_many now [] rows = (0, rows)
create_many now (request ∷ requests) rows =
    let skipped = create_many now requests rows in
    let (count, rest) = create_many now requests (row_of now request ∷ rows) in
    if is_known rows request.dedupe_key then skipped else (suc count, rest)

-- `publishWithin`
unfoldable pub publish_within :
    ℕ → List EventPublicationRequest → List OutboxRow → ℕ × List OutboxRow
publish_within now [] rows = (0, rows)
publish_within now (request ∷ requests) rows = create_many now (request ∷ requests) rows

-- `nudgeRelay`: the jobs that the relay queue has, and whether it takes one; a failure is logged.
unfoldable pub nudge_relay : Bool → ℕ → ℕ
nudge_relay accepts nudges = if accepts then suc nudges else nudges
