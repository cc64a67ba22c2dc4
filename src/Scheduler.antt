-- ===== src/Scheduler.antt =====
-- apps/backend/src/modules/scheduler/schedule-transition.service.ts: cadence instances and their
-- window milestones. Instants are milliseconds, compared only; the database generates no value
-- here.
pub mod Workers
pub mod Advance
mod Tests
use strat_align.Prelude.{
  ℕ, zero, suc, Bool, true, false, Option, none, some, List, [], ◌∷◌, ◌==◌, ◌&&◌, ltb,
  if◌then◌else◌,
}

pub data Status : Type 0 where
  pending open_window closing closed review_due completed skipped failed : Status

pub data EventType : Type 0 where
  window_opened window_closing window_closed review_is_due : EventType

-- The columns of `cadenceInstance` that the service reads or writes. The stamps are the times at
-- which the milestones were announced.
pub record Instance : Type 0 where
  pub status : Status
  pub window_opens_at : ℕ
  pub window_closing_at : ℕ
  pub window_closes_at : ℕ
  pub review_due_at : ℕ
  pub opened_at : Option ℕ
  pub closing_notified_at : Option ℕ
  pub closed_at : Option ℕ
  pub review_notified_at : Option ℕ
  pub next_transition_at : Option ℕ
  pub attempts : ℕ
  pub last_error : Option ℕ

pub record TransitionRule : Type 0 where
  pub from : Status
  pub to : Status
  pub due_at : Instance → ℕ
  pub stamp : ℕ → Instance → Instance
  pub event_type : EventType

abbrev opening : TransitionRule
opening = record {
  from = pending;
  to = open_window;
  due_at = λ i. i.window_opens_at;
  stamp = λ now i. record i { opened_at = some now };
  event_type = window_opened;
}

abbrev narrowing : TransitionRule
narrowing = record {
  from = open_window;
  to = closing;
  due_at = λ i. i.window_closing_at;
  stamp = λ now i. record i { closing_notified_at = some now };
  event_type = window_closing;
}

abbrev shutting : TransitionRule
shutting = record {
  from = closing;
  to = closed;
  due_at = λ i. i.window_closes_at;
  stamp = λ now i. record i { closed_at = some now };
  event_type = window_closed;
}

abbrev reviewing : TransitionRule
reviewing = record {
  from = closed;
  to = review_due;
  due_at = λ i. i.review_due_at;
  stamp = λ now i. record i { review_notified_at = some now };
  event_type = review_is_due;
}

abbrev pub transitions : List TransitionRule
transitions = opening ∷ narrowing ∷ shutting ∷ reviewing ∷ []

abbrev pub status_index : Status → ℕ
status_index pending = 0
status_index open_window = 1
status_index closing = 2
status_index closed = 3
status_index review_due = 4
status_index completed = 5
status_index skipped = 6
status_index failed = 7

abbrev pub same_status : Status → Status → Bool
same_status a b = status_index a == status_index b

abbrev pub find_rule : Status → List TransitionRule → Option TransitionRule
find_rule s [] = none
find_rule s (r ∷ rs) = elim (same_status r.from s) [ true ↦ some r | false ↦ find_rule s rs ]

-- `TRANSITIONS.find((transition) => transition.from === status)`
unfoldable pub rule_for : Status → Option TransitionRule
rule_for s = find_rule s transitions

-- An outbox event; its dedupe key is the instance and the type.
pub record Event : Type 0 where
  pub instance_id : ℕ
  pub event_type : EventType
  pub occurred_at : ℕ

abbrev pub event_index : EventType → ℕ
event_index window_opened = 0
event_index window_closing = 1
event_index window_closed = 2
event_index review_is_due = 3

pub record Db : Type 0 where
  pub instances : ℕ → Option Instance
  pub outbox : List Event

abbrev pub has_key : List Event → ℕ → EventType → Bool
has_key [] id type = false
has_key (x ∷ xs) id type =
    elim (x.instance_id == id && event_index x.event_type == event_index type) [
      | true ↦ true
      | false ↦ has_key xs id type
    ]

-- `publishWithin` of one event, with `skipDuplicates`
pub publish : Event → Db → Db
publish e db =
    if has_key db.outbox e.instance_id e.event_type
    then db
    else record db { outbox = e ∷ db.outbox }

pub put : ℕ → Instance → Db → Db
put id i db = record db { instances = λ j. if j == id then some i else db.instances j }

-- `nextRule ? instance[nextRule.dueAt] : null`
abbrev next_due : Option TransitionRule → Instance → Option ℕ
next_due none i = none
next_due (some r) i = some (r.due_at i)

-- The row after the update of one transition; the dates in it are those of the row that was read.
pub moved : TransitionRule → ℕ → Instance → Instance → Instance
moved r now read row = r.stamp now (record row {
  status = r.to;
  next_transition_at = if same_status r.to review_due then none else next_due (rule_for r.to) read;
})

-- The compare-and-set and what follows it: `read` is the row that `findUnique` gave, and the update
-- applies to the row that is there now, if its status still is the one read.
pub compare_and_set : ℕ → TransitionRule → ℕ → Instance → Db → Option Db
compare_and_set id r now read db = elim (db.instances id) [
  | none ↦ none
  | some row ↦
      if same_status row.status r.from
      then some (
          publish (record { instance_id = id; event_type = r.event_type; occurred_at = now })
            (put id (moved r now read row) db))
      else none
]

pub record Applied : Type 0 where
  pub transitioned : Bool
  pub status : Status

abbrev stays : Status → Db → Applied × Db
stays s db = (record { transitioned = false; status = s }, db)

-- The result of the compare-and-set: `updated.count === 0` is `none`.
abbrev pub written : Status → Status → Db → Option Db → Applied × Db
written from to db none = stays from db
written from to db (some db') = (record { transitioned = true; status = to }, db')

abbrev try_rule : ℕ → ℕ → Instance → Db → Option TransitionRule → Applied × Db
try_rule id now read db none = stays read.status db
try_rule id now read db (some r) =
    if ltb now (r.due_at read)
    then stays read.status db
    else written read.status r.to db (compare_and_set id r now read db)

abbrev try_instance : ℕ → ℕ → Db → Option Instance → Applied × Db
try_instance id now db none = stays failed db
try_instance id now db (some read) = try_rule id now read db (rule_for read.status)

-- `applyNextTransition`, when no other worker comes between the read and the update
pub apply_next_transition : ℕ → ℕ → Db → Applied × Db
apply_next_transition id now db = try_instance id now db (db.instances id)

abbrev pub max_transitions_per_pass : ℕ
max_transitions_per_pass = 8

-- The loop of `advance` over the passes left, with the number of transitions and the last status.
pub advance_from : ℕ → ℕ → ℕ → ℕ → Status → Db → (ℕ × Status) × Db
advance_from zero id now count status db = ((count, status), db)
advance_from (suc passes) id now count status db =
    let (applied, db') = apply_next_transition id now db in
    elim applied.transitioned [
      | true ↦ advance_from passes id now (suc count) applied.status db'
      | false ↦ ((count, applied.status), db')
    ]

pub advance : ℕ → ℕ → Db → (ℕ × Status) × Db
advance id now db = advance_from max_transitions_per_pass id now 0 pending db

-- `complete`
pub complete : ℕ → Db → Db
complete id db = elim (db.instances id) [
  | none ↦ db
  | some i ↦
      if same_status i.status review_due
      then put id (record i { status = completed; next_transition_at = none }) db
      else db
]

-- `cancel` of scheduler.service.ts, on one instance of the definition
pub skip_pending : ℕ → Db → Db
skip_pending id db = elim (db.instances id) [
  | none ↦ db
  | some i ↦
      if same_status i.status pending
      then put id (record i { status = skipped; next_transition_at = none }) db
      else db
]

-- The row that `persist` of cadence-generator.service.ts creates for a planned occurrence, retained
-- or skipped.
unfoldable pub planned : Bool → ℕ → ℕ → ℕ → ℕ → Instance
planned retained opens narrows closes reviews = record {
  status = if retained then pending else skipped;
  window_opens_at = opens;
  window_closing_at = narrows;
  window_closes_at = closes;
  review_due_at = reviews;
  opened_at = none;
  closing_notified_at = none;
  closed_at = none;
  review_notified_at = none;
  next_transition_at = if retained then some opens else none;
  attempts = 0;
  last_error = none;
}

-- `recordFailure`; an update of a row that is not there throws, which is `none`.
pub record_failure : ℕ → ℕ → Db → Option Db
record_failure id message db = elim (db.instances id) [
  | none ↦ none
  | some i ↦ some (put id (record i { attempts = suc i.attempts; last_error = some message }) db)
]

-- How many milestones a status has behind it, for the statuses that this service gives.
abbrev pub rank : Status → ℕ
rank pending = 0
rank open_window = 1
rank closing = 2
rank closed = 3
rank _ = 4
