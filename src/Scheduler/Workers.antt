-- ===== src/Scheduler/Workers.antt =====
-- Any number of workers on one table of instances: what one of them read may be out of date when it
-- writes. The steps are the statements of the service, in any order and at any times.
pub mod Frame
pub mod Announced
pub mod Kept
pub mod Consistent
pub mod Passes
use strat_align.Prelude.{
  ℕ, ◌+◌, ◌≤◌, Bool, true, false, Option, none, some, List, [], ◌∷◌, ◌≡◌, ◌==◌, ◌&&◌, ltb,
  if◌then◌else◌, In,
}
use strat_align.Scheduler.{
  Status, pending, open_window, closing, closed, review_due, completed, skipped, failed, EventType,
  window_opened, window_closing, window_closed, review_is_due, event_index, Instance,
  TransitionRule, rule_for, next_due, Event, Db, put, compare_and_set, complete, record_failure,
  skip_pending, planned,
}

-- The tables, and the rows that workers have read so far.
pub record World : Type 0 where
  pub db : Db
  pub reads : List (ℕ × Instance)

abbrev pub empty_world : World
empty_world = record { db = record { instances = λ id. none; outbox = [] }; reads = [] }

pub data Step : World → World → Type 0 where
  creates :
      {w : World} (id : ℕ) (retained : Bool) (opens narrows closes reviews : ℕ)
      → w.db.instances id ≡ none
      → Step w (record w { db = put id (planned retained opens narrows closes reviews) w.db })
  reads_row :
      {w : World} (id : ℕ) (i : Instance)
      → w.db.instances id ≡ some i
      → Step w (record w { reads = (id, i) ∷ w.reads })
  writes :
      {w : World} {db' : Db} (id now : ℕ) (read : Instance) (r : TransitionRule)
      → In (id, read) w.reads
      → rule_for read.status ≡ some r
      → ltb now (r.due_at read) ≡ false
      → compare_and_set id r now read w.db ≡ some db'
      → Step w (record w { db = db' })
  completes : {w : World} (id : ℕ) → Step w (record w { db = complete id w.db })
  skips : {w : World} (id : ℕ) → Step w (record w { db = skip_pending id w.db })
  fails :
      {w : World} {db' : Db} (id message : ℕ)
      → record_failure id message w.db ≡ some db'
      → Step w (record w { db = db' })

pub data Reached : World → Type 0 where
  empty : Reached empty_world
  further : {w w' : World} → Reached w → Step w w' → Reached w'

-- How many of the four milestones an instance has behind it.
abbrev pub announced : Status → ℕ
announced open_window = 1
announced closing = 2
announced closed = 3
announced review_due = 4
announced completed = 4
announced _ = 0

abbrev pub due_date : EventType → Instance → ℕ
due_date window_opened i = i.window_opens_at
due_date window_closing i = i.window_closing_at
due_date window_closed i = i.window_closes_at
due_date review_is_due i = i.review_due_at

abbrev pub stamp_of : EventType → Instance → Option ℕ
stamp_of window_opened i = i.opened_at
stamp_of window_closing i = i.closing_notified_at
stamp_of window_closed i = i.closed_at
stamp_of review_is_due i = i.review_notified_at

-- The number of events of an instance and a type.
abbrev pub count : List Event → ℕ → EventType → ℕ
count [] id k = 0
count (x ∷ xs) id k =
    (if x.instance_id == id && event_index x.event_type == event_index k then 1 else 0)
    + count xs id k

abbrev pub OnTime : Instance → Event → Type 0
OnTime i x =
    (due_date x.event_type i ≤ x.occurred_at) × (stamp_of x.event_type i ≡ some x.occurred_at)

-- A row agrees with the outbox: the milestones behind it are announced once and no other is, no
-- announcement came before its date, each stamp is the time of its announcement, and the next
-- transition is scheduled for the date of the next milestone.
pub record IsSound (id : ℕ) (i : Instance) (outbox : List Event) : Type 0 where
  pub once :
      (k : EventType)
      → count outbox id k ≡ (if ltb (event_index k) (announced i.status) then 1 else 0)
  pub on_time : (x : Event) → In x outbox → x.instance_id ≡ id → OnTime i x
  pub scheduled : i.next_transition_at ≡ next_due (rule_for i.status) i

abbrev pub SameDates : Instance → Instance → Type 0
SameDates a b =
    (a.window_opens_at ≡ b.window_opens_at)
    × (a.window_closing_at ≡ b.window_closing_at)
    × (a.window_closes_at ≡ b.window_closes_at)
    × (a.review_due_at ≡ b.review_due_at)

pub record IsConsistent (w : World) : Type 0 where
  pub rows : (id : ℕ) (i : Instance) → w.db.instances id ≡ some i → IsSound id i w.db.outbox
  pub unknown : (id : ℕ) (k : EventType) → w.db.instances id ≡ none → count w.db.outbox id k ≡ 0
  pub remembered :
      (id : ℕ) (read : Instance)
      → In (id, read) w.reads
      → (i : Instance) × (w.db.instances id ≡ some i) × SameDates read i
