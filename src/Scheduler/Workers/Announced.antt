-- ===== src/Scheduler/Workers/Announced.antt =====
-- What each statement does to the row that it writes, and the consistency of every table that any
-- number of workers reach.
use strat_align.Prelude.{
  ℕ, ◌+◌, ◌<◌, Bool, true, false, some, List, [], ◌∷◌, ◌≡◌, ◌≢◌, refl, ◌∙◌, inl, inr, arith, ◌==◌,
  ◌&&◌, ltb, if◌then◌else◌, In, test_refl, Bool-cases,
}
use strat_align.Scheduler.{
  Status, EventType, event_index, Instance, TransitionRule, rule_for, next_due, Event, has_key,
  moved,
}
use strat_align.Scheduler.Workers.{announced, due_date, stamp_of, count, OnTime, IsSound, SameDates}
use strat_align.Scheduler.Workers.Frame.{counted}

has_none : (b : Bool) (n : ℕ) → b ≡ true → (if b then 1 else 0) + n ≢ 0
has_none b n h e = ground arith

others_none : (b : Bool) (n : ℕ) → b ≡ false → (if b then 1 else 0) + n ≡ 0 → n ≡ 0
others_none b n h e = ground arith

pub has_key-count :
    (id : ℕ) (k : EventType) (outbox : List Event)
    → count outbox id k ≡ 0
    → has_key outbox id k ≡ false
has_key-count id k [] none_yet = refl
has_key-count id k (x ∷ xs) none_yet =
    let rest = has_key-count id k xs in
    elim (Bool-cases (x.instance_id == id && event_index x.event_type == event_index k)) [
      | inl same ↦ absurd (has_none _ _ same none_yet)
      | inr other ↦ rw (other, has_key) (rest (others_none _ _ other none_yet))
    ]

due_date_same : (k : EventType) (a b : Instance) → SameDates a b → due_date k a ≡ due_date k b
due_date_same k a b (p, q, u, v) = ground arith

-- A rule announces the next milestone.
rule_event :
    (s : Status) (r : TransitionRule) (i : Instance)
    → rule_for s ≡ some r
    → (r.from ≡ s)
      × (event_index r.event_type ≡ announced s)
      × (announced r.to ≡ announced s + 1)
      × (due_date r.event_type i ≡ r.due_at i)
unfolding rule_for
rule_event s r i known = ground arith

moved_earlier :
    (k : EventType) (s : Status) (r : TransitionRule) (now : ℕ) (read row : Instance)
    → rule_for s ≡ some r
    → event_index k < announced s
    → (stamp_of k (moved r now read row) ≡ stamp_of k row)
      × (due_date k (moved r now read row) ≡ due_date k row)
unfolding rule_for moved
moved_earlier k s r now read row known earlier = ground arith

moved_own :
    (s : Status) (r : TransitionRule) (now : ℕ) (read row : Instance)
    → rule_for s ≡ some r
    → (stamp_of r.event_type (moved r now read row) ≡ some now)
      × (due_date r.event_type (moved r now read row) ≡ due_date r.event_type row)
      × ((moved r now read row).status ≡ r.to)
unfolding rule_for moved
moved_own s r now read row known = ground arith

pub moved_dates :
    (s : Status) (r : TransitionRule) (now : ℕ) (read row : Instance)
    → rule_for s ≡ some r
    → SameDates row (moved r now read row)
unfolding rule_for moved
moved_dates s r now read row known = ground arith

moved_scheduled :
    (s : Status) (r : TransitionRule) (now : ℕ) (read row : Instance)
    → rule_for s ≡ some r
    → SameDates read row
    → (moved r now read row).next_transition_at
      ≡ next_due (rule_for (moved r now read row).status) (moved r now read row)
unfolding rule_for moved
moved_scheduled s r now read row known (p, q, u, v) = ground arith

module _ (id now : ℕ) (read row : Instance) (r : TransitionRule) (outbox : List Event)
    (known : rule_for read.status ≡ some r) (same : row.status ≡ r.from) where
  abbrev pub announcement : Event
  announcement = record { instance_id = id; event_type = r.event_type; occurred_at = now }

  row_status : row.status ≡ read.status
  row_status = same ∙ (rule_event read.status r row known).0

  pub not_yet : IsSound id row outbox → count outbox id r.event_type ≡ 0
  not_yet sound =
      let facts = rule_event read.status r row known in
      ground (arith, sound.once r.event_type, row_status, facts.1)

  moved_once :
      (k : EventType)
      → IsSound id row outbox
      → count (announcement ∷ outbox) id k
        ≡ (if ltb (event_index k) (announced (moved r now read row).status) then 1 else 0)
  moved_once k sound =
      let facts = rule_event read.status r row known in
      let own = moved_own read.status r now read row known in
      rw (own.2, test_refl id) (ground (arith, sound.once k, row_status, facts.1, facts.2))

  moved-OnTime :
      IsSound id row outbox
      → SameDates read row
      → ltb now (r.due_at read) ≡ false
      → (x : Event) → In x (announcement ∷ outbox)
      → x.instance_id ≡ id
      → OnTime (moved r now read row) x
  moved-OnTime sound dates due x (inl here) is =
      let own = moved_own read.status r now read row known in
      let facts = rule_event read.status r read known in
      let same_date = due_date_same r.event_type read row dates in
      rw here (ground (arith, own.0, own.1, facts.3, same_date))
  moved-OnTime sound dates due x (inr later) is =
      let (known_time, stamped) = sound.on_time x later is in
      let before : event_index x.event_type < announced read.status =
        ground (arith, sound.once x.event_type, counted id outbox x later is, row_status) in
      let (stamps, dates') = moved_earlier x.event_type read.status r now read row known before in
      (rw dates' known_time, stamps ∙ stamped)

  pub moved-IsSound :
      IsSound id row outbox
      → SameDates read row
      → ltb now (r.due_at read) ≡ false
      → IsSound id (moved r now read row) (announcement ∷ outbox)
  moved-IsSound sound dates due = record {
    once = λ k. moved_once k sound;
    on_time = moved-OnTime sound dates due;
    scheduled = moved_scheduled read.status r now read row known dates;
  }
