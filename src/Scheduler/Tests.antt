-- ===== src/Scheduler/Tests.antt =====
-- Two workers on one instance, and the theorems on that run.
use strat_align.Prelude.{true, Option, none, some, [], ◌∷◌, ◌≡◌, refl, inl}
use strat_align.Scheduler.{
  narrowing, shutting, Status, opening, window_opened, Instance, Db, publish, put, moved,
  compare_and_set, apply_next_transition, advance_from, advance, complete, rule_for, planned,
}
use strat_align.Scheduler.Advance.{IsSettled, advance_settles}
use strat_align.Scheduler.Workers.{
  creates, reads_row, writes, Reached, empty, further, empty_world, IsConsistent,
}
use strat_align.Scheduler.Workers.Consistent.{Reached-IsConsistent}
use strat_align.Scheduler.Workers.Passes.{Reaches, advance-Reaches}

abbrev row : Instance
row = planned true 10 20 30 40

abbrev table : Db
table = record { instances = (put 5 row empty_world.db).instances; outbox = [] }

abbrev announced_open : Db
announced_open = record {
  instances = (put 5 (moved opening 12 row row) table).instances;
  outbox = record { instance_id = 5; event_type = window_opened; occurred_at = 12 } ∷ [];
}

-- What the runs compute with.
service : Unit {0}
unfolding publish put moved compare_and_set apply_next_transition advance_from advance complete
    rule_for planned
service = tt

abbrev status_of : Option Instance → Option Status
status_of none = none
status_of (some i) = some i.status

-- At 35 three milestones are due, at 9 none is; the second write of the same read is lost.
runs :
    (status_of ((advance 5 35 table).1.instances 5) ≡ some Status.closed)
    × ((advance 5 35 table).0 ≡ (3, Status.closed))
    × ((advance 5 9 table).0 ≡ (0, Status.pending))
    × ((advance 6 9 table).0 ≡ (0, Status.failed))
    × (compare_and_set 5 opening 13 row announced_open ≡ none)
unfolding service
runs = (refl, refl, refl, refl, refl)

history : Reached (record { db = announced_open; reads = (5, row) ∷ (5, row) ∷ [] })
unfolding service
history =
    further
      (further (further (further empty (creates 5 true 10 20 30 40 refl)) (reads_row 5 row refl))
        (reads_row 5 row refl))
      (writes 5 12 row opening (inl refl) refl refl refl)

abbrev opened : Instance
opened = moved opening 35 row row

abbrev narrowed : Instance
narrowed = moved narrowing 35 opened opened

abbrev shut : Instance
shut = moved shutting 35 narrowed narrowed

shut_row : (advance 5 35 table).1.instances 5 ≡ some shut
unfolding service
shut_row = refl

advance_settles_example : IsSettled 35 shut shut.status
advance_settles_example = advance_settles 5 35 table shut shut_row

Reached-IsConsistent_example :
    IsConsistent (record { db = announced_open; reads = (5, row) ∷ (5, row) ∷ [] })
Reached-IsConsistent_example = Reached-IsConsistent history

advance-Reaches_example : Reaches (advance 5 35 announced_open).1
advance-Reaches_example =
    advance-Reaches 5 35 (record { db = announced_open; reads = (5, row) ∷ (5, row) ∷ [] }) history
