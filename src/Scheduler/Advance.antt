-- ===== src/Scheduler/Advance.antt =====
-- `advance` catches an instance up: the passes that it makes are enough.
use strat_align.Prelude.{
  ℕ, zero, suc, ◌+◌, ◌≤◌, ◌<◌, Bool, true, false, Option, none, some, ◌≡◌, refl, ap, ◌⊎◌, inl, inr,
  arith, ltb, Bool-cases, Option-cases, test_refl,
}
use strat_align.Scheduler.{
  Status, pending, status_index, Instance, TransitionRule, rule_for, rank, Event, Db, publish, put,
  moved, compare_and_set, apply_next_transition, advance_from, advance, open_window, closing,
  closed, review_due, completed, skipped, failed, opening, narrowing, shutting, reviewing,
}

publish-instances : (e : Event) (db : Db) → (publish e db).instances ≡ db.instances
unfolding publish
publish-instances e db = ground arith

put_self : (id : ℕ) (i : Instance) (db : Db) → (put id i db).instances id ≡ some i
unfolding put
put_self id i db = ground arith

-- A rule leads to the next rank.
pub rule_rank :
    (s : Status) (r : TransitionRule) (now : ℕ) (read row : Instance)
    → rule_for s ≡ some r
    → (r.from ≡ s) × (rank r.to ≡ rank s + 1) × ((moved r now read row).status ≡ r.to)
unfolding rule_for moved
rule_rank s r now read row h = ground arith

-- How far an instance is.
abbrev progress : Option Instance → ℕ
progress none = 4
progress (some i) = rank i.status

-- The compare-and-set on the row that was just read.
pub compare_and_set-own :
    (id now : ℕ) (i : Instance) (r : TransitionRule) (db : Db)
    → db.instances id ≡ some i
    → rule_for i.status ≡ some r
    → compare_and_set id r now i db
      ≡ some (
          publish
            (record { instance_id = id; event_type = r.event_type; occurred_at = now })
            (put id (moved r now i i) db))
unfolding compare_and_set
compare_and_set-own id now i r db found known =
    let same : r.from ≡ i.status = (rule_rank i.status r now i i known).0 in
    rw (found, compare_and_set) (rw same (rw (test_refl (status_index i.status))))

apply_progress :
    (id now : ℕ) (db : Db)
    → ((apply_next_transition id now db).0.transitioned ≡ false)
      ⊎ (progress ((apply_next_transition id now db).1.instances id)
          ≡ progress (db.instances id) + 1)
unfolding apply_next_transition
apply_progress id now db = elim (Option-cases (db.instances id)) [
  | inl gone ↦ rw gone (inl refl)
  | inr (i, found) ↦ elim (Option-cases (rule_for i.status)) [
    | inl ends ↦ rw (found, ends) (inl refl)
    | inr (r, known) ↦ elim (Bool-cases (ltb now (r.due_at i))) [
      | inl early ↦ rw (found, known, early) (inl refl)
      | inr due ↦
          let step = rule_rank i.status r now i i known in
          rw (found, known, due)
            (rw (compare_and_set-own id now i r db found known) (
              inr (
                rw
                  (
                    publish-instances
                        (record { instance_id = id; event_type = r.event_type; occurred_at = now })
                        (put id (moved r now i i) db),
                    put_self id (moved r now i i) db,
                    step.2,
                  )
                  step.1)))
    ]
  ]
]

-- A pass that made no transition left the tables as they were.
apply_idle :
    (id now : ℕ) (db : Db)
    → (apply_next_transition id now db).0.transitioned ≡ false
    → (apply_next_transition id now db).1 ≡ db
unfolding apply_next_transition compare_and_set
apply_idle id now db h = ground arith

progress-le : (o : Option Instance) → progress o ≤ 4
progress-le none = omega arith
progress-le (some i) = ground arith

advance_from_settles :
    (passes id now count : ℕ) (status : Status) (db : Db)
    → 4 < progress (db.instances id) + passes
    → (apply_next_transition id now (advance_from passes id now count status db).1).0.transitioned
      ≡ false
unfolding advance_from
advance_from_settles zero id now count status db h =
    absurd (omega (arith, progress-le (db.instances id)))
advance_from_settles (suc passes) id now count status db h =
    elim (Bool-cases (apply_next_transition id now db).0.transitioned) [
      | inl went ↦
          rw (went, advance_from)
            (advance_from_settles passes id now (suc count)
              (apply_next_transition id now db).0.status (apply_next_transition id now db).1
              (elim (apply_progress id now db) [ inl idle ↦ cc | inr more ↦ omega arith ]))
      | inr idle ↦ rw (idle, advance_from) (rw (apply_idle id now db idle) idle)
    ]

-- A pass over a row whose transition is due makes it.
due_transitions :
    (id now : ℕ) (i : Instance) (r : TransitionRule) (db : Db)
    → db.instances id ≡ some i
    → rule_for i.status ≡ some r
    → ltb now (r.due_at i) ≡ false
    → (apply_next_transition id now db).0.transitioned ≡ true
unfolding apply_next_transition
due_transitions id now i r db found known due =
    rw (found, known, due) (rw (compare_and_set-own id now i r db found known) refl)

-- After `advance` a rule of the row's status is due later than now.
advance-rule :
    (id now : ℕ) (db : Db) (i : Instance) (r : TransitionRule)
    → (advance id now db).1.instances id ≡ some i
    → rule_for i.status ≡ some r
    → now < r.due_at i
unfolding advance
advance-rule id now db i r found known =
    let idle = advance_from_settles 8 id now 0 pending db (omega arith) in
    elim (Bool-cases (ltb now (r.due_at i))) [
      | inl early ↦ ground arith
      | inr due ↦ absurd (
          contradiction
            (due_transitions id now i r (advance_from 8 id now 0 pending db).1 found known due)
            idle)
    ]
  where
    contradiction : {b : Bool} → b ≡ true → b ≡ false → ⊥
    contradiction h k = cc

-- The time of the next milestone of an instance with a status is later than now, if one is left.
abbrev pub IsSettled : ℕ → Instance → Status → Type 0
IsSettled now i pending = now < i.window_opens_at
IsSettled now i open_window = now < i.window_closing_at
IsSettled now i closing = now < i.window_closes_at
IsSettled now i closed = now < i.review_due_at
IsSettled now i _ = Unit

-- One call of `advance` is enough, whatever the instance and the time: if after its at most eight
-- passes the row of the instance is pending, its window opens later than now; if it is open, the
-- window is closing later, if it is closing, the window closes later, and if it is closed, the
-- review is due later.
pub advance_settles :
    (id now : ℕ) (db : Db) (i : Instance)
    → (advance id now db).1.instances id ≡ some i
    → IsSettled now i i.status
unfolding rule_for
advance_settles id now db i found = settled i.status refl
  where
    settled : (s : Status) → i.status ≡ s → IsSettled now i s
    settled pending h = advance-rule id now db i opening found (ap rule_for h)
    settled open_window h = advance-rule id now db i narrowing found (ap rule_for h)
    settled closing h = advance-rule id now db i shutting found (ap rule_for h)
    settled closed h = advance-rule id now db i reviewing found (ap rule_for h)
    settled review_due h = tt
    settled completed h = tt
    settled skipped h = tt
    settled failed h = tt
