-- ===== src/Scheduler/Workers/Consistent.antt =====
-- The consistency of every table that any number of workers reach.
use strat_align.Prelude.{
  ℕ, suc, Option, none, some, List, ◌∷◌, ◌≡◌, refl, sym, ap, ◌∙◌, inl, inr, arith, Bool-cases,
  Option-cases,
}
use strat_align.Scheduler.{
  Status, review_due, pending, completed, skipped, same_status, Instance, rule_for, next_due, Event,
  Db, put, complete, record_failure, skip_pending,
}
use strat_align.Scheduler.Workers.{
  World, Step, creates, reads_row, writes, completes, skips, fails, Reached, empty, further, OnTime,
  IsSound, IsConsistent,
}
use strat_align.Scheduler.Workers.Kept.{
  SameDates-refl, none_or_db, some_db, status_of_test, plain_write, planned-kept, write-kept,
}

-- The dates and the stamps do not depend on the other columns.
OnTime-kept :
    (i : Instance) (s : Status) (at failure : Option ℕ) (attempts : ℕ) (x : Event)
    → OnTime i x
    → OnTime
        (record i {
          status = s;
          next_transition_at = at;
          attempts = attempts;
          last_error = failure;
        })
        x
OnTime-kept i s at failure attempts x (due, stamped) = ground arith

complete-IsSound :
    (id : ℕ) (i : Instance) (outbox : List Event)
    → i.status ≡ review_due
    → IsSound id i outbox
    → IsSound id (record i { status = completed; next_transition_at = none }) outbox
unfolding rule_for
complete-IsSound id i outbox at sound = record {
  once = λ k. sound.once k ∙ rw at refl;
  on_time = λ x here is. OnTime-kept i _ none i.last_error i.attempts x (sound.on_time x here is);
  scheduled = refl;
}

skip-IsSound :
    (id : ℕ) (i : Instance) (outbox : List Event)
    → i.status ≡ pending
    → IsSound id i outbox
    → IsSound id (record i { status = skipped; next_transition_at = none }) outbox
unfolding rule_for
skip-IsSound id i outbox at sound = record {
  once = λ k. sound.once k ∙ rw at refl;
  on_time = λ x here is. OnTime-kept i _ none i.last_error i.attempts x (sound.on_time x here is);
  scheduled = refl;
}

complete-kept :
    (id : ℕ) (w : World) → IsConsistent w → IsConsistent (record w { db = complete id w.db })
unfolding complete
complete-kept id w ok = elim (Option-cases (w.db.instances id)) [
  | inl gone ↦ rw (gone, complete) ok
  | inr (i, found) ↦ elim (Bool-cases (same_status i.status review_due)) [
    | inl same ↦
        rw (found, complete, same)
          (plain_write id i _ w ok found
            (complete-IsSound id i w.db.outbox (status_of_test _ _ same) (ok.rows id i found))
            (SameDates-refl i))
    | inr other ↦ rw (found, complete, other) ok
  ]
]

skip-kept :
    (id : ℕ) (w : World) → IsConsistent w → IsConsistent (record w { db = skip_pending id w.db })
unfolding skip_pending
skip-kept id w ok = elim (Option-cases (w.db.instances id)) [
  | inl gone ↦ rw (gone, skip_pending) ok
  | inr (i, found) ↦ elim (Bool-cases (same_status i.status pending)) [
    | inl same ↦
        rw (found, skip_pending, same)
          (plain_write id i _ w ok found
            (skip-IsSound id i w.db.outbox (status_of_test _ _ same) (ok.rows id i found))
            (SameDates-refl i))
    | inr other ↦ rw (found, skip_pending, other) ok
  ]
]

next_due_kept :
    (i : Instance) (failure : Option ℕ) (attempts : ℕ)
    → next_due (rule_for i.status) i
      ≡ next_due (rule_for i.status) (record i { attempts = attempts; last_error = failure })
unfolding rule_for
next_due_kept i failure attempts = ground arith

failure_gone :
    (id message : ℕ) (db : Db) → db.instances id ≡ none → record_failure id message db ≡ none
unfolding record_failure
failure_gone id message db gone = rw (gone, record_failure) refl

failure_found :
    (id message : ℕ) (i : Instance) (db : Db)
    → db.instances id ≡ some i
    → record_failure id message db
      ≡ some (put id (record i { attempts = suc i.attempts; last_error = some message }) db)
unfolding record_failure
failure_found id message i db found = rw (found, record_failure) refl

failure-kept :
    (id message : ℕ) (w : World) (db' : Db)
    → IsConsistent w
    → record_failure id message w.db ≡ some db'
    → IsConsistent (record w { db = db' })
failure-kept id message w db' ok h = elim (Option-cases (w.db.instances id)) [
  | inl gone ↦ absurd (none_or_db db' (sym (failure_gone id message w.db gone) ∙ h))
  | inr (i, found) ↦
      let sound = ok.rows id i found in
      rw (some_db _ _ (sym h ∙ failure_found id message i w.db found)) (
        plain_write id i _ w ok found
          (record {
            once = sound.once;
            on_time = λ x here is.
                OnTime-kept i i.status i.next_transition_at (some message) (suc i.attempts) x
                  (sound.on_time x here is);
            scheduled = sound.scheduled ∙ next_due_kept i (some message) (suc i.attempts);
          })
          (SameDates-refl i))
]

read-kept :
    (id : ℕ) (i : Instance) (w : World)
    → IsConsistent w
    → w.db.instances id ≡ some i
    → IsConsistent (record w { reads = (id, i) ∷ w.reads })
read-kept id i w ok found = record {
  rows = ok.rows;
  unknown = ok.unknown;
  remembered = λ j read at. elim at [
    | inl here ↦ (
      i,
      rw (ap (λ (p : ℕ × Instance). p.0) here) found,
      rw (ap (λ (p : ℕ × Instance). p.1) here) (SameDates-refl i),
    )
    | inr later ↦ ok.remembered j read later
  ];
}

no_row : (i : Instance) → none ≡ some i → ⊥
no_row i h = cc

Step-kept : {w w' : World} → Step w w' → IsConsistent w → IsConsistent w'
Step-kept {w = w} (creates id retained opens narrows closes reviews gone) ok =
    planned-kept id retained opens narrows closes reviews w ok gone
Step-kept {w = w} (reads_row id i found) ok = read-kept id i w ok found
Step-kept {w = w} (writes {db' = db'} id now read r at known due h) ok =
    write-kept id now read r w db' ok at known due h
Step-kept {w = w} (completes id) ok = complete-kept id w ok
Step-kept {w = w} (skips id) ok = skip-kept id w ok
Step-kept {w = w} (fails {db' = db'} id message h) ok = failure-kept id message w db' ok h

-- Whatever the workers do and in whatever order, writes after outdated reads included: for every
-- instance each milestone that its status has behind it is in the outbox exactly once and no other
-- milestone is, no announcement is dated before its milestone's date, the stamps are the times of
-- the announcements, and the next transition is scheduled for the date of the next milestone; there
-- are no announcements for instances that do not exist.
pub Reached-IsConsistent : {w : World} → Reached w → IsConsistent w
Reached-IsConsistent empty = record {
  rows = λ id i found. absurd (no_row i found);
  unknown = λ id k gone. refl;
  remembered = λ id read at. absurd at;
}
Reached-IsConsistent (further before step) = Step-kept step (Reached-IsConsistent before)
