-- ===== src/Scheduler/Workers/Passes.antt =====
-- A call of `advance` is a run of the workers' steps.
use strat_align.Prelude.{
  ℕ, zero, suc, Option, none, some, List, ◌∷◌, ◌≡◌, refl, ◌⊎◌, inl, inr, ltb, Bool-cases,
  Option-cases,
}
use strat_align.Scheduler.{
  Status, pending, Instance, rule_for, Db, compare_and_set, apply_next_transition, written,
  advance_from, advance,
}
use strat_align.Scheduler.Workers.{World, reads_row, writes, Reached, further}

abbrev pub Reaches : Db → Type 0
Reaches db = (reads : List (ℕ × Instance)) × Reached (record { db = db; reads = reads })

written_db :
    (from to : Status) (db : Db) (o : Option Db)
    → ((written from to db o).1 ≡ db)
      ⊎ ((db' : Db) × (o ≡ some db') × ((written from to db o).1 ≡ db'))
written_db from to db none = inl refl
written_db from to db (some db') = inr (db', refl, refl)

apply-Reaches : (id now : ℕ) (w : World) → Reached w → Reaches (apply_next_transition id now w.db).1
unfolding apply_next_transition
apply-Reaches id now w before = elim (Option-cases (w.db.instances id)) [
  | inl gone ↦ rw gone (w.reads, before)
  | inr (i, found) ↦ elim (Option-cases (rule_for i.status)) [
    | inl ends ↦ rw (found, ends) (w.reads, before)
    | inr (r, known) ↦ elim (Bool-cases (ltb now (r.due_at i))) [
      | inl early ↦ rw (found, known, early) (w.reads, before)
      | inr due ↦
          rw (found, known, due)
            (elim (written_db i.status r.to w.db (compare_and_set id r now i w.db)) [
              | inl lost ↦ rw lost (w.reads, before)
              | inr (db', won, becomes) ↦ rw becomes (
                (id, i) ∷ w.reads,
                further (further before (reads_row id i found))
                    (writes id now i r (inl refl) known due won),
              )
            ])
    ]
  ]
]

advance_from-Reaches :
    (passes id now count : ℕ) (status : Status) (w : World)
    → Reached w
    → Reaches (advance_from passes id now count status w.db).1
unfolding advance_from
advance_from-Reaches zero id now count status w before = (w.reads, before)
advance_from-Reaches (suc passes) id now count status w before =
    let (reads, after) = apply-Reaches id now w before in
    elim (Bool-cases (apply_next_transition id now w.db).0.transitioned) [
      | inl went ↦
          rw (went, advance_from)
            (advance_from-Reaches passes id now (suc count) _ (record { db = _; reads = reads })
              after)
      | inr idle ↦ rw (idle, advance_from) (reads, after)
    ]

-- From tables that any number of workers have reached, `advance` of any instance at any time
-- reaches tables by the same steps.
pub advance-Reaches : (id now : ℕ) (w : World) → Reached w → Reaches (advance id now w.db).1
unfolding advance
advance-Reaches id now w before = advance_from-Reaches 8 id now 0 pending w before
