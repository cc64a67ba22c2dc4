-- ===== src/Scheduler/Workers/Kept.antt =====
-- Every statement of the service keeps the tables consistent.
use strat_align.Prelude.{
  ℕ, Bool, true, false, none, some, ◌∷◌, ◌≡◌, refl, sym, ◌∙◌, inl, inr, arith, ltb, if◌then◌else◌,
  In, Bool-cases, Option-cases,
}
use strat_align.Scheduler.{
  Status, same_status, Instance, TransitionRule, rule_for, Event, has_key, Db, publish, put, moved,
  compare_and_set, planned,
}
use strat_align.Scheduler.Workers.{World, IsSound, SameDates, IsConsistent}
use strat_align.Scheduler.Workers.Frame.{counted, rewrite_row-IsConsistent}
use strat_align.Scheduler.Workers.Announced.{
  announcement, not_yet, moved-IsSound, has_key-count, moved_dates,
}

publish-new :
    (e : Event) (db : Db)
    → has_key db.outbox e.instance_id e.event_type ≡ false
    → publish e db ≡ record { instances = db.instances; outbox = e ∷ db.outbox }
unfolding publish
publish-new e db h = rw h refl

put-outbox : (id : ℕ) (i : Instance) (db : Db) → (put id i db).outbox ≡ db.outbox
unfolding put
put-outbox id i db = refl

pub SameDates-refl : (i : Instance) → SameDates i i
SameDates-refl i = (refl, refl, refl, refl)

pub some_injective : (a b : Instance) → some a ≡ some b → a ≡ b
some_injective a b h = cc

none_or_some : (a : Instance) → none ≡ some a → ⊥
none_or_some a h = cc

pub none_or_db : (a : Db) → none ≡ some a → ⊥
none_or_db a h = cc

pub some_db : (a b : Db) → some a ≡ some b → a ≡ b
some_db a b h = cc

-- A write of a row that keeps its status' milestones, its dates and its stamps.
pub plain_write :
    (id : ℕ) (i i' : Instance) (w : World)
    → IsConsistent w
    → w.db.instances id ≡ some i
    → IsSound id i' w.db.outbox
    → SameDates i i'
    → IsConsistent (record w { db = put id i' w.db })
unfolding put
plain_write id i i' w ok found sound dates =
    rewrite_row-IsConsistent id i' w.db.outbox w ok (inl refl) sound
      (λ row at. rw (some_injective row i (sym at ∙ found)) dates)

pub planned-kept :
    (id : ℕ) (retained : Bool) (opens narrows closes reviews : ℕ) (w : World)
    → IsConsistent w
    → w.db.instances id ≡ none
    → IsConsistent (record w { db = put id (planned retained opens narrows closes reviews) w.db })
unfolding put planned rule_for
planned-kept id retained opens narrows closes reviews w ok gone =
    rewrite_row-IsConsistent id (planned retained opens narrows closes reviews) w.db.outbox w ok
      (inl refl)
      (record {
        once = λ k. ok.unknown id k gone ∙ ground arith;
        on_time = λ x at is.
            absurd (omega (arith, counted id w.db.outbox x at is, ok.unknown id x.event_type gone));
        scheduled = ground arith;
      })
      (λ row at. absurd (none_or_some row (sym gone ∙ at)))

pub status_of_test : (a b : Status) → same_status a b ≡ true → a ≡ b
status_of_test a b h = ground arith

compare_and_set-found :
    (id now : ℕ) (read row : Instance) (r : TransitionRule) (db : Db) (b : Bool)
    → db.instances id ≡ some row
    → same_status row.status r.from ≡ b
    → compare_and_set id r now read db ≡ (
        if b
        then some (
            publish
              (record { instance_id = id; event_type = r.event_type; occurred_at = now })
              (put id (moved r now read row) db))
        else none)
unfolding compare_and_set
compare_and_set-found id now read row r db b found same = rw (found, compare_and_set, same) refl

compare_and_set-gone :
    (id now : ℕ) (read : Instance) (r : TransitionRule) (db : Db)
    → db.instances id ≡ none
    → compare_and_set id r now read db ≡ none
unfolding compare_and_set
compare_and_set-gone id now read r db gone = rw (gone, compare_and_set) refl

compare_and_set-some :
    (id now : ℕ) (read : Instance) (r : TransitionRule) (db db' : Db)
    → compare_and_set id r now read db ≡ some db'
    → (row : Instance) × (db.instances id ≡ some row)
      × (row.status ≡ r.from)
      × (db'
          ≡ publish
              (record { instance_id = id; event_type = r.event_type; occurred_at = now })
              (put id (moved r now read row) db))
compare_and_set-some id now read r db db' h = elim (Option-cases (db.instances id)) [
  | inl gone ↦ absurd (none_or_db db' (sym (compare_and_set-gone id now read r db gone) ∙ h))
  | inr (row, found) ↦ elim (Bool-cases (same_status row.status r.from)) [
    | inl same ↦ (
      row,
      found,
      status_of_test _ _ same,
      some_db _ _ (sym h ∙ compare_and_set-found id now read row r db true found same),
    )
    | inr other ↦
        absurd
          (none_or_db db' (sym (compare_and_set-found id now read row r db false found other) ∙ h))
  ]
]

pub write-kept :
    (id now : ℕ) (read : Instance) (r : TransitionRule) (w : World) (db' : Db)
    → IsConsistent w
    → In (id, read) w.reads
    → rule_for read.status ≡ some r
    → ltb now (r.due_at read) ≡ false
    → compare_and_set id r now read w.db ≡ some db'
    → IsConsistent (record w { db = db' })
write-kept id now read r w db' ok at known due h =
    let (row, found, same, becomes) = compare_and_set-some id now read r w.db db' h in
    let (row', found', dates') = ok.remembered id read at in
    let is : row' ≡ row = some_injective row' row (sym found' ∙ found) in
    let dates : SameDates read row = rw (sym is) dates' in
    let sound = ok.rows id row found in
    let e = announcement id now read row r w.db.outbox known same in
    let i = moved r now read row in
    let fresh : has_key (put id i w.db).outbox id r.event_type ≡ false = rw (put-outbox id i w.db) (
      has_key-count id r.event_type w.db.outbox
        (not_yet id now read row r w.db.outbox known same sound)) in
    rw
      (
        becomes,
        publish-new (record { instance_id = id; event_type = r.event_type; occurred_at = now })
            (put id i w.db) fresh,
        put-outbox id i w.db,
      )
      (rewrite_row-IsConsistent id i _ w ok (inr (_, refl, refl))
        (moved-IsSound id now read row r w.db.outbox known same sound dates due)
        (λ old at'.
          rw (some_injective old row (sym at' ∙ found))
            (moved_dates read.status r now read row known)))
