-- ===== src/Scheduler/Workers/Frame.antt =====
-- A write to one row and its announcement leave the other rows as they were.
use strat_align.Prelude.{
  ℕ, ◌+◌, ◌≤◌, none, some, List, [], ◌∷◌, ◌≡◌, ◌≢◌, refl, sym, ap, ◌∙◌, ◌⊎◌, inl, inr, arith, ◌==◌,
  In, eq_of_test, ne_of_test, test_refl, Bool-cases,
}
use mathlib.Core.Path.{subst}
use strat_align.Scheduler.{EventType, event_index, Instance, Event, Db, put}
use strat_align.Scheduler.Workers.{World, count, IsSound, SameDates, IsConsistent}

-- The outbox as it was, or with one event more, of this instance.
abbrev pub Extends : ℕ → List Event → List Event → Type 0
Extends id old new = (new ≡ old) ⊎ ((e : Event) × (e.instance_id ≡ id) × (new ≡ e ∷ old))

abbrev pub rewrite_row : ℕ → Instance → List Event → World → World
rewrite_row id i outbox w = record {
  db = record { instances = (put id i w.db).instances; outbox = outbox };
  reads = w.reads;
}

count_elsewhere :
    (id j : ℕ) (k : EventType) (old new : List Event)
    → Extends id old new
    → j ≢ id
    → count new j k ≡ count old j k
count_elsewhere id j k old new (inl same) other = ap (λ o. count o j k) same
count_elsewhere id j k old new (inr (e, own, same)) other = rw same (ground arith)

put-own : (id j : ℕ) (i : Instance) (db : Db) → j ≡ id → (put id i db).instances j ≡ some i
unfolding put
put-own id j i db same = ground (arith, test_refl id)

put-other :
    (id j : ℕ) (i : Instance) (db : Db) → j ≢ id → (put id i db).instances j ≡ db.instances j
unfolding put
put-other id j i db other = ground arith

count_here :
    (id : ℕ) (y : Event) (ys : List Event)
    → y.instance_id ≡ id
    → count (y ∷ ys) id y.event_type ≡ 1 + count ys id y.event_type
count_here id y ys same = rw (same, test_refl id, test_refl (event_index y.event_type)) refl

-- An event that is in the outbox is counted.
pub counted :
    (id : ℕ) (outbox : List Event) (x : Event)
    → In x outbox
    → x.instance_id ≡ id
    → 1 ≤ count outbox id x.event_type
counted id [] x i same = absurd i
counted id (y ∷ ys) x (inl here) same = omega (
  arith,
  ap (λ (e : Event). count (y ∷ ys) id e.event_type) here,
  count_here id y ys (sym (ap (λ (e : Event). e.instance_id) here) ∙ same),
)
counted id (y ∷ ys) x (inr later) same = omega (arith, counted id ys x later same)

pub In-grown : (e x : Event) (old new : List Event) → new ≡ e ∷ old → In x new → (x ≡ e) ⊎ In x old
In-grown e x old new same at = subst (λ o. In x o) same at

other-IsSound :
    (id j : ℕ) (i : Instance) (old new : List Event)
    → Extends id old new
    → j ≢ id
    → IsSound j i old
    → IsSound j i new
other-IsSound id j i old new (inl same) other sound = rw same sound
other-IsSound id j i old new (inr (e, own, same)) other sound = record {
  once = λ k. count_elsewhere id j k old new (inr (e, own, same)) other ∙ sound.once k;
  on_time = λ x at is. elim (In-grown e x old new same at) [
    | inl here ↦ absurd (other (sym is ∙ ap (λ (e : Event). e.instance_id) here ∙ own))
    | inr later ↦ sound.on_time x later is
  ];
  scheduled = sound.scheduled;
}

some_injective : (a b : Instance) → some a ≡ some b → a ≡ b
some_injective a b h = cc

some_or_none : (a : Instance) → some a ≡ none → ⊥
some_or_none a h = cc

same_dates : (a b c : Instance) → SameDates a b → SameDates b c → SameDates a c
same_dates a b c (p, q, r, s) (p', q', r', s') = (p ∙ p', q ∙ q', r ∙ r', s ∙ s')

IsSound-at :
    (id j : ℕ) (i row : Instance) (outbox : List Event)
    → j ≡ id
    → row ≡ i
    → IsSound id i outbox
    → IsSound j row outbox
IsSound-at id j i row outbox same is sound = rw (same, is) sound

-- A write that keeps its own row sound and its dates keeps the tables consistent.
pub rewrite_row-IsConsistent :
    (id : ℕ) (i : Instance) (outbox : List Event) (w : World)
    → IsConsistent w
    → Extends id w.db.outbox outbox
    → IsSound id i outbox
    → ((row : Instance) → w.db.instances id ≡ some row → SameDates row i)
    → IsConsistent (rewrite_row id i outbox w)
rewrite_row-IsConsistent id i outbox w ok ext sound dates = record {
  rows = λ j row found. elim (Bool-cases (j == id)) [
    | inl own ↦
        let here : some row ≡ some i = sym found ∙ put-own id j i w.db (eq_of_test j id own) in
        IsSound-at id j i row outbox (eq_of_test j id own) (some_injective row i here) sound
    | inr other ↦
        other-IsSound id j row w.db.outbox outbox ext (ne_of_test j id other)
          (ok.rows j row (sym (put-other id j i w.db (ne_of_test j id other)) ∙ found))
  ];
  unknown = λ j k gone. elim (Bool-cases (j == id)) [
    | inl own ↦ absurd (some_or_none i (sym (put-own id j i w.db (eq_of_test j id own)) ∙ gone))
    | inr other ↦
        count_elsewhere id j k w.db.outbox outbox ext (ne_of_test j id other)
        ∙ ok.unknown j k (sym (put-other id j i w.db (ne_of_test j id other)) ∙ gone)
  ];
  remembered = λ j read at. elim (Bool-cases (j == id)) [
    | inl own ↦
        let (row, found, same) = ok.remembered j read at in
        (
          i,
          put-own id j i w.db (eq_of_test j id own),
          same_dates read row i same (dates row (rw (sym (eq_of_test j id own)) found)),
        )
    | inr other ↦
        let (row, found, same) = ok.remembered j read at in
        (row, put-other id j i w.db (ne_of_test j id other) ∙ found, same)
  ];
}
