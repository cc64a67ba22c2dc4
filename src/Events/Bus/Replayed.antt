-- ===== src/Events/Bus/Replayed.antt =====
-- A dedupe key is announced once, and a producer that repeats its call adds nothing.
use strat_align.Prelude.{
  ℕ, suc, ◌+◌, Bool, true, false, List, [], ◌∷◌, ◌≡◌, refl, ◌∙◌, arith, inl, inr, if◌then◌else◌,
  Bool-cases, test_refl, All, length,
}
use strat_align.Events.Bus.{
  EventPublicationRequest, OutboxRow, row_of, is_known, create_many, publish_within,
}

abbrev pub HasDistinctKeys : List OutboxRow → Type 0
HasDistinctKeys [] = Unit
HasDistinctKeys (r ∷ rows) = (is_known rows r.dedupe_key ≡ false) × HasDistinctKeys rows

-- What a call leaves of the rows that it found.
record Created (requests : List EventPublicationRequest) (rows : List OutboxRow)
    (r : ℕ × List OutboxRow) : Type 0 where
  kept : (key : ℕ) → is_known rows key ≡ true → is_known r.1 key ≡ true
  all_known : All (λ (q : EventPublicationRequest). is_known r.1 q.dedupe_key ≡ true) requests
  distinct : HasDistinctKeys rows → HasDistinctKeys r.1
  counted : length r.1 ≡ r.0 + length rows

known_more :
    (row : OutboxRow) (rows : List OutboxRow) (key : ℕ)
    → is_known rows key ≡ true
    → is_known (row ∷ rows) key ≡ true
known_more row rows key h = ground arith

skip_pair :
    (b : Bool) (now : ℕ) (request : EventPublicationRequest)
    (requests : List EventPublicationRequest) (rows : List OutboxRow)
    → is_known rows request.dedupe_key ≡ b
    → create_many now (request ∷ requests) rows ≡ (
        if b then create_many now requests rows else (
          suc (create_many now requests (row_of now request ∷ rows)).0,
          (create_many now requests (row_of now request ∷ rows)).1,
        ))
unfolding create_many
skip_pair b now request requests rows h = rw h refl

create_many-Created :
    (now : ℕ) (requests : List EventPublicationRequest) (rows : List OutboxRow)
    → Created requests rows (create_many now requests rows)
unfolding create_many
create_many-Created now [] rows = record {
  kept = λ key h. h;
  all_known = tt;
  distinct = λ d. d;
  counted = omega arith;
}
create_many-Created now (request ∷ requests) rows =
    elim (Bool-cases (is_known rows request.dedupe_key)) [
      | inl known ↦
          let rest = create_many-Created now requests rows in
          rw known (record {
            kept = rest.kept;
            all_known = (rest.kept request.dedupe_key known, rest.all_known);
            distinct = rest.distinct;
            counted = rest.counted;
          })
      | inr new ↦
          let row = row_of now request in
          let rest = create_many-Created now requests (row ∷ rows) in
          rw new (record {
            kept = λ key h. rest.kept key (known_more row rows key h);
            all_known = (
              rest.kept request.dedupe_key (rw (test_refl request.dedupe_key) refl),
              rest.all_known,
            );
            distinct = λ d. rest.distinct (new, d);
            counted = rest.counted ∙ omega arith;
          })
    ]

-- Requests whose keys are known add nothing.
create_many-known :
    (now : ℕ) (requests : List EventPublicationRequest) (rows : List OutboxRow)
    → All (λ (q : EventPublicationRequest). is_known rows q.dedupe_key ≡ true) requests
    → create_many now requests rows ≡ (0, rows)
unfolding create_many
create_many-known now [] rows h = refl
create_many-known now (request ∷ requests) rows h =
    skip_pair true now request requests rows h.0 ∙ create_many-known now requests rows h.1

-- Rows with distinct dedupe keys stay so when events are published; as many rows are added as the
-- call returns; and the same requests published again, at any time, add nothing and return 0.
pub replay_adds_nothing :
    (now later : ℕ) (requests : List EventPublicationRequest) (rows : List OutboxRow)
    → HasDistinctKeys rows
    → HasDistinctKeys (publish_within now requests rows).1
      × (length (publish_within now requests rows).1
          ≡ (publish_within now requests rows).0 + length rows)
      × (publish_within later requests (publish_within now requests rows).1
          ≡ (0, (publish_within now requests rows).1))
unfolding publish_within
replay_adds_nothing now later [] rows d = (d, omega arith, refl)
replay_adds_nothing now later (request ∷ requests) rows d =
    let created = create_many-Created now (request ∷ requests) rows in
    (
      created.distinct d,
      created.counted,
      create_many-known later (request ∷ requests) (create_many now (request ∷ requests) rows).1
          created.all_known,
    )
