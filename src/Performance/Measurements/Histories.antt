-- ===== src/Performance/Measurements/Histories.antt =====
-- The measurements after any calls of `record`.
use strat_align.Prelude.{
  find-In, throw_if-false, not-false, ℕ, Bool, true, false, Option, none, some, List, [], ◌∷◌, ◌≡◌,
  ◌≢◌, refl, sym, ap, ◌∙◌, inl, inr, In, ◌==◌, ◌&&◌, not, ok, Option-cases, eq_of_test, then_ok,
  ok-cancel,
}
use mathlib.Core.Path.{subst}
use strat_align.Performance.Measurements.{
  MeasurementSource, manual, feed, template, is_feed, Measurement, RecordMeasurementInput, Db,
  check_target, find_id, validate_supersession, new_measurement, require_no_effective,
  resolve_current, record_measurement,
}
use strat_align.Performance.Measurements.Effective.{
  same_series-eq, resolve_current-some, resolve_current-none,
}
use strat_align.Performance.Measurements.Sound.{
  IsSound, Added, opens, corrects, new-IsEffective, added-IsSound,
}

-- The tables after calls that went through, at any times; a call that throws changes nothing.
pub data Reached : Db → Type 0 where
  empty : Reached (record { measurements = []; outbox = []; nudges = 0 })
  records :
      {db db' : Db} (id now : ℕ) (input : RecordMeasurementInput) (view : Measurement)
      → Reached db
      → ((s : Measurement) → In s db.measurements → s.id ≢ id)
      → record_measurement id now input db ≡ ok (view, db')
      → Reached db'

lock_kept :
    (source : MeasurementSource) (locked : Bool)
    → (locked && not (is_feed source)) ≡ false
    → locked ≡ true
    → source ≡ feed
lock_kept manual true h k = cc
lock_kept template true h k = cc
lock_kept feed true h k = refl
lock_kept source false h k = cc

-- What the checks of `validateSupersession` leave.
target-Added :
    (input : RecordMeasurementInput) (t : List Measurement) (id now k : ℕ) (o : Option Measurement)
    → input.supersedes_id ≡ some k
    → ((m : Measurement) → o ≡ some m → In m t × (m.id ≡ k))
    → check_target input t o ≡ ok tt
    → Added t (new_measurement id now input)
unfolding check_target
target-Added input t id now k none link found h = cc
target-Added input t id now k (some m) link found h =
    let (i, same) = found m refl in
    let (h1, lock) = (then_ok _ _ tt).0 h in
    let (series, latest) = (then_ok _ _ tt).0 h1 in
    corrects m (link ∙ ap some (sym same))
      (record {
        member = i;
        of_series = same_series-eq m.series input.series (not-false _ (throw_if-false _ _ series));
        latest = throw_if-false _ _ latest;
      })
      (lock_kept input.source m.locked (throw_if-false _ _ lock))

validate-Added :
    (input : RecordMeasurementInput) (t : List Measurement) (id now : ℕ) (o : Option ℕ)
    → input.supersedes_id ≡ o
    → validate_supersession input o t ≡ ok tt
    → Added t (new_measurement id now input)
unfolding validate_supersession find_id
validate-Added input t id now (some k) link h =
    target-Added input t id now k (find_id k t) link
      (λ m found. let (i, same) = find-In (λ x. x.id == k) t m found in (i, eq_of_test m.id k same))
      h
validate-Added input t id now none link h =
    opens link
      λ e. resolve_current-none input.series t e (none_found (resolve_current input.series t) h)
  where
    none_found : (o : Option Measurement) → require_no_effective o ≡ ok tt → o ≡ none
    none_found none h = refl
    none_found (some m) h = cc

record-writes :
    (id now : ℕ) (input : RecordMeasurementInput) (db db' : Db) (view : Measurement)
    → record_measurement id now input db ≡ ok (view, db')
    → Added db.measurements (new_measurement id now input)
      × (new_measurement id now input ∷ db.measurements ≡ db'.measurements)
unfolding record_measurement
record-writes id now input db db' view h =
    let (valid, written) = (then_ok _ (ok _) (view, db')).0 h in
    (
      validate-Added input db.measurements id now input.supersedes_id refl valid,
      ap rows (ok-cancel written),
    )
  where
    rows : Measurement × Db → List Measurement
    rows p = p.1.measurements

-- Whatever calls of record were made: an identifier belongs to one measurement; a series that has
-- measurements has exactly one that no other supersedes; no measurement is superseded twice; and
-- one that supersedes another is of its series, and comes from a feed if that one is locked.
pub measurements-IsSound : {db : Db} → Reached db → IsSound db.measurements
measurements-IsSound empty = record {
  ids = λ x y i j e. absurd i;
  some_effective = λ x i. absurd i;
  one_effective = λ series x y ex ey. absurd ex.member;
  linked = λ x k i h. absurd i;
  linear = λ x y k i j h g. absurd i;
}
measurements-IsSound (records {db} id now input view r fresh h) =
    let (added, written) = record-writes id now input db _ view h in
    subst IsSound written
      (added-IsSound (measurements-IsSound r) (new_measurement id now input) fresh added)

-- A measurement that record returns, in tables that calls of record have reached, is the one that
-- resolveCurrent then finds for its series.
pub recorded_current :
    {db : Db} (id now : ℕ) (input : RecordMeasurementInput) (db' : Db) (view : Measurement)
    → Reached db
    → ((s : Measurement) → In s db.measurements → s.id ≢ id)
    → record_measurement id now input db ≡ ok (view, db')
    → resolve_current input.series db'.measurements ≡ some view
unfolding record_measurement
recorded_current {db} id now input db' view r fresh h =
    let n = new_measurement id now input in
    let sound = measurements-IsSound r in
    let (added, written) = record-writes id now input db db' view h in
    let after = added-IsSound sound n fresh added in
    let is_new = new-IsEffective sound n fresh added input.series refl in
    let returned =
      ap (λ (p : Measurement × Db). p.0) (ok-cancel ((then_ok _ (ok _) (view, db')).0 h).1) in
    subst (λ t. resolve_current input.series t ≡ some view) written
      (elim (Option-cases (resolve_current input.series (n ∷ db.measurements))) [
        | inl missing ↦
            absurd (resolve_current-none input.series (n ∷ db.measurements) n missing is_new)
        | inr (m, found) ↦
            let eff = resolve_current-some input.series (n ∷ db.measurements) m found in
            found ∙ ap some (after.one_effective input.series m n eff is_new ∙ returned)
      ])
