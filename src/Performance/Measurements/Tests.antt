-- ===== src/Performance/Measurements/Tests.antt =====
-- Runs of the store of measurements, and the theorems at concrete tables.
use strat_align.Prelude.{
  ℕ, true, Option, none, some, [], ◌∷◌, ◌≡◌, ◌≢◌, refl, sym, ap, ◌∙◌, arith, inl, inr, In, err,
}
use strat_align.Performance.Measurements.{
  Series, MeasurementSource, manual, feed, Measurement, RecordMeasurementInput,
  ListMeasurementsInput, Error, Db, is_superseded, insert, order, effective, query_effective,
  resolve, resolve_current, resolve_as_of, check_target, find_id, validate_supersession,
  new_measurement, announcement, publish, record_measurement,
}
use strat_align.Performance.Measurements.Clock.{held_at, query_effective_then}
use strat_align.Performance.Measurements.Sound.{IsSound}
use strat_align.Performance.Measurements.Histories.{
  Reached, empty, records, measurements-IsSound, recorded_current,
}

store : Unit {0}
unfolding is_superseded insert order effective query_effective resolve check_target find_id
    validate_supersession publish record_measurement
store = tt

abbrev sales : Series
sales = record { kpi_version_id = 4; scope_node_id = 2; period = 202 }

abbrev input : ℕ → MeasurementSource → Option ℕ → RecordMeasurementInput
input value source supersedes_id = record {
  series = sales;
  value = value;
  source = source;
  locked = some true;
  supersedes_id = supersedes_id;
  submitted_by = 9;
  evidence_ref = none;
}

abbrev first_row : Measurement
first_row = new_measurement 61 1000 (input 50 manual none)

abbrev second_row : Measurement
second_row = new_measurement 62 2000 (input 55 feed (some 61))

abbrev none_yet : Db
none_yet = record { measurements = []; outbox = []; nudges = 0 }

abbrev one_recorded : Db
one_recorded = record {
  measurements = first_row ∷ [];
  outbox = announcement first_row ∷ [];
  nudges = 1;
}

abbrev two_recorded : Db
two_recorded = record {
  measurements = second_row ∷ first_row ∷ [];
  outbox = announcement second_row ∷ announcement first_row ∷ [];
  nudges = 2;
}

runs :
    (record_measurement 62 2000 (input 55 manual (some 61)) one_recorded
      ≡ err Error.measurement_locked)
    × (record_measurement 62 2000 (input 55 manual none) one_recorded ≡ err Error.already_exists)
    × (record_measurement 63 3000 (input 60 feed (some 61)) two_recorded
        ≡ err Error.already_corrected)
    × (resolve_as_of sales 1500 two_recorded.measurements ≡ some first_row)
    × (resolve_as_of sales 500 two_recorded.measurements ≡ none)
    × (resolve_current sales two_recorded.measurements ≡ some second_row)
unfolding store
runs = (refl, refl, refl, refl, refl, refl)

abbrev whole_period : ListMeasurementsInput
whole_period = record {
  kpi_version_id = none;
  scope_node_id = none;
  period = some 202;
  as_of = none;
  limit = 10;
}

query_effective_then_example :
    query_effective (record whole_period { as_of = some 1500 }) two_recorded.measurements
    ≡ query_effective
        (record whole_period { as_of = none })
        (held_at 1500 two_recorded.measurements)
query_effective_then_example = query_effective_then whole_period 1500 two_recorded.measurements

none-fresh : (s : Measurement) → In s [] → s.id ≢ 61
none-fresh s i e = i

apart : ¬ ◌≡◌ {A = ℕ} 61 62
apart h = omega arith

one-fresh : (s : Measurement) → In s one_recorded.measurements → s.id ≢ 62
one-fresh s (inl e) h = apart (sym (ap (λ (m : Measurement). m.id) e) ∙ h)
one-fresh s (inr i) h = i

one-Reached : Reached one_recorded
unfolding store
one-Reached = records 61 1000 (input 50 manual none) first_row empty none-fresh refl

two-Reached : Reached two_recorded
unfolding store
two-Reached = records 62 2000 (input 55 feed (some 61)) second_row one-Reached one-fresh refl

measurements-IsSound_example : IsSound two_recorded.measurements
measurements-IsSound_example = measurements-IsSound two-Reached

recorded_current_example : resolve_current sales two_recorded.measurements ≡ some second_row
unfolding store
recorded_current_example =
    recorded_current 62 2000 (input 55 feed (some 61)) two_recorded second_row one-Reached one-fresh
      refl
