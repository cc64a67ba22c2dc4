-- ===== src/Performance/Measurements.antt =====
-- The append-only store of measurements,
-- apps/backend/src/modules/performance/measurement.service.ts: `record`, `validateSupersession`,
-- and the query for effective measurements with the reads that use it. A call of `record` runs
-- alone on its series, under the lock that its transaction takes.
pub mod Effective
pub mod Clock
pub mod Sound
pub mod Histories
mod Tests
use strat_align.Prelude.{
  ℕ, zero, suc, ◌+◌, Bool, true, false, Option, none, some, List, [], ◌∷◌, ◌==◌, ◌&&◌, ◌||◌, ltb,
  leb, not, if◌then◌else◌, any, find, keep, Outcome, ok, err, throw_if, ◌>>=◌, ◌>>◌,
}

pub data MeasurementSource : Type 0 where
  manual feed template : MeasurementSource

abbrev pub is_feed : MeasurementSource → Bool
is_feed feed = true
is_feed _ = false

-- What a series of measurements is of.
pub record Series : Type 0 where
  pub kpi_version_id : ℕ
  pub scope_node_id : ℕ
  pub period : ℕ

abbrev pub same_series : Series → Series → Bool
same_series a b =
    a.kpi_version_id == b.kpi_version_id
    && a.scope_node_id == b.scope_node_id
    && a.period == b.period

-- A row of `measurement`, which is also its view.
pub record Measurement : Type 0 where
  pub id : ℕ
  pub series : Series
  pub value : ℕ
  pub source : MeasurementSource
  pub locked : Bool
  pub supersedes_id : Option ℕ
  pub submitted_by : ℕ
  pub evidence_ref : Option ℕ
  pub created_at : ℕ

pub record RecordMeasurementInput : Type 0 where
  pub series : Series
  pub value : ℕ
  pub source : MeasurementSource
  pub locked : Option Bool
  pub supersedes_id : Option ℕ
  pub submitted_by : ℕ
  pub evidence_ref : Option ℕ

pub record ListMeasurementsInput : Type 0 where
  pub kpi_version_id : Option ℕ
  pub scope_node_id : Option ℕ
  pub period : Option ℕ
  pub as_of : Option ℕ
  pub limit : ℕ

pub data Error : Type 0 where
  already_exists measurement_not_found other_series already_corrected : Error
  feed_measurement_locked measurement_locked : Error

abbrev pub Result {ℓ} : Type ℓ → Type ℓ
Result A = Outcome Error A

-- The event in the outbox, whose dedupe key is its type and measurement.
pub record MeasurementRecorded : Type 0 where
  pub measurement_id : ℕ
  pub series : Series
  pub source : MeasurementSource
  pub locked : Bool
  pub supersedes_id : Option ℕ
  pub recorded_at : ℕ

-- The tables, with the latest row first, and how often the relay was nudged.
pub record Db : Type 0 where
  pub measurements : List Measurement
  pub outbox : List MeasurementRecorded
  pub nudges : ℕ

abbrev pub is_id : Option ℕ → ℕ → Bool
is_id none id = false
is_id (some k) id = k == id

-- The conditions of the query: a filter that is given, and a row that existed by then.
abbrev pub fits : Option ℕ → ℕ → Bool
fits none a = true
fits (some b) a = a == b

abbrev pub existed : Option ℕ → Measurement → Bool
existed none m = true
existed (some as_of) m = leb m.created_at as_of

unfoldable pub is_superseded : Option ℕ → List Measurement → Measurement → Bool
is_superseded as_of table m = any (λ s. is_id s.supersedes_id m.id && existed as_of s) table

abbrev pub matches : ListMeasurementsInput → Measurement → Bool
matches input m =
    fits input.kpi_version_id m.series.kpi_version_id
    && fits input.scope_node_id m.series.scope_node_id
    && fits input.period m.series.period

-- `ORDER BY`: the series ascending, then the time and the identifier descending.
abbrev pub by : ℕ → ℕ → Bool → Bool
by a b equal = ltb a b || a == b && equal

abbrev pub comes_before : Measurement → Measurement → Bool
comes_before a b = by a.series.kpi_version_id b.series.kpi_version_id (
    by a.series.scope_node_id b.series.scope_node_id
      (by a.series.period b.series.period (by b.created_at a.created_at (ltb b.id a.id))))

unfoldable pub insert : Measurement → List Measurement → List Measurement
insert m [] = m ∷ []
insert m (x ∷ xs) = let rest = insert m xs in if comes_before m x then m ∷ x ∷ xs else x ∷ rest

unfoldable pub order : List Measurement → List Measurement
order [] = []
order (m ∷ ms) = insert m (order ms)

abbrev pub limit_to : ℕ → List Measurement → List Measurement
limit_to zero ms = []
limit_to (suc n) [] = []
limit_to (suc n) (m ∷ ms) = m ∷ limit_to n ms

-- The rows that `queryEffective` selects, before their order and limit.
unfoldable pub effective : ListMeasurementsInput → List Measurement → List Measurement
effective input table =
    keep (λ m. matches input m && existed input.as_of m && not (is_superseded input.as_of table m))
      table

unfoldable pub query_effective : ListMeasurementsInput → List Measurement → List Measurement
query_effective input table = limit_to input.limit (order (effective input table))

abbrev pub series_input : Series → Option ℕ → ListMeasurementsInput
series_input series as_of = record {
  kpi_version_id = some series.kpi_version_id;
  scope_node_id = some series.scope_node_id;
  period = some series.period;
  as_of = as_of;
  limit = 1;
}

abbrev pub first : List Measurement → Option Measurement
first [] = none
first (m ∷ ms) = some m

-- `resolveEffectiveWithin`, of which `resolveCurrent` and `resolveAsOf` are the two uses.
unfoldable pub resolve : Series → Option ℕ → List Measurement → Option Measurement
resolve series as_of table = first (query_effective (series_input series as_of) table)

abbrev pub resolve_current : Series → List Measurement → Option Measurement
resolve_current series table = resolve series none table

abbrev pub resolve_as_of : Series → ℕ → List Measurement → Option Measurement
resolve_as_of series as_of table = resolve series (some as_of) table

abbrev pub require_no_effective : Option Measurement → Result (Unit {0})
require_no_effective none = ok tt
require_no_effective (some m) = err already_exists

-- The feed lock, by the source of the locked row.
abbrev pub lock_error : MeasurementSource → Error
lock_error feed = feed_measurement_locked
lock_error _ = measurement_locked

-- The checks of a correction on the row that it supersedes.
unfoldable pub check_target :
    RecordMeasurementInput → List Measurement → Option Measurement → Result (Unit {0})
check_target input table none = err measurement_not_found
check_target input table (some target) =
    throw_if (not (same_series target.series input.series)) other_series
    >> throw_if (is_superseded none table target) already_corrected
    >> throw_if (target.locked && not (is_feed input.source)) (lock_error target.source)

unfoldable pub find_id : ℕ → List Measurement → Option Measurement
find_id id table = find (λ m. m.id == id) table

-- `validateSupersession`; an identifier that is given is not empty.
unfoldable pub validate_supersession :
    RecordMeasurementInput → Option ℕ → List Measurement → Result (Unit {0})
validate_supersession input none table = require_no_effective (resolve_current input.series table)
validate_supersession input (some target_id) table =
    check_target input table (find_id target_id table)

abbrev pub or_false : Option Bool → Bool
or_false none = false
or_false (some b) = b

abbrev pub new_measurement : ℕ → ℕ → RecordMeasurementInput → Measurement
new_measurement id now input = record {
  id = id;
  series = input.series;
  value = input.value;
  source = input.source;
  locked = or_false input.locked;
  supersedes_id = input.supersedes_id;
  submitted_by = input.submitted_by;
  evidence_ref = input.evidence_ref;
  created_at = now;
}

abbrev pub announcement : Measurement → MeasurementRecorded
announcement m = record {
  measurement_id = m.id;
  series = m.series;
  source = m.source;
  locked = m.locked;
  supersedes_id = m.supersedes_id;
  recorded_at = m.created_at;
}

-- `publishWithin` of one event: a known dedupe key is skipped.
unfoldable pub publish : MeasurementRecorded → List MeasurementRecorded → List MeasurementRecorded
publish e outbox =
    if any (λ x. x.measurement_id == e.measurement_id) outbox then outbox else e ∷ outbox

-- `record` with the identifier and the time that the database gives the row.
unfoldable pub record_measurement : ℕ → ℕ → RecordMeasurementInput → Db → Result (Measurement × Db)
record_measurement id now input db =
    let created = new_measurement id now input in
    validate_supersession input input.supersedes_id db.measurements
    >> ok (
      created,
      record {
        measurements = created ∷ db.measurements;
        outbox = publish (announcement created) db.outbox;
        nudges = db.nudges + 1;
      },
    )
