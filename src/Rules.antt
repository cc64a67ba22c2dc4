-- ===== src/Rules.antt =====
-- packages/rules/src: the evaluators of threshold bands and of gate criteria. Their numbers are
-- finite and only compared, so a number is its place in the order of the finite numbers, and texts
-- are numbers.
pub mod Service
pub mod Aggregation
pub mod Threshold
pub mod Gate
mod Tests
use strat_align.Prelude.{
  ℕ, suc, Bool, true, false, not, Option, none, some, List, [], ◌∷◌, ◌==◌, ◌&&◌, ◌||◌, ltb, leb,
  any, all, map,
}

pub data ComparisonOperator : Type 0 where
  gt gte lt lte eq neq : ComparisonOperator

-- `compareNumbers`
abbrev pub compare_numbers : ℕ → ComparisonOperator → ℕ → Bool
compare_numbers actual gt expected = ltb expected actual
compare_numbers actual gte expected = leb expected actual
compare_numbers actual lt expected = ltb actual expected
compare_numbers actual lte expected = leb actual expected
compare_numbers actual eq expected = actual == expected
compare_numbers actual neq expected = not (actual == expected)

pub record ThresholdBand : Type 0 where
  pub label : ℕ
  pub color : ℕ
  pub comparator : ComparisonOperator
  pub value : ℕ

pub record ThresholdStatusResult : Type 0 where
  pub label : ℕ
  pub color : ℕ
  pub matched_band_index : ℕ

-- The loop over the bands from an index on.
unfoldable pub match_from : ℕ → List ThresholdBand → ℕ → Option ThresholdStatusResult
match_from index [] value = none
match_from index (b ∷ bs) value = elim (compare_numbers value b.comparator b.value) [
  | true ↦ some (record { label = b.label; color = b.color; matched_band_index = index })
  | false ↦ match_from (suc index) bs value
]

-- `evaluateThresholdStatus`; `none` is the error that it throws.
unfoldable pub evaluate_threshold_status : List ThresholdBand → ℕ → Option ThresholdStatusResult
evaluate_threshold_status bands value = match_from 0 bands value

pub data GateFactValue : Type 0 where
  text number : ℕ → GateFactValue
  boolean : Bool → GateFactValue
  null : GateFactValue

-- What a criterion asks of its fact, with the value that it expects.
pub data GateTest : Type 0 where
  equals not_equals : GateFactValue → GateTest
  above at_least below at_most : ℕ → GateTest
  one_of : List GateFactValue → GateTest
  exists : Bool → GateTest

pub record GateCriterion : Type 0 where
  pub name : ℕ
  pub fact : ℕ
  pub test : GateTest

abbrev same_bool : Bool → Bool → Bool
same_bool true b = b
same_bool false b = not b

-- `valuesEqual`, for a fact that may be missing
abbrev pub values_equal : GateFactValue → GateFactValue → Bool
values_equal (text a) (text b) = a == b
values_equal (number a) (number b) = a == b
values_equal (boolean a) (boolean b) = same_bool a b
values_equal null null = true
values_equal _ _ = false

abbrev has_fact : Option GateFactValue → Bool
has_fact none = false
has_fact (some v) = true

abbrev equal_fact : Option GateFactValue → GateFactValue → Bool
equal_fact none v = false
equal_fact (some a) v = values_equal a v

abbrev compared : Option GateFactValue → ComparisonOperator → ℕ → Bool
compared (some (number n)) o expected = compare_numbers n o expected
compared _ o expected = false

abbrev pub test_fact : Option GateFactValue → GateTest → Bool
test_fact actual (equals v) = has_fact actual && equal_fact actual v
test_fact actual (not_equals v) = not (has_fact actual) || not (equal_fact actual v)
test_fact actual (above n) = compared actual gt n
test_fact actual (at_least n) = compared actual gte n
test_fact actual (below n) = compared actual lt n
test_fact actual (at_most n) = compared actual lte n
test_fact actual (one_of vs) = has_fact actual && any (equal_fact actual) vs
test_fact actual (exists true) = has_fact actual
test_fact actual (exists false) = not (has_fact actual)

-- `evaluateCriterion`
unfoldable pub evaluate_criterion : GateCriterion → (ℕ → Option GateFactValue) → Bool
evaluate_criterion c facts = test_fact (facts c.fact) c.test

pub record GateCriterionResult : Type 0 where
  pub name : ℕ
  pub fact : ℕ
  pub passed : Bool
  pub actual : Option GateFactValue
  pub expected : GateTest

pub record GateCriteriaResult : Type 0 where
  pub passed : Bool
  pub criteria : List GateCriterionResult

abbrev pub result_of : (ℕ → Option GateFactValue) → GateCriterion → GateCriterionResult
result_of facts c = record {
  name = c.name;
  fact = c.fact;
  passed = evaluate_criterion c facts;
  actual = facts c.fact;
  expected = c.test;
}

-- `evaluateGateCriteria`
unfoldable pub evaluate_gate_criteria :
    List GateCriterion → (ℕ → Option GateFactValue) → GateCriteriaResult
evaluate_gate_criteria rule facts =
    let criteria = map (result_of facts) rule in
    record { passed = all (λ c. c.passed) criteria; criteria = criteria }
