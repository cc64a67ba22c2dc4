-- ===== src/Rules/Gate.antt =====
-- A gate passes exactly when its criteria hold of the facts.
use strat_align.Prelude.{
  ℕ, ◌≤◌, ◌<◌, true, false, Option, none, some, List, [], ◌∷◌, ◌≡◌, ◌≢◌, ◌↔◌, refl, inl, inr, arith,
  In, any, or_true, and_true,
}
use strat_align.Rules.{
  GateFactValue, number, GateTest, equals, not_equals, above, at_least, below, at_most, one_of,
  exists, GateCriterion, values_equal, test_fact, evaluate_criterion, evaluate_gate_criteria,
}

abbrev IsNumber : Option GateFactValue → (ℕ → Type 0) → Type 0
IsNumber actual P = (n : ℕ) × (actual ≡ some (number n)) × P n

-- What a test says of a fact, which may be missing.
abbrev pub Holds : Option GateFactValue → GateTest → Type 0
Holds actual (equals v) = actual ≡ some v
Holds actual (not_equals v) = actual ≢ some v
Holds actual (above k) = IsNumber actual (λ n. k < n)
Holds actual (at_least k) = IsNumber actual (λ n. k ≤ n)
Holds actual (below k) = IsNumber actual (λ n. n < k)
Holds actual (at_most k) = IsNumber actual (λ n. n ≤ k)
Holds actual (one_of vs) = (v : GateFactValue) × In v vs × (actual ≡ some v)
Holds actual (exists true) = (v : GateFactValue) × (actual ≡ some v)
Holds actual (exists false) = actual ≡ none

values_equal_iff : (a b : GateFactValue) → (values_equal a b ≡ true) ↔ (a ≡ b)
values_equal_iff a b = ground arith

some_iff : (a : GateFactValue) (v : GateFactValue) → (values_equal a v ≡ true) ↔ (some a ≡ some v)
some_iff a v = ground (arith, values_equal_iff a v)

any_iff :
    (a : GateFactValue) (vs : List GateFactValue)
    → (any (values_equal a) vs ≡ true) ↔ ((v : GateFactValue) × In v vs × (some a ≡ some v))
any_iff a [] = (λ h. cc, λ (v, i, h). absurd i)
any_iff a (x ∷ vs) = (
  λ h. elim (or_true (values_equal a x) (any (values_equal a) vs) h) [
    | inl this ↦ (x, inl refl, (some_iff a x).0 this)
    | inr rest ↦ let (v, i, same) = (any_iff a vs).0 rest in (v, inr i, same)
  ],
  λ (v, i, same). elim i [
    | inl this ↦ rw ((some_iff a x).1 (rw (← this) same)) refl
    | inr later ↦ rw ((any_iff a vs).1 (v, later, same)) (ground arith)
  ],
)

test_fact_iff :
    (actual : Option GateFactValue) (t : GateTest) → (test_fact actual t ≡ true) ↔ Holds actual t
test_fact_iff none (equals v) = ground arith
test_fact_iff none (not_equals v) = ground arith
test_fact_iff none (above k) = ground arith
test_fact_iff none (at_least k) = ground arith
test_fact_iff none (below k) = ground arith
test_fact_iff none (at_most k) = ground arith
test_fact_iff none (one_of vs) = ground arith
test_fact_iff none (exists true) = ground arith
test_fact_iff none (exists false) = ground arith
test_fact_iff (some a) (equals v) = some_iff a v
test_fact_iff (some a) (not_equals v) = ground (arith, some_iff a v)
test_fact_iff (some a) (above k) = ground arith
test_fact_iff (some a) (at_least k) = ground arith
test_fact_iff (some a) (below k) = ground arith
test_fact_iff (some a) (at_most k) = ground arith
test_fact_iff (some a) (one_of vs) = any_iff a vs
test_fact_iff (some a) (exists true) = ground arith
test_fact_iff (some a) (exists false) = ground arith

-- `evaluateGateCriteria` lets a gate pass exactly when every criterion holds of the facts: an
-- equality of the fact itself, a comparison of a fact that is a number, a membership of a fact that
-- is there, and a missing fact differs from every value.
pub evaluate_gate_criteria_iff :
    (rule : List GateCriterion) (facts : ℕ → Option GateFactValue)
    → ((evaluate_gate_criteria rule facts).passed ≡ true)
      ↔ ((c : GateCriterion) → In c rule → Holds (facts c.fact) c.test)
unfolding evaluate_gate_criteria evaluate_criterion
evaluate_gate_criteria_iff [] facts = (λ h c i. absurd i, λ h. refl)
evaluate_gate_criteria_iff (x ∷ rule) facts = (
  λ h c i.
      let (first, rest) = and_true (test_fact (facts x.fact) x.test) _ h in
      elim i [
        | inl this ↦ rw this ((test_fact_iff (facts x.fact) x.test).0 first)
        | inr later ↦ (evaluate_gate_criteria_iff rule facts).0 rest c later
      ],
  λ h.
      rw ((test_fact_iff (facts x.fact) x.test).1 (h x (inl refl)))
        ((evaluate_gate_criteria_iff rule facts).1 (λ c i. h c (inr i))),
)
