-- ===== src/Rules/Tests.antt =====
-- Bands and gates on concrete facts.
use strat_align.Prelude.{
  ℕ, true, false, Option, none, some, List, [], ◌∷◌, ◌≡◌, ◌↔◌, ◌⊎◌, refl, ◌==◌, if◌then◌else◌, In,
}
use strat_align.Rules.{
  gte, ThresholdBand, match_from, evaluate_threshold_status, GateFactValue, number, text, equals,
  at_least, exists, GateCriterion, evaluate_criterion, evaluate_gate_criteria,
}
use strat_align.Rules.Threshold.{Matches, IsFirstMatch, evaluate_threshold_status_first}
use strat_align.Rules.Gate.{Holds, evaluate_gate_criteria_iff}

abbrev bands : List ThresholdBand
bands =
    record { label = 1; color = 11; comparator = gte; value = 90 }
    ∷ record { label = 2; color = 12; comparator = gte; value = 70 }
    ∷ []

abbrev facts : ℕ → Option GateFactValue
facts name = if name == 1 then some (number 80) else if name == 2 then some (text 5) else none

abbrev criteria : List GateCriterion
criteria =
    record { name = 1; fact = 1; test = at_least 70 }
    ∷ record { name = 2; fact = 2; test = equals (text 5) }
    ∷ record { name = 3; fact = 3; test = exists false }
    ∷ []

runs :
    (evaluate_threshold_status bands 75
      ≡ some (record { label = 2; color = 12; matched_band_index = 1 }))
    × (evaluate_threshold_status bands 60 ≡ none)
    × ((evaluate_gate_criteria criteria facts).passed ≡ true)
unfolding match_from evaluate_threshold_status evaluate_criterion evaluate_gate_criteria
runs = (refl, refl, refl)

evaluate_threshold_status_first_example :
    ((evaluate_threshold_status bands 75 ≡ none)
      × ((b : ThresholdBand) → In b bands → ¬ Matches 75 b))
    ⊎ ((n : ℕ) × (b : ThresholdBand) × IsFirstMatch 75 bands n b
        × (evaluate_threshold_status bands 75
            ≡ some (record { label = b.label; color = b.color; matched_band_index = n })))
evaluate_threshold_status_first_example = evaluate_threshold_status_first bands 75

evaluate_gate_criteria_iff_example :
    ((evaluate_gate_criteria criteria facts).passed ≡ true)
    ↔ ((c : GateCriterion) → In c criteria → Holds (facts c.fact) c.test)
evaluate_gate_criteria_iff_example = evaluate_gate_criteria_iff criteria facts
