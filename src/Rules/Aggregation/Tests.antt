-- ===== src/Rules/Aggregation/Tests.antt =====
-- Runs of the aggregation of statuses with numbers in halves, and its theorem at concrete children.
use strat_align.Prelude.{
  ℕ, ◌+◌, ◌*◌, ◌/◌, Bool, true, false, Option, none, some, List, [], ◌∷◌, ◌≡◌, refl, ◌==◌, leb,
}
use strat_align.Rules.Aggregation.{
  RagStatus, on_track, watch, off_track, Numbers, RagChild, RagAggregationResult, worst_child_wins,
  weighted_count, max_score, total_weight, weighted_score, evaluate_rag_aggregation,
}
use strat_align.Rules.Aggregation.Worst.{worst, HasScores, score_of_worst, worst_wins}

aggregation : Unit {0}
unfolding evaluate_rag_aggregation max_score total_weight weighted_score
aggregation = tt

-- A number of halves, or the lowest number.
abbrev at_least : Option ℕ → Option ℕ → Bool
at_least a none = true
at_least none (some b) = false
at_least (some a) (some b) = leb b a

abbrev equal : Option ℕ → Option ℕ → Bool
equal none none = true
equal (some a) (some b) = a == b
equal _ _ = false

abbrev lift : (ℕ → ℕ → ℕ) → Option ℕ → Option ℕ → Option ℕ
lift f (some a) (some b) = some (f a b)
lift f _ _ = none

abbrev halves : Numbers
halves = record {
  N = Option ℕ;
  zero_number = some 0;
  half = some 1;
  one_number = some 2;
  lowest = none;
  at_least = at_least;
  equal = equal;
  plus = lift (λ a b. a + b);
  times = lift (λ a b. (a * b) / 2);
  divide = lift (λ a b. (2 * a) / b);
}

scores : HasScores halves
scores = record {
  zero_zero = refl;
  zero_half = refl;
  zero_one = refl;
  half_zero = refl;
  half_half = refl;
  half_one = refl;
  one_zero = refl;
  one_half = refl;
  one_one = refl;
  zero_lowest = refl;
  half_lowest = refl;
  one_lowest = refl;
  one_is_one = refl;
  half_not_one = refl;
  zero_not_one = refl;
  half_is_half = refl;
  zero_not_half = refl;
}

abbrev child : ℕ → RagStatus → Option ℕ → RagChild halves
child id status weight = record { id = id; status = status; weight = some weight }

abbrev others : List (RagChild halves)
others = child 2 watch (some 2) ∷ child 3 on_track (some 4) ∷ []

abbrev result : RagStatus → ℕ → RagAggregationResult halves
result status score = record { status = status; score = some score }

runs :
    (evaluate_rag_aggregation halves worst_child_wins (child 1 on_track (some 2) ∷ others)
      ≡ result watch 1)
    × (evaluate_rag_aggregation halves
          (weighted_count (some 1) (some 2))
          (child 1 off_track (some 8) ∷ others)
        ≡ result watch 1)
unfolding aggregation
runs = (refl, refl)

worst_wins_example :
    evaluate_rag_aggregation halves worst_child_wins (child 1 on_track (some 2) ∷ others) ≡ record {
      status = worst halves (child 1 on_track (some 2) ∷ others);
      score = score_of_worst halves (worst halves (child 1 on_track (some 2) ∷ others));
    }
worst_wins_example = worst_wins halves scores (child 1 on_track (some 2)) others
