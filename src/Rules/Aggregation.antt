-- ===== src/Rules/Aggregation.antt =====
-- The aggregation of statuses, packages/rules/src/evaluators/rag-aggregation.ts, over an interface
-- to the floating point numbers that it computes with.
pub mod Worst
mod Tests
use strat_align.Prelude.{
  ℕ, Bool, true, false, Option, none, some, List, [], ◌∷◌, ◌≡◌, ◌==◌, leb, if◌then◌else◌, map,
}

pub data RagStatus : Type 0 where
  on_track watch off_track : RagStatus

abbrev pub rank : RagStatus → ℕ
rank on_track = 0
rank watch = 1
rank off_track = 2

-- The numbers: `lowest` is what `Math.max` gives of no numbers.
pub record Numbers : Type 1 where
  pub N : Type 0
  pub zero_number : N
  pub half : N
  pub one_number : N
  pub lowest : N
  pub at_least : N → N → Bool
  pub equal : N → N → Bool
  pub plus : N → N → N
  pub times : N → N → N
  pub divide : N → N → N

module _ (numbers : Numbers) where
  pub record RagChild : Type 0 where
    pub id : ℕ
    pub status : RagStatus
    pub weight : Option numbers.N

  pub data RagAggregationRule : Type 0 where
    worst_child_wins : RagAggregationRule
    weighted_count : (watch_threshold off_track_threshold : numbers.N) → RagAggregationRule

  pub record RagAggregationResult : Type 0 where
    pub status : RagStatus
    pub score : numbers.N

  -- `ragScore`
  abbrev pub rag_score : RagStatus → numbers.N
  rag_score on_track = numbers.zero_number
  rag_score watch = numbers.half
  rag_score off_track = numbers.one_number

  -- `Math.max` of the scores
  abbrev pub larger : numbers.N → numbers.N → numbers.N
  larger a b = if numbers.at_least a b then a else b

  unfoldable pub max_score : List RagChild → numbers.N
  max_score [] = numbers.lowest
  max_score (c ∷ cs) = larger (rag_score c.status) (max_score cs)

  abbrev pub status_of_worst : numbers.N → RagStatus
  status_of_worst score =
      if numbers.equal score numbers.one_number
      then off_track
      else if numbers.equal score numbers.half
      then watch
      else on_track

  abbrev pub weight_of : Option numbers.N → numbers.N
  weight_of none = numbers.one_number
  weight_of (some w) = w

  -- The two calls of `reduce`, from the totals so far.
  unfoldable pub total_weight : numbers.N → List RagChild → numbers.N
  total_weight total [] = total
  total_weight total (c ∷ cs) = total_weight (numbers.plus total (weight_of c.weight)) cs

  unfoldable pub weighted_score : numbers.N → List RagChild → numbers.N
  weighted_score total [] = total
  weighted_score total (c ∷ cs) =
      weighted_score (numbers.plus total (numbers.times (rag_score c.status) (weight_of c.weight)))
        cs

  abbrev pub status_of_score : numbers.N → numbers.N → numbers.N → RagStatus
  status_of_score watch_threshold off_track_threshold score =
      if numbers.at_least score off_track_threshold
      then off_track
      else if numbers.at_least score watch_threshold
      then watch
      else on_track

  unfoldable pub evaluate_rag_aggregation :
      RagAggregationRule → List RagChild → RagAggregationResult
  evaluate_rag_aggregation worst_child_wins children = record {
    status = status_of_worst (max_score children);
    score = max_score children;
  }
  evaluate_rag_aggregation (weighted_count watch_threshold off_track_threshold) children =
      let score =
        numbers.divide (weighted_score numbers.zero_number children)
          (total_weight numbers.zero_number children) in
      record { status = status_of_score watch_threshold off_track_threshold score; score = score }
