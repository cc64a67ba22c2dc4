-- ===== src/Strategy/Rules.antt =====
-- The relationship rules of packages/domain-strategy/src/index.ts: which edge types may join which
-- node types, and how many such edges a node has.
pub mod Lookup
use strat_align.Prelude.{
  ℕ, Bool, true, false, Option, none, some, List, [], ◌∷◌, ◌==◌, ◌&&◌, ◌||◌, ltb, if◌then◌else◌,
  find,
}
use strat_align.Strategy.Types.{
  NodeType, corporate_strategy, theme, objective, strategic_play, portfolio, area_of_focus,
  EdgeType, contains, executed_by, belongs_to_portfolio, aligns_to, RelationshipRule, Node, Error,
  Result, ok, err, same_type, same_edge,
}

abbrev rule : NodeType → NodeType → EdgeType → ℕ → Option ℕ → RelationshipRule
rule from to kind least most = record {
  from_type = from;
  to_type = to;
  edge_type = kind;
  min_count = least;
  max_count = most;
}

abbrev pub default_relationship_rules : List RelationshipRule
default_relationship_rules =
    rule corporate_strategy theme contains 1 none
    ∷ rule theme objective contains 1 none
    ∷ rule objective strategic_play executed_by 1 none
    ∷ rule strategic_play portfolio belongs_to_portfolio 0 (some 1)
    ∷ rule strategic_play area_of_focus aligns_to 0 none
    ∷ []

abbrev pub rule_fits : NodeType → NodeType → EdgeType → RelationshipRule → Bool
rule_fits from to kind r =
    same_type r.from_type from && same_type r.to_type to && same_edge r.edge_type kind

unfoldable pub find_relationship_rule :
    NodeType → NodeType → EdgeType → List RelationshipRule → Option RelationshipRule
find_relationship_rule from to kind rules = find (rule_fits from to kind) rules

pub is_relationship_allowed : NodeType → NodeType → EdgeType → List RelationshipRule → Bool
is_relationship_allowed from to kind rules = elim (find_relationship_rule from to kind rules) [
  | none ↦ false
  | some r ↦ true
]

unfoldable pub assert_relationship_allowed :
    NodeType → NodeType → EdgeType → List RelationshipRule → Result RelationshipRule
assert_relationship_allowed from to kind rules = elim (find_relationship_rule from to kind rules) [
  | none ↦ err (Error.invalid_relationship from to kind)
  | some r ↦ ok r
]

unfoldable pub validate_edge :
    Node → Node → EdgeType → List RelationshipRule → Result RelationshipRule
validate_edge from to kind rules =
    if from.plan_version_id == to.plan_version_id
    then assert_relationship_allowed from.type to.type kind rules
    else err Error.cross_plan_version

-- `rule.maxCount !== null && count > rule.maxCount`
abbrev pub above : ℕ → Option ℕ → Bool
above count none = false
above count (some most) = ltb most count

unfoldable pub assert_relationship_cardinality : RelationshipRule → ℕ → Result (Unit {0})
assert_relationship_cardinality r count =
    if ltb count r.min_count || above count r.max_count
    then err (Error.cardinality r count)
    else ok tt
