-- ===== src/Strategy/Tests.antt =====
-- Runs of the strategy graph checks, and the theorems at concrete graphs.
use strat_align.Prelude.{
  ℕ, Bool, true, false, some, List, [], ◌∷◌, ◌≡◌, refl, ◌↔◌, ◌⊎◌, ◌+◌, ◌≤◌, map,
}
use strat_align.Strategy.Types.{
  NodeState, PlanState, Node, Edge, NodeType, EdgeType, Error, ok, err, objective, strategic_play,
  portfolio, executed_by, belongs_to_portfolio,
}
use strat_align.Strategy.Cycle.{
  DirectedEdge, collect_nodes, targets, visit_each, visit, has_directed_cycle,
}
use strat_align.Strategy.Cycle.Sets.{edge}
use strat_align.Strategy.Cycle.Walks.{HasCycle}
use strat_align.Strategy.Cycle.Correct.{has_directed_cycle_decides}
use strat_align.Strategy.Rules.{
  default_relationship_rules, find_relationship_rule, assert_relationship_allowed, validate_edge,
  assert_relationship_cardinality,
}
use strat_align.Strategy.Graph.{
  assert_acyclic, node_by_id, validate_ends, validate_edges, edge_count, validate_rules,
  validate_nodes, directed, validate_graph,
}
use strat_align.Strategy.Graph.Valid.{IsValidGraph, validate_graph_iff}
use strat_align.Strategy.Graph.Defaults.{default_rules_acyclic}
use strat_align.Strategy.States.{
  node_rank, plan_rank, assert_node_state_transition, assert_plan_version_state_transition,
  state_transitions,
}

-- What the runs compute with.
checks : Unit {0}
unfolding validate_graph validate_edges validate_ends validate_nodes validate_rules edge_count
    node_by_id assert_acyclic validate_edge assert_relationship_allowed find_relationship_rule
    assert_relationship_cardinality has_directed_cycle visit visit_each collect_nodes targets
checks = tt

abbrev triangle : List DirectedEdge
triangle = edge 1 2 ∷ edge 2 3 ∷ edge 1 3 ∷ edge 3 1 ∷ []

abbrev diamond : List DirectedEdge
diamond = edge 1 2 ∷ edge 1 3 ∷ edge 2 4 ∷ edge 3 4 ∷ []

search_runs : (has_directed_cycle triangle ≡ some true) × (has_directed_cycle diamond ≡ some false)
unfolding checks
search_runs = (refl, refl)

has_directed_cycle_decides_example :
    (b : Bool) × (has_directed_cycle triangle ≡ some b) × ((b ≡ true) ↔ HasCycle triangle)
has_directed_cycle_decides_example = has_directed_cycle_decides triangle

abbrev node : ℕ → NodeType → Node
node id type = record { id = id; type = type; plan_version_id = 7 }

abbrev small_nodes : List Node
small_nodes = node 1 objective ∷ node 2 strategic_play ∷ node 3 portfolio ∷ []

abbrev link : ℕ → ℕ → EdgeType → Edge
link from to kind = record {
  from_node_id = from;
  to_node_id = to;
  edge_type = kind;
  plan_version_id = 7;
}

abbrev small_edges : List Edge
small_edges = link 1 2 executed_by ∷ link 2 3 belongs_to_portfolio ∷ []

graph_runs :
    (validate_graph small_nodes small_edges default_relationship_rules ≡ ok tt)
    × (validate_graph small_nodes (link 1 3 executed_by ∷ []) default_relationship_rules
        ≡ err (Error.invalid_relationship objective portfolio executed_by))
unfolding checks
graph_runs = (refl, refl)

validate_graph_iff_example :
    (validate_graph small_nodes small_edges default_relationship_rules ≡ ok tt)
    ↔ IsValidGraph small_nodes small_edges default_relationship_rules
validate_graph_iff_example = validate_graph_iff small_nodes small_edges default_relationship_rules

default_rules_acyclic_example : assert_acyclic (map directed small_edges) ≡ ok tt
unfolding checks
default_rules_acyclic_example = default_rules_acyclic small_nodes small_edges refl

state_transitions_example :
    ((assert_node_state_transition NodeState.draft NodeState.retired ≡ ok tt)
      ↔ (node_rank NodeState.draft ≤ node_rank NodeState.retired))
    × ((assert_plan_version_state_transition PlanState.draft PlanState.closed ≡ ok tt) ↔ (
        (plan_rank PlanState.closed ≡ plan_rank PlanState.draft)
        ⊎ (plan_rank PlanState.closed ≡ plan_rank PlanState.draft + 1)))
state_transitions_example =
    state_transitions NodeState.draft NodeState.retired PlanState.draft PlanState.closed
