-- ===== src/Strategy/Graph.antt =====
-- `assertAcyclic` and `validateGraph` of packages/domain-strategy/src/index.ts.
pub mod Valid
pub mod Defaults
use strat_align.Prelude.{
  ℕ, Bool, true, false, Option, none, some, List, [], ◌∷◌, ◌==◌, ◌&&◌, ◌||◌, map, length, keep,
  if◌then◌else◌,
}
use strat_align.Strategy.Types.{
  Node, Edge, RelationshipRule, Error, Result, ok, err, ◌>>=◌, ◌>>◌, same_type, same_edge,
}
use strat_align.Strategy.Rules.{validate_edge, assert_relationship_cardinality}
use strat_align.Strategy.Cycle.{DirectedEdge, has_directed_cycle}

abbrev acyclic_result : Option Bool → Result (Unit {0})
acyclic_result none = err Error.out_of_fuel
acyclic_result (some true) = err Error.cycle
acyclic_result (some false) = ok tt

unfoldable pub assert_acyclic : List DirectedEdge → Result (Unit {0})
assert_acyclic edges = acyclic_result (has_directed_cycle edges)

-- `nodeById.get`: the map is built in the order of the nodes, so the last of one id is found.
unfoldable pub node_by_id : List Node → ℕ → Option Node
node_by_id [] id = none
node_by_id (n ∷ ns) id = elim (node_by_id ns id) [
  | some later ↦ some later
  | none ↦ if n.id == id then some n else none
]

-- The body of the loop over the edges.
unfoldable pub validate_ends :
    List RelationshipRule → Edge → Option Node → Option Node → Result (Unit {0})
validate_ends rules e none to = err Error.cross_plan_version
validate_ends rules e (some from) none = err Error.cross_plan_version
validate_ends rules e (some from) (some to) =
    if from.plan_version_id == e.plan_version_id && to.plan_version_id == e.plan_version_id
    then (validate_edge from to e.edge_type rules >>= λ _. ok tt)
    else err Error.cross_plan_version

unfoldable pub validate_edges : List Node → List RelationshipRule → List Edge → Result (Unit {0})
validate_edges nodes rules [] = ok tt
validate_edges nodes rules (e ∷ es) =
    validate_ends rules e (node_by_id nodes e.from_node_id) (node_by_id nodes e.to_node_id)
    >> validate_edges nodes rules es

-- `nodeById.get(current.toNodeId)?.type === currentRule.toType`
abbrev pub has_type : Option Node → RelationshipRule → Bool
has_type none r = false
has_type (some n) r = same_type n.type r.to_type

-- The test of the inner `filter`, and the count.
abbrev pub counts_for : List Node → Node → RelationshipRule → Edge → Bool
counts_for nodes n r e =
    e.from_node_id == n.id
    && same_edge e.edge_type r.edge_type
    && has_type (node_by_id nodes e.to_node_id) r

unfoldable pub edge_count : List Node → List Edge → Node → RelationshipRule → ℕ
edge_count nodes edges n r = length (keep (counts_for nodes n r) edges)

-- The loop over the rules whose `fromType` is the node's type.
unfoldable pub validate_rules :
    List Node → List Edge → Node → List RelationshipRule → Result (Unit {0})
validate_rules nodes edges n [] = ok tt
validate_rules nodes edges n (r ∷ rs) =
    let rest = validate_rules nodes edges n rs in
    if same_type r.from_type n.type
    then (assert_relationship_cardinality r (edge_count nodes edges n r) >> rest)
    else rest

unfoldable pub validate_nodes :
    List Node → List Edge → List RelationshipRule → List Node → Result (Unit {0})
validate_nodes nodes edges rules [] = ok tt
validate_nodes nodes edges rules (n ∷ ns) =
    validate_rules nodes edges n rules >> validate_nodes nodes edges rules ns

abbrev pub directed : Edge → DirectedEdge
directed e = record { from_node_id = e.from_node_id; to_node_id = e.to_node_id }

unfoldable pub validate_graph : List Node → List Edge → List RelationshipRule → Result (Unit {0})
validate_graph nodes edges rules =
    validate_edges nodes rules edges
    >> assert_acyclic (map directed edges)
    >> validate_nodes nodes edges rules nodes
