-- ===== src/Strategy/Graph/Defaults.antt =====
-- Under the default relationship rules every edge leads to a later level of the hierarchy.
use strat_align.Prelude.{
  ℕ, ◌<◌, Option, none, some, List, [], ◌∷◌, ◌≡◌, refl, ap, inl, inr, arith, In, map,
}
use strat_align.Strategy.Types.{
  NodeType, corporate_strategy, theme, objective, strategic_play, portfolio, area_of_focus,
  RelationshipRule, Node, Edge, ok,
}
use strat_align.Strategy.Rules.{default_relationship_rules}
use strat_align.Strategy.Cycle.{DirectedEdge}
use strat_align.Strategy.Cycle.Sets.{edge}
use strat_align.Strategy.Cycle.Walks.{Walk, one, more, HasCycle}
use strat_align.Strategy.Graph.{node_by_id, validate_edges, assert_acyclic, directed}
use strat_align.Strategy.Graph.Valid.{IsValidEdge, validate_edges_iff, assert_acyclic_iff}

abbrev level : NodeType → ℕ
level corporate_strategy = 0
level theme = 1
level objective = 2
level strategic_play = 3
level portfolio = 4
level area_of_focus = 4

abbrev level_of : Option Node → ℕ
level_of none = 0
level_of (some n) = level n.type

default_rule_descends :
    (r : RelationshipRule) → In r default_relationship_rules → level r.from_type < level r.to_type
default_rule_descends r h = ground arith

In-map-directed :
    (edges : List Edge) (d : DirectedEdge)
    → In d (map directed edges)
    → (e : Edge) × In e edges × (d ≡ directed e)
In-map-directed [] d h = absurd h
In-map-directed (e ∷ es) d h = elim h [
  | inl same ↦ (e, inl refl, same)
  | inr later ↦ let (e', i, p) = In-map-directed es d later in (e', inr i, p)
]

module _ (nodes : List Node) (edges : List Edge)
    (valid : (e : Edge) → In e edges → IsValidEdge nodes default_relationship_rules e) where
  edge_descends :
      (u v : ℕ)
      → In (edge u v) (map directed edges)
      → level_of (node_by_id nodes u) < level_of (node_by_id nodes v)
  edge_descends u v h =
      let (e, i, p) = In-map-directed edges (edge u v) h in
      let w : IsValidEdge nodes default_relationship_rules e = valid e i in
      let from : u ≡ e.from_node_id = ap (λ (d : DirectedEdge). d.from_node_id) p in
      let to : v ≡ e.to_node_id = ap (λ (d : DirectedEdge). d.to_node_id) p in
      rw (from, to, w.from_found, w.to_found)
        (rw (← w.allows.0, ← w.allows.1) (default_rule_descends w.rule w.listed))

  Walk-descends :
      {u v : ℕ}
      → Walk (map directed edges) u v
      → level_of (node_by_id nodes u) < level_of (node_by_id nodes v)
  Walk-descends (one {u} {v} h) = edge_descends u v h
  Walk-descends (more {u} {v} h w) = omega (arith, edge_descends u v h, Walk-descends w)

  valid_acyclic : ¬ HasCycle (map directed edges)
  valid_acyclic (u, w) = absurd (omega (arith, Walk-descends w))

-- Edges that pass the checks under the default relationship rules never form a cycle: the check for
-- a cycle that follows them in `validateGraph` returns.
pub default_rules_acyclic :
    (nodes : List Node) (edges : List Edge)
    → validate_edges nodes default_relationship_rules edges ≡ ok tt
    → assert_acyclic (map directed edges) ≡ ok tt
default_rules_acyclic nodes edges h =
    (assert_acyclic_iff (map directed edges)).1
      (valid_acyclic nodes edges ((validate_edges_iff nodes default_relationship_rules edges).0 h))
