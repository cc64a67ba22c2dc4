-- ===== src/Strategy/Graph/Valid.antt =====
-- What a graph that `validateGraph` accepts is, and that the function accepts exactly those.
use strat_align.Prelude.{
  Bool, true, false, Option, none, some, List, [], ◌∷◌, ◌≡◌, ◌↔◌, inl, inr, refl, sym, ◌∙◌, arith,
  In, map, ap, Bool-cases,
}
use strat_align.Strategy.Types.{
  RelationshipRule, Node, Edge, Result, ok, err, ◌>>=◌, ◌>>◌, same_type_iff, same_type,
}
use strat_align.Strategy.Rules.{validate_edge}
use strat_align.Strategy.Rules.Lookup.{
  Allows, Within, validate_edge-returns, validate_edge-succeeds, cardinality_iff,
}
use strat_align.Strategy.Cycle.{DirectedEdge}
use strat_align.Strategy.Cycle.Walks.{HasCycle}
use strat_align.Strategy.Cycle.Correct.{has_directed_cycle_decides}
use strat_align.Strategy.Graph.{
  acyclic_result, assert_acyclic, node_by_id, validate_ends, validate_edges, edge_count,
  validate_rules, validate_nodes, directed, validate_graph,
}

-- An edge whose ends are nodes of its own plan version that some rule lets it join.
pub record IsValidEdge (nodes : List Node) (rules : List RelationshipRule) (e : Edge) : Type 0 where
  pub from : Node
  pub to : Node
  pub rule : RelationshipRule
  pub from_found : node_by_id nodes e.from_node_id ≡ some from
  pub to_found : node_by_id nodes e.to_node_id ≡ some to
  pub from_version : from.plan_version_id ≡ e.plan_version_id
  pub to_version : to.plan_version_id ≡ e.plan_version_id
  pub listed : In rule rules
  pub allows : Allows from.type to.type e.edge_type rule

pub record IsValidGraph (nodes : List Node) (edges : List Edge) (rules : List RelationshipRule)
    : Type 0 where
  pub edges_valid : (e : Edge) → In e edges → IsValidEdge nodes rules e
  pub acyclic : ¬ HasCycle (map directed edges)
  pub counts_within :
      (n : Node) (r : RelationshipRule)
      → In n nodes
      → In r rules
      → r.from_type ≡ n.type
      → Within r (edge_count nodes edges n r)

pub >>-ok : (m k : Result (Unit {0})) → (m >> k) ≡ ok tt → (m ≡ ok tt) × (k ≡ ok tt)
>>-ok (ok tt) k h = (refl, h)
>>-ok (err e) k h = cc

pub assert_acyclic_iff : (es : List DirectedEdge) → (assert_acyclic es ≡ ok tt) ↔ ¬ HasCycle es
unfolding assert_acyclic
assert_acyclic_iff es = let (b, e, iff) = has_directed_cycle_decides es in rw e (by_answer b iff)
  where
    by_answer :
        (b : Bool) → ((b ≡ true) ↔ HasCycle es) → (acyclic_result (some b) ≡ ok tt) ↔ ¬ HasCycle es
    by_answer true iff = (λ h. cc, λ n. absurd (n (iff.0 refl)))
    by_answer false iff = (λ h c. cc (iff.1 c), λ n. refl)

ignored-ok :
    {A : Type 0} (m : Result A)
    → ◌≡◌ {A = Result (Unit {0})} (m >>= λ _. ok tt) (ok tt)
    → (a : A) × (m ≡ ok a)
ignored-ok (ok a) h = (a, refl)
ignored-ok (err e) h = cc

module _ (nodes : List Node) (rules : List RelationshipRule) where
  validate_ends-IsValidEdge :
      (e : Edge) (from to : Option Node)
      → node_by_id nodes e.from_node_id ≡ from
      → node_by_id nodes e.to_node_id ≡ to
      → validate_ends rules e from to ≡ ok tt
      → IsValidEdge nodes rules e
  unfolding validate_ends
  validate_ends-IsValidEdge e none to p q h = cc
  validate_ends-IsValidEdge e (some from) none p q h = cc
  validate_ends-IsValidEdge e (some from) (some to) p q h =
      let (r, found) = ignored-ok (validate_edge from to e.edge_type rules) (ground arith) in
      let (same, listed, allows) = validate_edge-returns from to e.edge_type rules r found in
      record {
        from = from;
        to = to;
        rule = r;
        from_found = p;
        to_found = q;
        from_version = ground arith;
        to_version = ground arith;
        listed = listed;
        allows = allows;
      }

  IsValidEdge-validate_ends :
      (e : Edge)
      → IsValidEdge nodes rules e
      → validate_ends rules e (node_by_id nodes e.from_node_id) (node_by_id nodes e.to_node_id)
        ≡ ok tt
  unfolding validate_ends
  IsValidEdge-validate_ends e v =
      let (r, found) =
        validate_edge-succeeds v.from v.to e.edge_type rules v.rule
          (v.from_version ∙ sym v.to_version) v.listed v.allows in
      rw (v.from_found, v.to_found) (ground arith)

  pub validate_edges_iff :
      (es : List Edge)
      → (validate_edges nodes rules es ≡ ok tt) ↔ ((e : Edge) → In e es → IsValidEdge nodes rules e)
  unfolding validate_edges
  validate_edges_iff [] = (λ h e i. absurd i, λ v. refl)
  validate_edges_iff (e ∷ es) = (
    λ h d i.
        let (first, rest) = >>-ok _ _ h in
        elim i [
          | inl same ↦ rw same (validate_ends-IsValidEdge e _ _ refl refl first)
          | inr later ↦ (validate_edges_iff es).0 rest d later
        ],
    λ v.
        rw (IsValidEdge-validate_ends e (v e (inl refl)))
          ((validate_edges_iff es).1 (λ d i. v d (inr i))),
  )

module _ (nodes : List Node) (edges : List Edge) where
  abbrev CountsWithin : Node → List RelationshipRule → Type 0
  CountsWithin n rules =
      (r : RelationshipRule)
      → In r rules
      → r.from_type ≡ n.type
      → Within r (edge_count nodes edges n r)

  validate_rules_iff :
      (n : Node) (rules : List RelationshipRule)
      → (validate_rules nodes edges n rules ≡ ok tt) ↔ CountsWithin n rules
  unfolding validate_rules
  validate_rules_iff n [] = (λ h r i. absurd i, λ v. refl)
  validate_rules_iff n (r ∷ rs) = elim (Bool-cases (same_type r.from_type n.type)) [
    | inl its ↦ rw its (
      λ h d i t.
          let (first, rest) = >>-ok _ _ h in
          elim i [
            | inl same ↦ rw same ((cardinality_iff r (edge_count nodes edges n r)).0 first)
            | inr later ↦ (validate_rules_iff n rs).0 rest d later t
          ],
      λ v.
          rw
            ((cardinality_iff r (edge_count nodes edges n r)).1
              (v r (inl refl) ((same_type_iff r.from_type n.type).0 its)))
            ((validate_rules_iff n rs).1 (λ d i t. v d (inr i) t)),
    )
    | inr other ↦ rw other (
      λ h d i t. elim i [
        | inl same ↦
            let e : r.from_type ≡ n.type =
              ap (λ (a : RelationshipRule). a.from_type) (sym same) ∙ t in
            cc ((same_type_iff r.from_type n.type).1 e)
        | inr later ↦ (validate_rules_iff n rs).0 h d later t
      ],
      λ v. (validate_rules_iff n rs).1 (λ d i t. v d (inr i) t),
    )
  ]

  validate_nodes_iff :
      (rules : List RelationshipRule) (ns : List Node)
      → (validate_nodes nodes edges rules ns ≡ ok tt)
        ↔ ((n : Node) → In n ns → CountsWithin n rules)
  unfolding validate_nodes
  validate_nodes_iff rules [] = (λ h n i. absurd i, λ v. refl)
  validate_nodes_iff rules (n ∷ ns) = (
    λ h d i.
        let (first, rest) = >>-ok _ _ h in
        elim i [
          | inl same ↦ rw same ((validate_rules_iff n rules).0 first)
          | inr later ↦ (validate_nodes_iff rules ns).0 rest d later
        ],
    λ v.
        rw ((validate_rules_iff n rules).1 (v n (inl refl)))
          ((validate_nodes_iff rules ns).1 (λ d i. v d (inr i))),
  )

-- `validateGraph` returns exactly for the graphs in which every edge joins two nodes of its own
-- plan version that a rule lets it join, no walk along the edges comes back to its start, and every
-- node has, for every rule on its type, a number of matching edges within that rule's bounds.
pub validate_graph_iff :
    (nodes : List Node) (edges : List Edge) (rules : List RelationshipRule)
    → (validate_graph nodes edges rules ≡ ok tt) ↔ IsValidGraph nodes edges rules
unfolding validate_graph
validate_graph_iff nodes edges rules = (
  λ h.
      let (both, third) =
        >>-ok (validate_edges nodes rules edges >> assert_acyclic (map directed edges))
          (validate_nodes nodes edges rules nodes) h in
      let (first, second) =
        >>-ok (validate_edges nodes rules edges) (assert_acyclic (map directed edges)) both in
      record {
        edges_valid = (validate_edges_iff nodes rules edges).0 first;
        acyclic = (assert_acyclic_iff (map directed edges)).0 second;
        counts_within = λ n r i. (validate_nodes_iff nodes edges rules nodes).0 third n i r;
      },
  λ v.
      rw
        (
          (validate_edges_iff nodes rules edges).1 v.edges_valid,
          (assert_acyclic_iff (map directed edges)).1 v.acyclic,
        )
        ((validate_nodes_iff nodes edges rules nodes).1 (λ n i r. v.counts_within n r i)),
)
