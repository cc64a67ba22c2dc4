-- ===== src/Strategy/Types.antt =====
-- The node, edge, rule and plan types of packages/domain-strategy/src/index.ts. Identifiers are
-- only compared for equality, so they are natural numbers; the fields that no operation of the
-- module reads (names, dates, the creator) are left out of the records.
pub use strat_align.Prelude.{ok, err, ◌>>=◌, ◌>>◌}
use strat_align.Prelude.{Outcome, ℕ, Option, Bool, true, ◌==◌, ◌≡◌, ◌↔◌, arith, test_refl}

pub data NodeType : Type 0 where
  corporate_strategy theme objective strategic_play portfolio area_of_focus : NodeType

pub data NodeState : Type 0 where
  draft active retired : NodeState

pub data EdgeType : Type 0 where
  contains executed_by belongs_to_portfolio aligns_to : EdgeType

pub data PlanState : Type 0 where
  draft active closed : PlanState

-- `Pick<StrategyNode, "id" | "type" | "planVersionId">`
pub record Node : Type 0 where
  pub id : ℕ
  pub type : NodeType
  pub plan_version_id : ℕ

-- `Pick<StrategyEdge, "fromNodeId" | "toNodeId" | "edgeType" | "planVersionId">`
pub record Edge : Type 0 where
  pub from_node_id : ℕ
  pub to_node_id : ℕ
  pub edge_type : EdgeType
  pub plan_version_id : ℕ

pub record RelationshipRule : Type 0 where
  pub from_type : NodeType
  pub to_type : NodeType
  pub edge_type : EdgeType
  pub min_count : ℕ
  pub max_count : Option ℕ

-- What the module throws, and `out_of_fuel` for a search that its fuel does not finish.
pub data Error : Type 0 where
  invalid_relationship : NodeType → NodeType → EdgeType → Error
  cross_plan_version : Error
  cycle : Error
  cardinality : RelationshipRule → ℕ → Error
  invalid_node_transition : NodeState → NodeState → Error
  invalid_plan_transition : PlanState → PlanState → Error
  out_of_fuel : Error

-- A call that throws, or returns.
abbrev pub Result {ℓ} : Type ℓ → Type ℓ
Result A = Outcome Error A

-- `===` on the members of the unions goes by their positions in the arrays that list them.
abbrev pub type_index : NodeType → ℕ
type_index corporate_strategy = 0
type_index theme = 1
type_index objective = 2
type_index strategic_play = 3
type_index portfolio = 4
type_index area_of_focus = 5

abbrev pub same_type : NodeType → NodeType → Bool
same_type a b = type_index a == type_index b

abbrev pub edge_index : EdgeType → ℕ
edge_index contains = 0
edge_index executed_by = 1
edge_index belongs_to_portfolio = 2
edge_index aligns_to = 3

abbrev pub same_edge : EdgeType → EdgeType → Bool
same_edge a b = edge_index a == edge_index b

index_injective : (a b : NodeType) → same_type a b ≡ true → a ≡ b
index_injective a b h = ground arith

pub same_type_iff : (a b : NodeType) → (same_type a b ≡ true) ↔ (a ≡ b)
same_type_iff a b = (index_injective a b, λ e. rw e (test_refl (type_index b)))

pub same_edge_iff : (a b : EdgeType) → (same_edge a b ≡ true) ↔ (a ≡ b)
same_edge_iff a b = ground arith
