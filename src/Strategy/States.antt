-- ===== src/Strategy/States.antt =====
-- The state transitions of nodes and of plan versions in packages/domain-strategy/src/index.ts.
use strat_align.Prelude.{
  ℕ, ◌+◌, ◌≤◌, Bool, true, ◌&&◌, ◌||◌, ◌==◌, ◌≡◌, ◌↔◌, ◌⊎◌, arith, if◌then◌else◌,
}
use strat_align.Strategy.Types.{NodeState, PlanState, Error, Result, ok, err}

abbrev pub node_rank : NodeState → ℕ
node_rank NodeState.draft = 0
node_rank NodeState.active = 1
node_rank NodeState.retired = 2

abbrev pub plan_rank : PlanState → ℕ
plan_rank PlanState.draft = 0
plan_rank PlanState.active = 1
plan_rank PlanState.closed = 2

-- `===` on states
abbrev same_node : NodeState → NodeState → Bool
same_node a b = node_rank a == node_rank b

abbrev same_plan : PlanState → PlanState → Bool
same_plan a b = plan_rank a == plan_rank b

pub can_transition_node_state : NodeState → NodeState → Bool
can_transition_node_state from to =
    if same_node from to
    then true
    else (same_node from NodeState.draft
        && (same_node to NodeState.active || same_node to NodeState.retired))
      || (same_node from NodeState.active && same_node to NodeState.retired)

pub assert_node_state_transition : NodeState → NodeState → Result (Unit {0})
assert_node_state_transition from to =
    if can_transition_node_state from to then ok tt else err (Error.invalid_node_transition from to)

pub can_transition_plan_version_state : PlanState → PlanState → Bool
can_transition_plan_version_state from to =
    if same_plan from to
    then true
    else (same_plan from PlanState.draft && same_plan to PlanState.active)
      || (same_plan from PlanState.active && same_plan to PlanState.closed)

pub assert_plan_version_state_transition : PlanState → PlanState → Result (Unit {0})
assert_plan_version_state_transition from to =
    if can_transition_plan_version_state from to
    then ok tt
    else err (Error.invalid_plan_transition from to)

-- A node state may change to another exactly when that one does not come before it in the order
-- draft, active, retired, steps being skipped at will; a plan version state may stay or move to the
-- very next one of draft, active, closed. The asserting functions return exactly then.
pub state_transitions :
    (a b : NodeState) (p q : PlanState)
    → ((assert_node_state_transition a b ≡ ok tt) ↔ (node_rank a ≤ node_rank b))
      × ((assert_plan_version_state_transition p q ≡ ok tt)
          ↔ ((plan_rank q ≡ plan_rank p) ⊎ (plan_rank q ≡ plan_rank p + 1)))
unfolding assert_node_state_transition can_transition_node_state
    assert_plan_version_state_transition can_transition_plan_version_state
state_transitions a b p q = ground arith
