-- ===== src/Registry/Hierarchy/Tests.antt =====
-- Runs of the hierarchy, and the theorems at a concrete table.
use strat_align.Prelude.{
  ℕ, none, some, List, [], ◌∷◌, ◌≡◌, refl, ◌↔◌, inl, inr, ok, err, ◌==◌, if◌then◌else◌,
}
use strat_align.Strategy.Cycle.Walks.{HasCycle, one, more}
use strat_align.Rules.Service.{rollup, variance_alert, published}
use strat_align.Registry.Hierarchy.{
  active, retired, KpiHierarchyNode, Tables, SetRollupInput, Error, statuses,
  assert_kpis_are_linkable, children_of, new_rows, rounds, descendants, assert_no_cycle, upsert,
  check_rollup, set_rollup_between, set_rollup, list_children, remove_rollup,
}
use strat_align.Registry.Hierarchy.Descendants.{links}
use strat_align.Registry.Hierarchy.Acyclic.{IsAllowed}
use strat_align.Registry.Hierarchy.Written.{IsWritten, set_rollup_iff}
use strat_align.Registry.Hierarchy.Histories.{
  Reached, empty, sets, removes, IsOnce, hierarchy_acyclic,
}

hierarchy : Unit {0}
unfolding check_rollup set_rollup_between set_rollup assert_kpis_are_linkable statuses
    assert_no_cycle descendants rounds new_rows children_of upsert list_children remove_rollup
hierarchy = tt

-- KPI 9 is retired; rule 1 is a published rollup rule, rule 2 an alert.
abbrev tables : Tables
tables = record {
  kpis = λ k. if k == 9 then some retired else some active;
  rules = λ r.
      if r == 1
      then some (record { rule_type = rollup; status = published })
      else if r == 2
      then some (record { rule_type = variance_alert; status = published })
      else none;
}

abbrev input : ℕ → ℕ → SetRollupInput
input p c = record { parent_kpi_id = p; child_kpi_id = c; rollup_method_rule_id = 1 }

abbrev row : ℕ → ℕ → ℕ → KpiHierarchyNode
row id p c = record { id = id; parent_kpi_id = p; child_kpi_id = c; rollup_method_rule_id = 1 }

abbrev chain : List KpiHierarchyNode
chain = row 71 1 2 ∷ row 72 2 3 ∷ []

-- The row 72 is re-pointed from another rule.
abbrev other_rule : List KpiHierarchyNode
other_rule = row 71 1 2 ∷ record (row 72 2 3) { rollup_method_rule_id = 8 } ∷ []

runs :
    (set_rollup tables 73 (input 3 1) chain ≡ err Error.would_close_cycle)
    × (set_rollup tables 73 (input 3 9) chain ≡ err Error.retired_kpi)
    × (set_rollup tables 73 (record (input 1 4) { rollup_method_rule_id = 2 }) chain
        ≡ err Error.not_a_rollup)
    × (set_rollup tables 73 (input 1 2) chain ≡ ok chain)
    × (set_rollup tables 73 (input 2 3) other_rule ≡ ok chain)
    × (list_children 1 chain ≡ row 71 1 2 ∷ [])
    × (remove_rollup 2 4 chain ≡ err Error.edge_not_found)
unfolding hierarchy
runs = (refl, refl, refl, refl, refl, refl, refl)

set_rollup_iff_example :
    (((ns : List KpiHierarchyNode) × (set_rollup tables 73 (input 2 3) other_rule ≡ ok ns))
      ↔ IsAllowed tables (input 2 3) other_rule)
    × ((ns : List KpiHierarchyNode)
        → set_rollup tables 73 (input 2 3) other_rule ≡ ok ns
        → IsWritten (input 2 3) other_rule ns × (IsOnce other_rule → IsOnce ns))
set_rollup_iff_example = set_rollup_iff tables 73 (input 2 3) other_rule

chain-Reached : Reached chain
unfolding hierarchy
chain-Reached = sets tables 72 (input 2 3) (sets tables 71 (input 1 2) empty refl) refl

rest-Reached : Reached (row 72 2 3 ∷ [])
unfolding hierarchy
rest-Reached = removes 1 2 chain-Reached refl

hierarchy_acyclic_example : (¬ HasCycle (links (row 72 2 3 ∷ []))) × IsOnce (row 72 2 3 ∷ [])
hierarchy_acyclic_example = hierarchy_acyclic rest-Reached

-- Two calls whose checks both read the table before either writes: both go through, and their rows
-- together are a cycle.
race :
    (set_rollup_between tables 71 (input 1 2) [] [] ≡ ok (row 71 1 2 ∷ []))
    × (set_rollup_between tables 72 (input 2 1) [] (row 71 1 2 ∷ [])
        ≡ ok (row 71 1 2 ∷ row 72 2 1 ∷ []))
    × HasCycle (links (row 71 1 2 ∷ row 72 2 1 ∷ []))
unfolding hierarchy
race = (refl, refl, (1, more (inl refl) (one (inr (inl refl)))))
