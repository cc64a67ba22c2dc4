-- ===== src/Registry/Hierarchy.antt =====
-- The hierarchy of KPIs, apps/backend/src/modules/registry/kpi-hierarchy.service.ts: `setRollup`
-- and `removeRollup`. The recursive query of `assertNoCycle` is computed as the database does, in
-- rounds over the rows that the round before has added, with fuel.
pub mod Descendants
pub mod Acyclic
pub mod Histories
pub mod Written
mod Tests
use strat_align.Prelude.{
  ℕ, zero, suc, Bool, true, false, Option, none, some, List, [], ◌∷◌, ◌++◌, ◌==◌, ◌&&◌, not,
  if◌then◌else◌, length, any, keep, map, Outcome, ok, err, throw_if, ◌>>=◌, ◌>>◌,
}
use strat_align.Rules.Service.{RuleType, rollup, RuleStatus, published}
use strat_align.Strategy.Cycle.{has}

pub data KpiStatus : Type 0 where
  draft active retired : KpiStatus

-- What is selected of a row of `ruleDefinition`.
pub record RuleRow : Type 0 where
  pub rule_type : RuleType
  pub status : RuleStatus

-- A row of `kpiHierarchyNode`.
pub record KpiHierarchyNode : Type 0 where
  pub id : ℕ
  pub parent_kpi_id : ℕ
  pub child_kpi_id : ℕ
  pub rollup_method_rule_id : ℕ

-- The two tables that the service only reads.
pub record Tables : Type 0 where
  pub kpis : ℕ → Option KpiStatus
  pub rules : ℕ → Option RuleRow

pub record SetRollupInput : Type 0 where
  pub parent_kpi_id : ℕ
  pub child_kpi_id : ℕ
  pub rollup_method_rule_id : ℕ

pub data Error : Type 0 where
  self_reference unknown_kpi retired_kpi unknown_rule not_a_rollup not_published : Error
  would_close_cycle edge_not_found query_unfinished : Error

abbrev pub Result {ℓ} : Type ℓ → Type ℓ
Result A = Outcome Error A

abbrev pub add_status : Option KpiStatus → List KpiStatus → List KpiStatus
add_status none rest = rest
add_status (some s) rest = s ∷ rest

-- `findMany` with the statuses of the identifiers that exist; the two of `setRollup` differ.
unfoldable pub statuses : Tables → List ℕ → List KpiStatus
statuses tables [] = []
statuses tables (k ∷ ks) = add_status (tables.kpis k) (statuses tables ks)

abbrev pub is_retired : KpiStatus → Bool
is_retired retired = true
is_retired _ = false

abbrev pub check_statuses : ℕ → List KpiStatus → Result (Unit {0})
check_statuses wanted definitions =
    throw_if (not (length definitions == wanted)) unknown_kpi
    >> throw_if (any is_retired definitions) retired_kpi

unfoldable pub assert_kpis_are_linkable : Tables → List ℕ → Result (Unit {0})
assert_kpis_are_linkable tables kpi_ids = check_statuses (length kpi_ids) (statuses tables kpi_ids)

abbrev pub require_published : RuleStatus → Result (Unit {0})
require_published published = ok tt
require_published _ = err not_published

abbrev pub require_rollup : RuleType → RuleStatus → Result (Unit {0})
require_rollup rollup status = require_published status
require_rollup _ status = err not_a_rollup

abbrev pub check_rule : Option RuleRow → Result (Unit {0})
check_rule none = err unknown_rule
check_rule (some rule) = require_rollup rule.rule_type rule.status

abbrev pub assert_rule_is_published_rollup : Tables → ℕ → Result (Unit {0})
assert_rule_is_published_rollup tables rule_id = check_rule (tables.rules rule_id)

-- The rows whose parent is among some identifiers: the children, in the order of the table.
unfoldable pub children_of : List KpiHierarchyNode → List ℕ → List ℕ
children_of [] parents = []
children_of (h ∷ hs) parents =
    let rest = children_of hs parents in
    if has parents h.parent_kpi_id then h.child_kpi_id ∷ rest else rest

-- `UNION`: those that are not among the rows so far, once each.
unfoldable pub new_rows : List ℕ → List ℕ → List ℕ
new_rows found [] = []
new_rows found (x ∷ xs) =
    let skip = new_rows found xs in
    let add = x ∷ new_rows (x ∷ found) xs in if has found x then skip else add

abbrev pub next_round : List ℕ → List ℕ → Option (List ℕ) → Option (List ℕ)
next_round [] found rest = some found
next_round (x ∷ xs) found rest = rest

-- A round over the rows that the round before has added.
unfoldable pub rounds : List KpiHierarchyNode → ℕ → List ℕ → List ℕ → Option (List ℕ)
rounds nodes zero work found = none
rounds nodes (suc fuel) work found =
    let added = new_rows found (children_of nodes work) in
    next_round added found (rounds nodes fuel added (added ++ found))

-- The rows of `descendants`. Each round but the last adds a child of an edge, so the number of
-- edges bounds the rounds.
unfoldable pub descendants : List KpiHierarchyNode → ℕ → Option (List ℕ)
descendants nodes child_kpi_id =
    let start = new_rows [] (children_of nodes (child_kpi_id ∷ [])) in
    rounds nodes (suc (length nodes)) start start

abbrev pub reject_cycle : ℕ → Option (List ℕ) → Result (Unit {0})
reject_cycle parent_kpi_id none = err query_unfinished
reject_cycle parent_kpi_id (some rows) = throw_if (has rows parent_kpi_id) would_close_cycle

unfoldable pub assert_no_cycle : List KpiHierarchyNode → ℕ → ℕ → Result (Unit {0})
assert_no_cycle nodes parent_kpi_id child_kpi_id =
    reject_cycle parent_kpi_id (descendants nodes child_kpi_id)

abbrev pub is_edge : ℕ → ℕ → KpiHierarchyNode → Bool
is_edge parent child h = h.parent_kpi_id == parent && h.child_kpi_id == child

-- `upsert` by parent and child: a new row has the identifier that the database gives.
unfoldable pub upsert : ℕ → SetRollupInput → List KpiHierarchyNode → List KpiHierarchyNode
upsert id input [] =
    record {
      id = id;
      parent_kpi_id = input.parent_kpi_id;
      child_kpi_id = input.child_kpi_id;
      rollup_method_rule_id = input.rollup_method_rule_id;
    }
    ∷ []
upsert id input (h ∷ hs) =
    let rest = upsert id input hs in
    if is_edge input.parent_kpi_id input.child_kpi_id h
    then record h { rollup_method_rule_id = input.rollup_method_rule_id } ∷ hs
    else h ∷ rest

-- What `setRollup` checks, on the table that the query of `assertNoCycle` reads.
unfoldable pub check_rollup : Tables → SetRollupInput → List KpiHierarchyNode → Result (Unit {0})
check_rollup tables input nodes =
    throw_if (input.parent_kpi_id == input.child_kpi_id) self_reference
    >> assert_kpis_are_linkable tables (input.parent_kpi_id ∷ input.child_kpi_id ∷ [])
    >> assert_rule_is_published_rollup tables input.rollup_method_rule_id
    >> assert_no_cycle nodes input.parent_kpi_id input.child_kpi_id

-- `setRollup`, whose checks and whose write are statements of their own without a lock: the table
-- that the query reads, that which the write finds, and the latter after the write.
unfoldable pub set_rollup_between :
    Tables
    → ℕ
    → SetRollupInput
    → List KpiHierarchyNode
    → List KpiHierarchyNode
    → Result (List KpiHierarchyNode)
set_rollup_between tables id input read nodes =
    check_rollup tables input read >> ok (upsert id input nodes)

-- `setRollup` when no other call writes between its checks and its write.
unfoldable pub set_rollup :
    Tables → ℕ → SetRollupInput → List KpiHierarchyNode → Result (List KpiHierarchyNode)
set_rollup tables id input nodes = set_rollup_between tables id input nodes nodes

unfoldable pub list_children : ℕ → List KpiHierarchyNode → List KpiHierarchyNode
list_children parent nodes = keep (λ h. h.parent_kpi_id == parent) nodes

-- `deleteMany`, and the error when it deletes nothing.
unfoldable pub remove_rollup : ℕ → ℕ → List KpiHierarchyNode → Result (List KpiHierarchyNode)
remove_rollup parent child nodes =
    throw_if (not (any (is_edge parent child) nodes)) edge_not_found
    >> ok (keep (λ h. not (is_edge parent child h)) nodes)
