-- ===== src/Registry/Hierarchy/Acyclic.antt =====
-- When `setRollup` goes through, and that the rows never close a cycle.
use strat_align.Prelude.{
  throw_if, ℕ, Bool, true, false, Option, none, some, List, [], ◌∷◌, ◌≡◌, ◌≢◌, refl, ap, ◌↔◌, ◌⊎◌,
  inl, inr, arith, ◌==◌, ◌||◌, ok, Bool-cases, eq_of_test, ne_of_test, then_ok,
}
use strat_align.Strategy.Cycle.{has}
use strat_align.Strategy.Cycle.Sets.{In-of_has, has-of_In}
use strat_align.Strategy.Cycle.Walks.{Walk}
use strat_align.Rules.Service.{rollup, published}
use strat_align.Registry.Hierarchy.{
  KpiStatus, draft, active, retired, RuleRow, KpiHierarchyNode, Tables, SetRollupInput, Error,
  statuses, assert_kpis_are_linkable, check_rule, add_status, check_statuses, assert_no_cycle,
  is_retired, upsert, check_rollup, set_rollup_between, set_rollup,
}
use strat_align.Registry.Hierarchy.Descendants.{links, descendants_iff}

-- A KPI that exists and is not retired.
abbrev pub IsLinkable : Option KpiStatus → Type 0
IsLinkable none = ⊥
IsLinkable (some retired) = ⊥
IsLinkable (some draft) = Unit
IsLinkable (some active) = Unit

-- A rule that exists, of type rollup and published.
abbrev pub IsPublishedRollup : Option RuleRow → Type 0
IsPublishedRollup none = ⊥
IsPublishedRollup (some r) = (r.rule_type ≡ rollup) × (r.status ≡ published)

-- What `setRollup` asks for.
pub record IsAllowed (tables : Tables) (input : SetRollupInput) (nodes : List KpiHierarchyNode)
    : Type 0 where
  pub distinct : input.parent_kpi_id ≢ input.child_kpi_id
  pub parent : IsLinkable (tables.kpis input.parent_kpi_id)
  pub child : IsLinkable (tables.kpis input.child_kpi_id)
  pub rule : IsPublishedRollup (tables.rules input.rollup_method_rule_id)
  pub no_way_back : ¬ Walk (links nodes) input.child_kpi_id input.parent_kpi_id

IsLinkable-cases : (o : Option KpiStatus) → IsLinkable o ⊎ ((o ≡ none) ⊎ (o ≡ some retired))
IsLinkable-cases none = inr (inl refl)
IsLinkable-cases (some draft) = inl tt
IsLinkable-cases (some active) = inl tt
IsLinkable-cases (some retired) = inr (inr refl)

last_status :
    (t : KpiStatus)
    → (throw_if (is_retired t || false) Error.retired_kpi ≡ ok tt)
      ↔ (Unit {0} × IsLinkable (some t))
last_status draft = (λ e. (tt, tt), λ a. refl)
last_status active = (λ e. (tt, tt), λ a. refl)
last_status retired = (λ e. cc, λ (a, b). absurd b)

check_statuses_iff :
    (o q : Option KpiStatus)
    → (check_statuses 2 (add_status o (add_status q [])) ≡ ok tt) ↔ (IsLinkable o × IsLinkable q)
check_statuses_iff none none = (λ e. cc, λ (a, b). absurd a)
check_statuses_iff none (some s) = (λ e. cc, λ (a, b). absurd a)
check_statuses_iff (some s) none = (λ e. cc, λ (a, b). absurd b)
check_statuses_iff (some retired) (some t) = (λ e. cc, λ (a, b). absurd a)
check_statuses_iff (some draft) (some t) = last_status t
check_statuses_iff (some active) (some t) = last_status t

IsLinkable-iff :
    (tables : Tables) (p c : ℕ)
    → (assert_kpis_are_linkable tables (p ∷ c ∷ []) ≡ ok tt)
      ↔ (IsLinkable (tables.kpis p) × IsLinkable (tables.kpis c))
unfolding assert_kpis_are_linkable statuses
IsLinkable-iff tables p c = check_statuses_iff (tables.kpis p) (tables.kpis c)

rule_iff : (o : Option RuleRow) → (check_rule o ≡ ok tt) ↔ IsPublishedRollup o
rule_iff none = (λ e. cc, λ a. absurd a)
rule_iff (some r) = ground arith

contradiction : {b : Bool} → b ≡ true → b ≡ false → ⊥
contradiction h k = cc

no_cycle_iff :
    (nodes : List KpiHierarchyNode) (p c : ℕ)
    → (assert_no_cycle nodes p c ≡ ok tt) ↔ (¬ Walk (links nodes) c p)
unfolding assert_no_cycle
no_cycle_iff nodes p c =
    let (rows, finished, reach) = descendants_iff nodes c in
    rw finished (elim (Bool-cases (has rows p)) [
      | inl found ↦
          rw found (λ e. cc, λ no_walk. absurd (no_walk ((reach p).0 (In-of_has rows p found))))
      | inr absent ↦
          rw absent
            (λ e w. contradiction (has-of_In rows p ((reach p).1 w)) absent, λ no_walk. refl)
    ])

distinct_iff : (a b : ℕ) (e : Error) → (throw_if (a == b) e ≡ ok tt) ↔ (a ≢ b)
distinct_iff a b e = elim (Bool-cases (a == b)) [
  | inl same ↦ rw same (λ h. cc, λ d. absurd (d (eq_of_test a b same)))
  | inr differ ↦ rw differ (λ h. ne_of_test a b differ, λ d. refl)
]

-- What the checks let through.
pub check_rollup_iff :
    (tables : Tables) (input : SetRollupInput) (nodes : List KpiHierarchyNode)
    → (check_rollup tables input nodes ≡ ok tt) ↔ IsAllowed tables input nodes
unfolding check_rollup
check_rollup_iff tables input nodes = (
  λ h.
      let (h2, cycle) = (then_ok _ _ tt).0 h in
      let (h3, rule) = (then_ok _ _ tt).0 h2 in
      let (self, link) = (then_ok _ _ tt).0 h3 in
      let (parent, child) = (IsLinkable-iff tables input.parent_kpi_id input.child_kpi_id).0 link in
      record {
        distinct = (distinct_iff input.parent_kpi_id input.child_kpi_id _).0 self;
        parent = parent;
        child = child;
        rule = (rule_iff (tables.rules input.rollup_method_rule_id)).0 rule;
        no_way_back = (no_cycle_iff nodes input.parent_kpi_id input.child_kpi_id).0 cycle;
      },
  λ a. (then_ok _ _ tt).1 (
    (then_ok _ _ tt).1 (
      (then_ok _ _ tt).1 (
        (distinct_iff input.parent_kpi_id input.child_kpi_id _).1 a.distinct,
        (IsLinkable-iff tables input.parent_kpi_id input.child_kpi_id).1 (a.parent, a.child),
      ),
      (rule_iff (tables.rules input.rollup_method_rule_id)).1 a.rule,
    ),
    (no_cycle_iff nodes input.parent_kpi_id input.child_kpi_id).1 a.no_way_back,
  ),
)

pub set_rollup-upsert :
    (tables : Tables) (id : ℕ) (input : SetRollupInput) (nodes ns : List KpiHierarchyNode)
    → (set_rollup tables id input nodes ≡ ok ns)
      ↔ (IsAllowed tables input nodes × (upsert id input nodes ≡ ns))
unfolding set_rollup set_rollup_between
set_rollup-upsert tables id input nodes ns = (
  λ h.
      let (checked, last) = (then_ok _ _ ns).0 h in
      ((check_rollup_iff tables input nodes).0 checked, cc last),
  λ (a, e). (then_ok _ _ ns).1 ((check_rollup_iff tables input nodes).1 a, ap ok e),
)
