-- ===== src/Registry/Hierarchy/Written.antt =====
-- When `setRollup` goes through, and what it writes.
use strat_align.Prelude.{
  ℕ, List, [], ◌∷◌, ◌≡◌, refl, sym, ◌↔◌, ◌⊎◌, inl, inr, In, ok, Bool-cases, eq_of_test, and_true,
  ◌==◌, true,
}
use mathlib.Core.Path.{subst}
use strat_align.Registry.Hierarchy.{
  KpiHierarchyNode, Tables, SetRollupInput, is_edge, upsert, set_rollup,
}
use strat_align.Registry.Hierarchy.Acyclic.{IsAllowed, set_rollup-upsert}
use strat_align.Registry.Hierarchy.Histories.{IsOnce, upsert-IsOnce}

abbrev pub HasPair : SetRollupInput → KpiHierarchyNode → Type 0
HasPair input h = (h.parent_kpi_id ≡ input.parent_kpi_id) × (h.child_kpi_id ≡ input.child_kpi_id)

-- A row with the parent, the child and the rule of the call.
abbrev pub IsRow : SetRollupInput → KpiHierarchyNode → Type 0
IsRow input h = HasPair input h × (h.rollup_method_rule_id ≡ input.rollup_method_rule_id)

-- What the write leaves: such a row, every row of other KPIs as it was, and no more.
pub record IsWritten (input : SetRollupInput) (nodes ns : List KpiHierarchyNode) : Type 0 where
  pub entered : (h : KpiHierarchyNode) × In h ns × IsRow input h
  pub known : (h : KpiHierarchyNode) → In h ns → IsRow input h ⊎ In h nodes
  pub kept : (h : KpiHierarchyNode) → In h nodes → (¬ HasPair input h) → In h ns

is_edge-HasPair :
    (input : SetRollupInput) (h : KpiHierarchyNode)
    → is_edge input.parent_kpi_id input.child_kpi_id h ≡ true
    → HasPair input h
is_edge-HasPair input h e =
    let (a, b) =
      and_true (h.parent_kpi_id == input.parent_kpi_id) (h.child_kpi_id == input.child_kpi_id) e in
    (
      eq_of_test h.parent_kpi_id input.parent_kpi_id a,
      eq_of_test h.child_kpi_id input.child_kpi_id b,
    )

upsert-IsWritten :
    (id : ℕ) (input : SetRollupInput) (nodes : List KpiHierarchyNode)
    → IsWritten input nodes (upsert id input nodes)
unfolding upsert
upsert-IsWritten id input [] = record {
  entered = (_, inl refl, ((refl, refl), refl));
  known = λ h i. elim i [
    | inl new ↦ inl (subst (λ k. IsRow input k) (sym new) ((refl, refl), refl))
    | inr none_left ↦ absurd none_left
  ];
  kept = λ h i d. absurd i;
}
upsert-IsWritten id input (g ∷ gs) =
    let rest = upsert-IsWritten id input gs in
    elim (Bool-cases (is_edge input.parent_kpi_id input.child_kpi_id g)) [
      | inl own ↦
          let pair = is_edge-HasPair input g own in
          rw own (record {
            entered = (_, inl refl, (pair, refl));
            known = λ h i. elim i [
              | inl new ↦ inl (subst (λ k. IsRow input k) (sym new) (pair, refl))
              | inr old ↦ inr (inr old)
            ];
            kept = λ h i d. elim i [
              | inl same ↦ absurd (d (subst (λ k. HasPair input k) (sym same) pair))
              | inr old ↦ inr old
            ];
          })
      | inr other ↦ rw other (record {
        entered = (rest.entered.0, inr rest.entered.1, rest.entered.2);
        known = λ h i. elim i [
          | inl same ↦ inr (inl same)
          | inr later ↦ elim (rest.known h later) [ inl new ↦ inl new | inr old ↦ inr (inr old) ]
        ];
        kept = λ h i d. elim i [ inl same ↦ inl same | inr old ↦ inr (rest.kept h old d) ];
      })
    ]

-- When no other call writes in between, `setRollup` goes through exactly when the two KPIs differ,
-- exist and are not retired, the rule is a published rollup rule, and no walk along the edges leads
-- from the child to the parent. The table then has a row of that parent, child and rule, also where
-- the two had a row with another rule, and every row of other KPIs as it was; each of its rows is
-- such a row or was there; and it has one row at most for two KPIs, if it had before.
pub set_rollup_iff :
    (tables : Tables) (id : ℕ) (input : SetRollupInput) (nodes : List KpiHierarchyNode)
    → (((ns : List KpiHierarchyNode) × (set_rollup tables id input nodes ≡ ok ns))
        ↔ IsAllowed tables input nodes)
      × ((ns : List KpiHierarchyNode)
          → set_rollup tables id input nodes ≡ ok ns
          → IsWritten input nodes ns × (IsOnce nodes → IsOnce ns))
set_rollup_iff tables id input nodes = (
  (
    λ (ns, h). ((set_rollup-upsert tables id input nodes ns).0 h).0,
    λ a. (
      upsert id input nodes,
      (set_rollup-upsert tables id input nodes (upsert id input nodes)).1 (a, refl),
    ),
  ),
  λ ns h.
      subst (λ k. IsWritten input nodes k × (IsOnce nodes → IsOnce k))
        ((set_rollup-upsert tables id input nodes ns).0 h).1
        (upsert-IsWritten id input nodes, upsert-IsOnce id input nodes),
)
