-- ===== src/Registry/Hierarchy/Histories.antt =====
-- The rows of the hierarchy after calls one after another: no cycle, and one row at most for two
-- KPIs.
use strat_align.Prelude.{
  ℕ, Bool, true, false, List, [], ◌∷◌, ◌≡◌, refl, sym, ap, ◌∙◌, ◌⊎◌, inl, inr, arith, In, not, keep,
  ok, Bool-cases, then_ok,
}
use mathlib.Core.Path.{subst}
use strat_align.Strategy.Cycle.{DirectedEdge}
use strat_align.Strategy.Cycle.Sets.{edge}
use strat_align.Strategy.Cycle.Walks.{Walk, one, more, HasCycle}
use strat_align.Registry.Hierarchy.{
  KpiHierarchyNode, Tables, SetRollupInput, Result, is_edge, upsert, set_rollup, remove_rollup,
}
use strat_align.Registry.Hierarchy.Descendants.{links}
use strat_align.Registry.Hierarchy.Acyclic.{set_rollup-upsert}

-- The rows after calls that went through one after another, whatever the other tables held at each;
-- a call that throws changes nothing.
pub data Reached : List KpiHierarchyNode → Type 0 where
  empty : Reached []
  sets :
      {ns ns' : List KpiHierarchyNode} (tables : Tables) (id : ℕ) (input : SetRollupInput)
      → Reached ns
      → set_rollup tables id input ns ≡ ok ns'
      → Reached ns'
  removes :
      {ns ns' : List KpiHierarchyNode} (parent child : ℕ)
      → Reached ns
      → remove_rollup parent child ns ≡ ok ns'
      → Reached ns'

-- No two rows have the same parent and child.
abbrev pub IsOnce : List KpiHierarchyNode → Type 0
IsOnce [] = Unit
IsOnce (h ∷ hs) = ¬ In (edge h.parent_kpi_id h.child_kpi_id) (links hs) × IsOnce hs

abbrev Sub : List DirectedEdge → List DirectedEdge → Type 0
Sub es fs = (u v : ℕ) → In (edge u v) es → In (edge u v) fs

Walk-Sub : {es fs : List DirectedEdge} {u v : ℕ} → Sub es fs → Walk es u v → Walk fs u v
Walk-Sub sub (one {u} {v} h) = one (sub u v h)
Walk-Sub sub (more {u} {v} h w) = more (sub u v h) (Walk-Sub sub w)

keep-Sub :
    (p : KpiHierarchyNode → Bool) (hs : List KpiHierarchyNode) → Sub (links (keep p hs)) (links hs)
keep-Sub p [] u v i = i
keep-Sub p (h ∷ hs) u v i = ground (arith, keep-Sub p hs u v)

keep-IsOnce :
    (p : KpiHierarchyNode → Bool) (hs : List KpiHierarchyNode) → IsOnce hs → IsOnce (keep p hs)
keep-IsOnce p [] o = o
keep-IsOnce p (h ∷ hs) o = elim (Bool-cases (p h)) [
  | inl kept ↦
      rw (kept, IsOnce)
        (λ i. o.0 (keep-Sub p hs h.parent_kpi_id h.child_kpi_id i), keep-IsOnce p hs o.1)
  | inr dropped ↦ rw (dropped, IsOnce) (keep-IsOnce p hs o.1)
]

abbrev Reach : List DirectedEdge → ℕ → ℕ → Type 0
Reach es u v = (u ≡ v) ⊎ Walk es u v

Walk-then : {es : List DirectedEdge} {u v w : ℕ} → Walk es u v → Walk es v w → Walk es u w
Walk-then (one h) w = more h w
Walk-then (more h v) w = more h (Walk-then v w)

Reach-then : {es : List DirectedEdge} {u v w : ℕ} → Reach es u v → Reach es v w → Reach es u w
Reach-then (inl a) (inl b) = inl (a ∙ b)
Reach-then (inl a) (inr w) = inr (rw a w)
Reach-then (inr w) (inl b) = inr (rw (← b) w)
Reach-then (inr v) (inr w) = inr (Walk-then v w)

module _ (es fs : List DirectedEdge) (p c : ℕ)
    (grown : (u v : ℕ) → In (edge u v) fs → In (edge u v) es ⊎ ((u ≡ p) × (c ≡ v))) where
  -- A walk along the grown edges avoids the new edge, or comes to its start and goes on from its
  -- end.
  Walk-split : {u w : ℕ} → Walk fs u w → Walk es u w ⊎ (Reach es u p × Reach es c w)
  Walk-split (one {u} {v} h) = elim (grown u v h) [
    | inl old ↦ inl (one old)
    | inr (a, b) ↦ inr (inl a, inl b)
  ]
  Walk-split (more {u} {v} h w) = elim (grown u v h) [
    | inl old ↦ elim (Walk-split w) [
      | inl rest ↦ inl (more old rest)
      | inr (a, b) ↦ inr (Reach-then (inr (one old)) a, b)
    ]
    | inr (a, b) ↦ elim (Walk-split w) [
      | inl rest ↦ inr (inl a, Reach-then (inl b) (inr rest))
      | inr (x, y) ↦ inr (inl a, y)
    ]
  ]

  pub grown_acyclic : ¬ HasCycle es → ¬ Reach es c p → ¬ HasCycle fs
  grown_acyclic acyclic apart (u, w) = elim (Walk-split w) [
    | inl old ↦ acyclic (u, old)
    | inr (a, b) ↦ apart (Reach-then b a)
  ]

upsert_found :
    (id : ℕ) (input : SetRollupInput) (h : KpiHierarchyNode) (hs : List KpiHierarchyNode)
    → is_edge input.parent_kpi_id input.child_kpi_id h ≡ true
    → links (upsert id input (h ∷ hs)) ≡ links (h ∷ hs)
unfolding upsert
upsert_found id input h hs found = rw found refl

upsert_other :
    (id : ℕ) (input : SetRollupInput) (h : KpiHierarchyNode) (hs : List KpiHierarchyNode)
    → is_edge input.parent_kpi_id input.child_kpi_id h ≡ false
    → upsert id input (h ∷ hs) ≡ h ∷ upsert id input hs
unfolding upsert
upsert_other id input h hs other = rw other refl

not_edge :
    (p c : ℕ) (h : KpiHierarchyNode)
    → is_edge p c h ≡ false
    → ¬ ((h.parent_kpi_id ≡ p) × (c ≡ h.child_kpi_id))
not_edge p c h e (a, b) = ground arith

upsert-grown :
    (id : ℕ) (input : SetRollupInput) (hs : List KpiHierarchyNode) (u v : ℕ)
    → In (edge u v) (links (upsert id input hs))
    → In (edge u v) (links hs) ⊎ ((u ≡ input.parent_kpi_id) × (input.child_kpi_id ≡ v))
unfolding upsert
upsert-grown id input [] u v i = elim i [
  | inl new ↦ inr (
    ap (λ (d : DirectedEdge). d.from_node_id) new,
    sym (ap (λ (d : DirectedEdge). d.to_node_id) new),
  )
  | inr nowhere ↦ absurd nowhere
]
upsert-grown id input (h ∷ hs) u v i =
    elim (Bool-cases (is_edge input.parent_kpi_id input.child_kpi_id h)) [
      | inl found ↦ inl (subst (λ es. In (edge u v) es) (upsert_found id input h hs found) i)
      | inr other ↦
          elim (subst (λ ns. In (edge u v) (links ns)) (upsert_other id input h hs other) i) [
            | inl here ↦ inl (inl here)
            | inr later ↦ elim (upsert-grown id input hs u v later) [
              | inl old ↦ inl (inr old)
              | inr new ↦ inr new
            ]
          ]
    ]

pub upsert-IsOnce :
    (id : ℕ) (input : SetRollupInput) (hs : List KpiHierarchyNode)
    → IsOnce hs
    → IsOnce (upsert id input hs)
unfolding upsert
upsert-IsOnce id input [] o = (λ i. i, tt)
upsert-IsOnce id input (h ∷ hs) o =
    elim (Bool-cases (is_edge input.parent_kpi_id input.child_kpi_id h)) [
      | inl found ↦ rw (found, IsOnce) o
      | inr other ↦
          rw (other, IsOnce)
            (
              λ i. elim (upsert-grown id input hs h.parent_kpi_id h.child_kpi_id i) [
                | inl old ↦ o.0 old
                | inr new ↦ not_edge input.parent_kpi_id input.child_kpi_id h other new
              ],
              upsert-IsOnce id input hs o.1,
            )
    ]

ok-cancel :
    {xs ys : List KpiHierarchyNode}
    → ◌≡◌ {A = Result (List KpiHierarchyNode)} (ok xs) (ok ys)
    → xs ≡ ys
ok-cancel h = cc

no-Walk : {u v : ℕ} → ¬ Walk [] u v
no-Walk (one h) = h
no-Walk (more h w) = h

removed :
    (parent child : ℕ) (ns ns' : List KpiHierarchyNode)
    → remove_rollup parent child ns ≡ ok ns'
    → keep (λ h. not (is_edge parent child h)) ns ≡ ns'
unfolding remove_rollup
removed parent child ns ns' h =
    ok-cancel ((then_ok _ (ok (keep (λ h. not (is_edge parent child h)) ns)) ns').0 h).1

-- Whatever calls of setRollup and removeRollup are made one after another, and whatever the tables
-- of KPIs and rules hold at each: no walk of one edge or more along the hierarchy leads back to
-- where it started, and there is at most one row for a parent and a child.
pub hierarchy_acyclic :
    {ns : List KpiHierarchyNode} → Reached ns → (¬ HasCycle (links ns)) × IsOnce ns
hierarchy_acyclic empty = (λ (u, w). no-Walk w, tt)
hierarchy_acyclic (sets {ns} tables id input r h) =
    let (allowed, written) = (set_rollup-upsert tables id input ns _).0 h in
    let (acyclic, once) = hierarchy_acyclic r in
    subst (λ k. (¬ HasCycle (links k)) × IsOnce k) written
      (
        grown_acyclic (links ns) (links (upsert id input ns)) input.parent_kpi_id input.child_kpi_id
            (upsert-grown id input ns) acyclic
            (λ back. elim back [
              | inl same ↦ allowed.distinct (sym same)
              | inr w ↦ allowed.no_way_back w
            ]),
        upsert-IsOnce id input ns once,
      )
hierarchy_acyclic (removes {ns} parent child r h) =
    let (acyclic, once) = hierarchy_acyclic r in
    let p = λ (h : KpiHierarchyNode). not (is_edge parent child h) in
    subst (λ k. (¬ HasCycle (links k)) × IsOnce k) (removed parent child ns _ h)
      (λ (u, w). acyclic (u, Walk-Sub (keep-Sub p ns) w), keep-IsOnce p ns once)
