-- ===== src/Strategy/Cycle/Sets.antt =====
-- The sets of the search as lists: what `has`, `add` and `delete` do, and the nodes and targets
-- that are collected from the edges.
use strat_align.Prelude.{ℕ, true, false, List, [], ◌∷◌, ◌≡◌, refl, ap, inl, inr, arith, In}
use strat_align.Strategy.Cycle.{DirectedEdge, has, add, delete, collect_nodes, targets}

pub In-of_has : (xs : List ℕ) (a : ℕ) → has xs a ≡ true → In a xs
In-of_has [] a h = cc
In-of_has (x ∷ xs) a h = ground (arith, In-of_has xs a)

pub has-of_In : (xs : List ℕ) (a : ℕ) → In a xs → has xs a ≡ true
has-of_In [] a h = absurd h
has-of_In (x ∷ xs) a h = ground (arith, has-of_In xs a)

pub delete-absent : (xs : List ℕ) (a : ℕ) → has xs a ≡ false → delete xs a ≡ xs
delete-absent [] a h = refl
delete-absent (x ∷ xs) a h = ground (arith, delete-absent xs a)

pub delete-top : (xs : List ℕ) (a : ℕ) → has xs a ≡ false → delete (a ∷ xs) a ≡ xs
delete-top xs a h = ground (arith, delete-absent xs a h)

pub In-add_self : (xs : List ℕ) (a : ℕ) → In a (add xs a)
In-add_self xs a = ground (arith, In-of_has xs a)

pub In-add : (xs : List ℕ) (a x : ℕ) → In x xs → In x (add xs a)
In-add xs a x h = ground arith

abbrev pub edge : ℕ → ℕ → DirectedEdge
edge u v = record { from_node_id = u; to_node_id = v }

-- `targets` lists exactly the heads of the edges out of a node.
pub In-targets : (es : List DirectedEdge) (u v : ℕ) → In v (targets es u) → In (edge u v) es
unfolding targets
In-targets [] u v h = h
In-targets (e ∷ es) u v h = ground (arith, In-targets es u v)

pub targets-In : (es : List DirectedEdge) (u v : ℕ) → In (edge u v) es → In v (targets es u)
unfolding targets
targets-In [] u v h = h
targets-In (e ∷ es) u v h = ground (arith, targets-In es u v)

pub collect_nodes-keeps :
    (nodes : List ℕ) (es : List DirectedEdge) (a : ℕ) → In a nodes → In a (collect_nodes nodes es)
unfolding collect_nodes
collect_nodes-keeps nodes [] a h = h
collect_nodes-keeps nodes (e ∷ es) a h =
    collect_nodes-keeps (add (add nodes e.from_node_id) e.to_node_id) es a
      (In-add (add nodes e.from_node_id) e.to_node_id a (In-add nodes e.from_node_id a h))

-- Both ends of every edge are collected.
pub collect_nodes-ends :
    (nodes : List ℕ) (es : List DirectedEdge) (u v : ℕ)
    → In (edge u v) es
    → In u (collect_nodes nodes es) × In v (collect_nodes nodes es)
unfolding collect_nodes
collect_nodes-ends nodes [] u v h = absurd h
collect_nodes-ends nodes (e ∷ es) u v h =
    let from = add nodes e.from_node_id in
    let both = add from e.to_node_id in
    elim h [
      | inl same ↦ (
        collect_nodes-keeps both es u (
            In-add from e.to_node_id u (
              rw (ap (λ (d : DirectedEdge). d.from_node_id) same)
                (In-add_self nodes e.from_node_id))),
        collect_nodes-keeps both es v
            (rw (ap (λ (d : DirectedEdge). d.to_node_id) same) (In-add_self from e.to_node_id)),
      )
      | inr later ↦ collect_nodes-ends both es u v later
    ]
