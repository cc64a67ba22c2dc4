-- ===== src/Strategy/Cycle.antt =====
-- `hasDirectedCycle` of packages/domain-strategy/src/index.ts, the depth-first search. Both sets of
-- the closure are lists, the latest entry first; `visit` takes them and gives them back, and its
-- recursion takes fuel, `none` when that runs out.
pub mod Sets
pub mod Walks
pub mod Visit
pub mod Fuel
pub mod Correct
use strat_align.Prelude.{
  ℕ, zero, suc, Bool, true, false, Option, none, some, List, [], ◌∷◌, ◌==◌, ◌||◌, if◌then◌else◌,
  length,
}

-- `DirectedEdge`
pub record DirectedEdge : Type 0 where
  pub from_node_id : ℕ
  pub to_node_id : ℕ

-- `Set.has`
abbrev pub has : List ℕ → ℕ → Bool
has [] a = false
has (x ∷ xs) a = x == a || has xs a

-- `Set.add` keeps a member once.
abbrev pub add : List ℕ → ℕ → List ℕ
add xs a = if has xs a then xs else a ∷ xs

-- `Set.delete`
abbrev pub delete : List ℕ → ℕ → List ℕ
delete [] a = []
delete (x ∷ xs) a = let rest = delete xs a in if x == a then rest else x ∷ rest

-- `nodes` after the first loop, and `adjacency.get(node) ?? []`: the targets of the edges out of a
-- node in the order of the edges.
unfoldable pub collect_nodes : List ℕ → List DirectedEdge → List ℕ
collect_nodes nodes [] = nodes
collect_nodes nodes (e ∷ es) = collect_nodes (add (add nodes e.from_node_id) e.to_node_id) es

unfoldable pub targets : List DirectedEdge → ℕ → List ℕ
targets [] node = []
targets (e ∷ es) node =
    let rest = targets es node in if e.from_node_id == node then e.to_node_id ∷ rest else rest

-- The two sets that the closure mutates.
pub record Search : Type 0 where
  pub visiting : List ℕ
  pub visited : List ℕ

-- One round of a loop over calls of `visit`: the first `true` ends it.
abbrev pub then_each :
    (Search → Option (Bool × Search)) → Option (Bool × Search) → Option (Bool × Search)
then_each rest none = none
then_each rest (some (true, s)) = some (true, s)
then_each rest (some (false, s)) = rest s

-- The `for` loop over the targets, and `.some(visit)` over the nodes.
unfoldable pub visit_each :
    (ℕ → Search → Option (Bool × Search)) → List ℕ → Search → Option (Bool × Search)
visit_each visit [] s = some (false, s)
visit_each visit (t ∷ ts) s = then_each (visit_each visit ts) (visit t s)

-- What `visit` does after its loop over the targets.
abbrev pub leave : ℕ → Option (Bool × Search) → Option (Bool × Search)
leave current none = none
leave current (some (true, s)) = some (true, s)
leave current (some (false, s)) =
    some (false, record { visiting = delete s.visiting current; visited = add s.visited current })

unfoldable pub visit : List DirectedEdge → ℕ → ℕ → Search → Option (Bool × Search)
visit edges zero current s = none
visit edges (suc fuel) current s =
    let searched = leave current (
      visit_each (visit edges fuel) (targets edges current)
        (record s { visiting = add s.visiting current })) in
    if has s.visiting current
    then some (true, s)
    else if has s.visited current
    then some (false, s)
    else searched

abbrev pub verdict : Option (Bool × Search) → Option Bool
verdict none = none
verdict (some (found, s)) = some found

-- Every nested call of `visit` adds a node to `visiting`, so one more than their number is enough.
unfoldable pub has_directed_cycle : List DirectedEdge → Option Bool
has_directed_cycle edges =
    let nodes = collect_nodes [] edges in
    verdict
      (visit_each (visit edges (suc (length nodes))) nodes (record { visiting = []; visited = [] }))
