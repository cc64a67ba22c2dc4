-- ===== src/Strategy/Cycle/Correct.antt =====
-- The search answers, and it answers whether the edges have a cycle.
use strat_align.Prelude.{
  ℕ, suc, Bool, true, false, Option, none, some, List, [], ◌≡◌, refl, ◌↔◌, arith, In, length,
}
use strat_align.Strategy.Cycle.{
  DirectedEdge, Search, collect_nodes, verdict, visit_each, visit, has_directed_cycle,
}
use strat_align.Strategy.Cycle.Sets.{collect_nodes-ends}
use strat_align.Strategy.Cycle.Walks.{Walk, one, more, HasCycle, topological_acyclic}
use strat_align.Strategy.Cycle.Visit.{Post, visit-Post, visit_each-Post}
use strat_align.Strategy.Cycle.Fuel.{Finishes, room-le-length, visit-Finishes, visit_each-Finishes}

abbrev idle : Search
idle = record { visiting = []; visited = [] }

start_collected : {es : List DirectedEdge} {u v : ℕ} → Walk es u v → In u (collect_nodes [] es)
start_collected {es} (one {u} {v} h) = (collect_nodes-ends [] es u v h).0
start_collected {es} (more {u} {v} h p) = (collect_nodes-ends [] es u v h).0

verdict_decides :
    (es : List DirectedEdge) (r : Option (Bool × Search))
    → Post es (collect_nodes [] es) idle r
    → Finishes idle r
    → (b : Bool) × (verdict r ≡ some b) × ((b ≡ true) ↔ HasCycle es)
verdict_decides es none p f = absurd f
verdict_decides es (some (true, s)) p f = (true, refl, (λ e. p, λ c. refl))
verdict_decides es (some (false, s)) p f = (
  false,
  refl,
  (
    λ e. cc,
    λ (u, w).
        absurd (topological_acyclic es s.visited u p.ordered (p.reached u (start_collected w)) w),
  ),
)

-- `hasDirectedCycle` returns on every list of edges, and returns true exactly when some walk of one
-- edge or more along them leads back to where it started.
pub has_directed_cycle_decides :
    (es : List DirectedEdge)
    → (b : Bool) × (has_directed_cycle es ≡ some b) × ((b ≡ true) ↔ HasCycle es)
unfolding has_directed_cycle
has_directed_cycle_decides es =
    let nodes = collect_nodes [] es in
    let fuel = suc (length nodes) in
    verdict_decides es (visit_each (visit es fuel) nodes idle)
      (visit_each-Post es (visit es fuel) (visit-Post es fuel) nodes idle tt (λ t h. tt))
      (visit_each-Finishes es nodes (λ u v h. (collect_nodes-ends [] es u v h).1) fuel
        (visit es fuel) (visit-Finishes es nodes (λ u v h. (collect_nodes-ends [] es u v h).1) fuel)
        nodes idle (λ t h. h) (omega (arith, room-le-length nodes [])))
