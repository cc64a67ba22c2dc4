-- ===== src/Strategy/Cycle/Walks.antt =====
-- The specification of the search: walks along the edges, and the two shapes of its lists. The
-- nodes being visited are a chain of edges; those visited are listed so that edges lead further
-- down.
use strat_align.Prelude.{ℕ, List, [], ◌∷◌, ◌≡◌, refl, ◌⊎◌, inl, inr, In}
use mathlib.Core.Path.{subst}
use strat_align.Strategy.Cycle.{DirectedEdge}
use strat_align.Strategy.Cycle.Sets.{edge}

-- A walk of one edge or more.
pub data Walk (es : List DirectedEdge) : ℕ → ℕ → Type 0 where
  one : {u v : ℕ} → In (edge u v) es → Walk es u v
  more : {u v w : ℕ} → In (edge u v) es → Walk es v w → Walk es u w

abbrev pub HasCycle : List DirectedEdge → Type 0
HasCycle es = (u : ℕ) × Walk es u u

pub Walk-snoc : {es : List DirectedEdge} {u v w : ℕ} → Walk es u v → In (edge v w) es → Walk es u w
Walk-snoc (one h) k = more h (one k)
Walk-snoc (more h p) k = more h (Walk-snoc p k)

first_step :
    {es : List DirectedEdge} {u w : ℕ}
    → Walk es u w
    → (v : ℕ) × In (edge u v) es × ((v ≡ w) ⊎ Walk es v w)
first_step (one {v} h) = (v, h, inl refl)
first_step (more {v} h p) = (v, h, inr p)

module _ (es : List DirectedEdge) where
  -- Each node has an edge to the one before it.
  abbrev pub IsChain : List ℕ → Type 0
  IsChain [] = Unit
  IsChain (x ∷ []) = Unit
  IsChain (x ∷ y ∷ r) = In (edge y x) es × IsChain (y ∷ r)

  -- Every edge out of a node leads to a node further down.
  abbrev pub IsTopological : List ℕ → Type 0
  IsTopological [] = Unit
  IsTopological (x ∷ xs) = ((t : ℕ) → In (edge x t) es → In t xs) × IsTopological xs

  -- A node that is met again below the top of the chain lies on a cycle.
  pub chain-Walk : (x : ℕ) (xs : List ℕ) (a : ℕ) → IsChain (x ∷ xs) → In a xs → Walk es a x
  chain-Walk x [] a c h = absurd h
  chain-Walk x (y ∷ r) a c h = elim h [
    | inl top ↦ rw top (one c.0)
    | inr below ↦ Walk-snoc (chain-Walk y r a c.1 below) c.0
  ]

  pub topological_closed :
      (xs : List ℕ) {a b : ℕ} → IsTopological xs → In a xs → Walk es a b → In b xs
  topological_closed [] t h w = absurd h
  topological_closed (x ∷ xs) t h w = inr (elim h [
    | inl top ↦
        let (v, e, further) = first_step w in
        let below = t.0 v (rw (← top) e) in
        elim further [
          | inl last ↦ subst (λ k. In k xs) last below
          | inr p ↦ topological_closed xs t.1 below p
        ]
    | inr down ↦ topological_closed xs t.1 down w
  ])

  pub topological_acyclic : (xs : List ℕ) (a : ℕ) → IsTopological xs → In a xs → ¬ Walk es a a
  topological_acyclic [] a t h w = h
  topological_acyclic (x ∷ xs) a t h w = elim h [
    | inl top ↦
        let (v, e, further) = first_step w in
        let below = t.0 v (rw (← top) e) in
        topological_acyclic xs a t.1
          (elim further [
            | inl last ↦ subst (λ k. In k xs) last below
            | inr p ↦ topological_closed xs t.1 below p
          ])
          w
    | inr down ↦ topological_acyclic xs a t.1 down w
  ]
