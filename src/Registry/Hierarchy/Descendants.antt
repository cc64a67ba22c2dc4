-- ===== src/Registry/Hierarchy/Descendants.antt =====
-- The recursive query finishes, and its rows are the identifiers that walks along the edges reach.
use strat_align.Prelude.{
  ℕ, zero, suc, ◌≤◌, ◌<◌, true, false, Option, some, List, [], ◌∷◌, ◌++◌, ◌≡◌, refl, sym, ap, ◌↔◌,
  ◌∙◌, ◌⊎◌, inl, inr, arith, In, map, length, Bool-cases,
}
use mathlib.Core.Path.{subst}
use strat_align.Strategy.Cycle.{DirectedEdge, has}
use strat_align.Strategy.Cycle.Sets.{edge, In-of_has, has-of_In}
use strat_align.Strategy.Cycle.Walks.{Walk, one, more, Walk-snoc}
use strat_align.Strategy.Cycle.Fuel.{room, room-le-length}
use strat_align.Registry.Hierarchy.{
  KpiHierarchyNode, children_of, new_rows, next_round, rounds, descendants,
}

-- The edges of the rows.
abbrev pub links : List KpiHierarchyNode → List DirectedEdge
links hs = map (λ h. edge h.parent_kpi_id h.child_kpi_id) hs

abbrev children : List KpiHierarchyNode → List ℕ
children hs = map (λ h. h.child_kpi_id) hs

In-append : (xs ys : List ℕ) (a : ℕ) → In a (xs ++ ys) ↔ (In a xs ⊎ In a ys)
In-append [] ys a = (λ h. inr h, λ h. elim h [ inl e ↦ absurd e | inr k ↦ k ])
In-append (x ∷ xs) ys a = ground (arith, In-append xs ys a)

child_cases :
    (n : KpiHierarchyNode) (hs : List KpiHierarchyNode) (ps : List ℕ) (v : ℕ)
    → has ps n.parent_kpi_id ≡ true
    → In v (children_of (n ∷ hs) ps)
    → (v ≡ n.child_kpi_id) ⊎ In v (children_of hs ps)
unfolding children_of
child_cases n hs ps v found h = ground arith

skipped :
    (n : KpiHierarchyNode) (hs : List KpiHierarchyNode) (ps : List ℕ) (v : ℕ)
    → has ps n.parent_kpi_id ≡ false
    → In v (children_of (n ∷ hs) ps)
    → In v (children_of hs ps)
unfolding children_of
skipped n hs ps v other h = ground arith

children_of-In :
    (hs : List KpiHierarchyNode) (ps : List ℕ) (v : ℕ)
    → In v (children_of hs ps)
    → (u : ℕ) × In u ps × In (edge u v) (links hs)
unfolding children_of
children_of-In [] ps v h = absurd h
children_of-In (n ∷ hs) ps v h = elim (Bool-cases (has ps n.parent_kpi_id)) [
  | inl found ↦ elim (child_cases n hs ps v found h) [
    | inl same ↦ (n.parent_kpi_id, In-of_has ps n.parent_kpi_id found, inl (rw same refl))
    | inr rest ↦ let (u, i, e) = children_of-In hs ps v rest in (u, i, inr e)
  ]
  | inr other ↦ let (u, i, e) = children_of-In hs ps v (skipped n hs ps v other h) in (u, i, inr e)
]

In-children_of :
    (hs : List KpiHierarchyNode) (ps : List ℕ) (u v : ℕ)
    → In u ps
    → In (edge u v) (links hs)
    → In v (children_of hs ps) × In v (children hs)
unfolding children_of
In-children_of [] ps u v i h = absurd h
In-children_of (n ∷ hs) ps u v i h = elim h [
  | inl same ↦
      let from = ap (λ (d : DirectedEdge). d.from_node_id) same in
      let to = ap (λ (d : DirectedEdge). d.to_node_id) same in
      (rw (to, ← from, has-of_In ps u i) (inl refl), inl to)
  | inr later ↦ let (a, b) = In-children_of hs ps u v i later in (ground arith, inr b)
]

new_rows-In :
    (found xs : List ℕ) (x : ℕ) → In x (new_rows found xs) → In x xs × (has found x ≡ false)
unfolding new_rows
new_rows-In found [] x h = absurd h
new_rows-In found (y ∷ xs) x h =
    ground (arith, new_rows-In found xs x, new_rows-In (y ∷ found) xs x)

In-new_rows : (found xs : List ℕ) (x : ℕ) → In x xs → In x found ⊎ In x (new_rows found xs)
unfolding new_rows
In-new_rows found [] x h = absurd h
In-new_rows found (y ∷ xs) x h =
    ground (arith, In-new_rows found xs x, In-new_rows (y ∷ found) xs x, In-of_has found y)

room-le : (pool xs ys : List ℕ) → ((a : ℕ) → In a xs → In a ys) → room pool ys ≤ room pool xs
unfolding room
room-le [] xs ys sub = omega arith
room-le (p ∷ pool) xs ys sub =
    ground (arith, room-le pool xs ys sub, In-of_has xs p, sub p, has-of_In ys p)

room-lt :
    (pool xs ys : List ℕ) (c : ℕ)
    → ((a : ℕ) → In a xs → In a ys)
    → In c pool
    → has xs c ≡ false
    → In c ys
    → room pool ys < room pool xs
unfolding room
room-lt [] xs ys c sub i absent present = absurd i
room-lt (p ∷ pool) xs ys c sub i absent present = ground (
  arith,
  room-le pool xs ys sub,
  In-of_has xs p,
  sub p,
  has-of_In ys p,
  has-of_In ys c,
  room-lt pool xs ys c sub,
)

List-cases : (xs : List ℕ) → (xs ≡ []) ⊎ ((y : ℕ) × (ys : List ℕ) × (xs ≡ y ∷ ys))
List-cases [] = inl refl
List-cases (y ∷ ys) = inr (y, ys, refl)

next_round-more :
    (added found : List ℕ) (rest : Option (List ℕ)) (y : ℕ) (ys : List ℕ)
    → added ≡ y ∷ ys
    → next_round added found rest ≡ rest
next_round-more added found rest y ys h = rw h refl

module _ (hs : List KpiHierarchyNode) (child : ℕ) where
  abbrev Below : List ℕ → Type 0
  Below xs = (x : ℕ) → In x xs → Walk (links hs) child x

  -- The children of those found are found, but for those of the last round.
  abbrev pub IsExpanded : List ℕ → List ℕ → Type 0
  IsExpanded work found = (u v : ℕ) → In u found → In (edge u v) (links hs) → In u work ⊎ In v found

  abbrev pub IsClosed : List ℕ → Type 0
  IsClosed found = (u v : ℕ) → In u found → In (edge u v) (links hs) → In v found

  abbrev added : List ℕ → List ℕ → List ℕ
  added work found = new_rows found (children_of hs work)

  record Good (found rows : List ℕ) : Type 0 where
    below : Below rows
    kept : (x : ℕ) → In x found → In x rows
    closed : IsClosed rows

  added-Below : (work found : List ℕ) → Below work → Below (added work found)
  added-Below work found below x h =
      let (i, absent) = new_rows-In found (children_of hs work) x h in
      let (u, j, e) = children_of-In hs work x i in Walk-snoc (below u j) e

  next_found :
      (work found : List ℕ)
      → IsExpanded work found
      → (u v : ℕ) → In u found
      → In (edge u v) (links hs)
      → In v found ⊎ In v (added work found)
  next_found work found expanded u v i e = elim (expanded u v i e) [
    | inl at_work ↦
        In-new_rows found (children_of hs work) v (In-children_of hs work u v at_work e).0
    | inr old ↦ inl old
  ]

  -- What a round leaves to the next.
  added-IsExpanded :
      (work found : List ℕ)
      → IsExpanded work found
      → IsExpanded (added work found) (added work found ++ found)
  added-IsExpanded work found expanded u v i e = elim ((In-append (added work found) found u).0 i) [
    | inl new ↦ inl new
    | inr old ↦ inr (
        (In-append (added work found) found v).1
          (elim (next_found work found expanded u v old e) [ inl a ↦ inr a | inr b ↦ inl b ]))
  ]

  last-IsClosed :
      (work found : List ℕ) → IsExpanded work found → added work found ≡ [] → IsClosed found
  last-IsClosed work found expanded none_added u v i e =
      elim (next_found work found expanded u v i e) [
        | inl old ↦ old
        | inr new ↦ absurd (subst (λ xs. In v xs) none_added new)
      ]

  added-room :
      (work found : List ℕ) (y : ℕ)
      → In y (added work found)
      → room (children hs) (added work found ++ found) < room (children hs) found
  added-room work found y h =
      let (i, absent) = new_rows-In found (children_of hs work) y h in
      let (u, j, e) = children_of-In hs work y i in
      room-lt (children hs) found (added work found ++ found) y
        (λ a k. (In-append (added work found) found a).1 (inr k)) (In-children_of hs work u y j e).1
        absent ((In-append (added work found) found y).1 (inl h))

  rounds-more :
      (fuel : ℕ) (work found : List ℕ) (y : ℕ) (ys : List ℕ)
      → added work found ≡ y ∷ ys
      → rounds hs (suc fuel) work found
        ≡ rounds hs fuel (added work found) (added work found ++ found)
  unfolding rounds
  rounds-more fuel work found y ys h = next_round-more _ found _ y ys h

  rounds-Good :
      (fuel : ℕ) (work found : List ℕ)
      → room (children hs) found < fuel
      → Below work
      → Below found
      → IsExpanded work found
      → (rows : List ℕ) × (rounds hs fuel work found ≡ some rows) × Good found rows
  unfolding rounds
  rounds-Good zero work found bound b1 b2 expanded = absurd (omega arith)
  rounds-Good (suc fuel) work found bound b1 b2 expanded = elim (List-cases (added work found)) [
    | inl none_added ↦ (
      found,
      rw (none_added, rounds) refl,
      record { below = b2; kept = λ x i. i; closed = last-IsClosed work found expanded none_added },
    )
    | inr (y, ys, some_added) ↦
        let new = added work found in
        let first_new = subst (λ xs. In y xs) (sym some_added) (inl refl) in
        let (rows, finished, good) =
          rounds-Good fuel new (new ++ found) (omega (arith, added-room work found y first_new))
            (added-Below work found b1)
            (λ x i. elim ((In-append new found x).0 i) [
              | inl n ↦ added-Below work found b1 x n
              | inr o ↦ b2 x o
            ])
            (added-IsExpanded work found expanded) in
        (
          rows,
          rounds-more fuel work found y ys some_added ∙ finished,
          record {
            below = good.below;
            kept = λ x i. good.kept x ((In-append new found x).1 (inr i));
            closed = good.closed;
          },
        )
  ]

  reached-In :
      (rows : List ℕ) → IsClosed rows → {u v : ℕ} → In u rows → Walk (links hs) u v → In v rows
  reached-In rows closed i (one {u} {v} e) = closed u v i e
  reached-In rows closed i (more {u} {v} e w) = reached-In rows closed (closed u v i e) w

  abbrev start : List ℕ
  start = new_rows [] (children_of hs (child ∷ []))

  start-Below : Below start
  start-Below x i =
      let (u, j, e) =
        children_of-In hs (child ∷ []) x (new_rows-In [] (children_of hs (child ∷ [])) x i).0 in
      elim j [
        | inl same ↦ one (subst (λ k. In (edge k x) (links hs)) same e)
        | inr nowhere ↦ absurd nowhere
      ]

  In-start : (v : ℕ) → In (edge child v) (links hs) → In v start
  In-start v e =
      elim (In-new_rows [] (children_of hs (child ∷ [])) v
        (In-children_of hs (child ∷ []) child v (inl refl) e).0) [
          | inl nowhere ↦ absurd nowhere
          | inr i ↦ i
        ]

  walked-In : {x : ℕ} (rows : List ℕ) → Good start rows → Walk (links hs) child x → In x rows
  walked-In rows good (one {v} e) = good.kept v (In-start v e)
  walked-In rows good (more {v} e w) = reached-In rows good.closed (good.kept v (In-start v e)) w

  length-children : (ns : List KpiHierarchyNode) → length (children ns) ≡ length ns
  length-children [] = refl
  length-children (n ∷ ns) = ap suc (length-children ns)

  -- The query finishes, with the identifiers that walks from the child reach.
  pub descendants_iff :
      (rows : List ℕ) × (descendants hs child ≡ some rows)
      × ((x : ℕ) → In x rows ↔ Walk (links hs) child x)
  unfolding descendants
  descendants_iff =
      let (rows, finished, good) =
        rounds-Good (suc (length hs)) start start
          (omega (arith, room-le-length (children hs) start, length-children hs)) start-Below
          start-Below (λ u v i e. inl i) in
      (rows, finished, λ x. (good.below x, walked-In rows good))
