-- ===== src/Strategy/Cycle/Fuel.antt =====
-- The fuel of the search: every nested call adds a node to `visiting`, so the nodes that are not in
-- it bound the depth of the calls.
use strat_align.Prelude.{
  ℕ, zero, suc, ◌≤◌, ◌<◌, Bool, true, false, Option, none, some, List, [], ◌∷◌, ◌≡◌, refl, ◌∙◌, inl,
  inr, arith, Bool-cases, In, length, if◌then◌else◌,
}
use strat_align.Strategy.Cycle.{
  DirectedEdge, Search, has, targets, then_each, visit_each, leave, visit,
}
use strat_align.Strategy.Cycle.Sets.{edge, delete-top, In-targets}

-- How many of the nodes are not being visited.
unfoldable pub room : List ℕ → List ℕ → ℕ
room [] visiting = 0
room (x ∷ xs) visiting = let rest = room xs visiting in if has visiting x then rest else suc rest

pub room-le-length : (nodes visiting : List ℕ) → room nodes visiting ≤ length nodes
unfolding room
room-le-length [] visiting = omega arith
room-le-length (x ∷ xs) visiting = ground (arith, room-le-length xs visiting)

room-cons_le : (nodes visiting : List ℕ) (c : ℕ) → room nodes (c ∷ visiting) ≤ room nodes visiting
unfolding room
room-cons_le [] visiting c = omega arith
room-cons_le (x ∷ xs) visiting c = ground (arith, room-cons_le xs visiting c)

room-cons_lt :
    (nodes visiting : List ℕ) (c : ℕ)
    → In c nodes
    → has visiting c ≡ false
    → room nodes (c ∷ visiting) < room nodes visiting
unfolding room
room-cons_lt [] visiting c h absent = absurd h
room-cons_lt (x ∷ xs) visiting c h absent =
    ground (arith, room-cons_le xs visiting c, room-cons_lt xs visiting c)

-- A call that returns; after `false` the nodes being visited are the old ones.
abbrev pub Finishes : Search → Option (Bool × Search) → Type 0
Finishes s none = ⊥
Finishes s (some (true, s')) = Unit
Finishes s (some (false, s')) = s'.visiting ≡ s.visiting

module _ (es : List DirectedEdge) (nodes : List ℕ)
    (closed : (u v : ℕ) → In (edge u v) es → In v nodes) where
  Finishes-then :
      (s : Search) (k : Search → Option (Bool × Search)) (r : Option (Bool × Search))
      → Finishes s r
      → ((s' : Search) → s'.visiting ≡ s.visiting → Finishes s' (k s'))
      → Finishes s (then_each k r)
  Finishes-then s k none h rest = h
  Finishes-then s k (some (true, s')) h rest = tt
  Finishes-then s k (some (false, s')) h rest = after (k s') (rest s' h)
    where
      after : (r : Option (Bool × Search)) → Finishes s' r → Finishes s r
      after none f = f
      after (some (true, s'')) f = tt
      after (some (false, s'')) f = f ∙ h

  abbrev pub Returns : ℕ → (ℕ → Search → Option (Bool × Search)) → Type 0
  Returns fuel call =
      (c : ℕ) (s : Search) → In c nodes → room nodes s.visiting < fuel → Finishes s (call c s)

  pub visit_each-Finishes :
      (fuel : ℕ) (call : ℕ → Search → Option (Bool × Search))
      → Returns fuel call
      → (ts : List ℕ) (s : Search) → ((t : ℕ) → In t ts → In t nodes)
      → room nodes s.visiting < fuel
      → Finishes s (visit_each call ts s)
  unfolding visit_each
  visit_each-Finishes fuel call returns [] s known room_left = refl
  visit_each-Finishes fuel call returns (t ∷ ts) s known room_left =
      Finishes-then s (visit_each call ts) (call t s) (returns t s (known t (inl refl)) room_left)
        λ s' same.
          visit_each-Finishes fuel call returns ts s' (λ u h. known u (inr h)) (rw same room_left)

  leave-Finishes :
      (c : ℕ) (s : Search) (r : Option (Bool × Search))
      → has s.visiting c ≡ false
      → Finishes (record s { visiting = c ∷ s.visiting }) r
      → Finishes s (leave c r)
  leave-Finishes c s none absent h = h
  leave-Finishes c s (some (true, s')) absent h = tt
  leave-Finishes c s (some (false, s')) absent h = rw h (delete-top s.visiting c absent)

  pub visit-Finishes : (fuel : ℕ) → Returns fuel (visit es fuel)
  unfolding visit
  visit-Finishes zero c s known room_left = absurd (omega arith)
  visit-Finishes (suc fuel) c s known room_left = elim (Bool-cases (has s.visiting c)) [
    | inl again ↦ rw again tt
    | inr absent ↦ elim (Bool-cases (has s.visited c)) [
      | inl done ↦ rw (absent, done) refl
      | inr new ↦
          rw (absent, new)
            (leave-Finishes c s
              (visit_each (visit es fuel) (targets es c) (record s { visiting = c ∷ s.visiting }))
              absent
              (visit_each-Finishes fuel (visit es fuel) (visit-Finishes fuel) (targets es c)
                (record s { visiting = c ∷ s.visiting }) (λ t h. closed c t (In-targets es c t h))
                (omega (arith, room-cons_lt nodes s.visiting c known absent))))
    ]
  ]
