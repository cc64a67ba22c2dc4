-- ===== src/Strategy/Cycle/Visit.antt =====
-- What a call of `visit` leaves behind, by its result.
use strat_align.Prelude.{
  ℕ, zero, suc, Bool, true, false, Option, none, some, List, [], ◌∷◌, ◌≡◌, refl, ◌∙◌, inl, inr,
  Bool-cases, In,
}
use strat_align.Strategy.Cycle.{
  DirectedEdge, Search, has, add, targets, then_each, visit_each, leave, visit,
}
use strat_align.Strategy.Cycle.Sets.{
  edge, In-of_has, delete-top, In-add, In-add_self, In-targets, targets-In,
}
use strat_align.Strategy.Cycle.Walks.{HasCycle, IsChain, IsTopological, chain-Walk}

abbrev pub Sub : List ℕ → List ℕ → Type 0
Sub xs ys = (a : ℕ) → In a xs → In a ys

module _ (es : List DirectedEdge) where
  -- After `false` the nodes being visited are the old ones, those visited are more, still listed so
  -- that edges lead down, and hold every node of `asked`.
  pub record IsSettled (asked : List ℕ) (s s' : Search) : Type 0 where
    pub restored : s'.visiting ≡ s.visiting
    pub ordered : IsTopological es s'.visited
    pub kept : Sub s.visited s'.visited
    pub reached : Sub asked s'.visited

  abbrev pub Post : List ℕ → Search → Option (Bool × Search) → Type 0
  Post asked s none = Unit
  Post asked s (some (true, s')) = HasCycle es
  Post asked s (some (false, s')) = IsSettled asked s s'

  -- What is asked of the function that the loop calls.
  abbrev pub Settles : (ℕ → Search → Option (Bool × Search)) → Type 0
  Settles call =
      (c : ℕ) (s : Search)
      → IsTopological es s.visited
      → IsChain es (c ∷ s.visiting)
      → Post (c ∷ []) s (call c s)

  Post-after :
      (t : ℕ) (ts : List ℕ) (s s' : Search) (r : Option (Bool × Search))
      → IsSettled (t ∷ []) s s'
      → Post ts s' r
      → Post (t ∷ ts) s r
  Post-after t ts s s' none one rest = tt
  Post-after t ts s s' (some (true, s'')) one rest = rest
  Post-after t ts s s' (some (false, s'')) one rest = record {
    restored = rest.restored ∙ one.restored;
    ordered = rest.ordered;
    kept = λ a h. rest.kept a (one.kept a h);
    reached = λ a h. elim h [
      | inl first ↦ rest.kept a (one.reached a (inl first))
      | inr later ↦ rest.reached a later
    ];
  }

  Post-then :
      (t : ℕ) (ts : List ℕ) (s : Search) (k : Search → Option (Bool × Search))
      (r : Option (Bool × Search))
      → Post (t ∷ []) s r
      → ((s' : Search) → IsSettled (t ∷ []) s s' → Post ts s' (k s'))
      → Post (t ∷ ts) s (then_each k r)
  Post-then t ts s k none p rest = tt
  Post-then t ts s k (some (true, s')) p rest = p
  Post-then t ts s k (some (false, s')) p rest = Post-after t ts s s' (k s') p (rest s' p)

  pub visit_each-Post :
      (call : ℕ → Search → Option (Bool × Search))
      → Settles call
      → (ts : List ℕ) (s : Search) → IsTopological es s.visited
      → ((t : ℕ) → In t ts → IsChain es (t ∷ s.visiting))
      → Post ts s (visit_each call ts s)
  unfolding visit_each
  visit_each-Post call settles [] s order chain = record {
    restored = refl;
    ordered = order;
    kept = λ a h. h;
    reached = λ a h. absurd h;
  }
  visit_each-Post call settles (t ∷ ts) s order chain =
      Post-then t ts s (visit_each call ts) (call t s) (settles t s order (chain t (inl refl)))
        λ s' one.
          visit_each-Post call settles ts s' one.ordered λ u h. rw one.restored (chain u (inr h))

  add-IsTopological :
      (c : ℕ) (xs : List ℕ)
      → IsTopological es xs
      → ((t : ℕ) → In (edge c t) es → In t xs)
      → IsTopological es (add xs c)
  add-IsTopological c xs order down = elim (Bool-cases (has xs c)) [
    | inl old ↦ rw old order
    | inr new ↦ rw new (down, order)
  ]

  visited-IsSettled :
      (c : ℕ) (s : Search)
      → IsTopological es s.visited
      → has s.visited c ≡ true
      → IsSettled (c ∷ []) s s
  visited-IsSettled c s order done = record {
    restored = refl;
    ordered = order;
    kept = λ a h. h;
    reached = λ a h. elim h [ inl same ↦ rw same (In-of_has s.visited c done) | inr e ↦ absurd e ];
  }

  -- Leaving a node: its targets are visited, so it may stand above them.
  leave-Post :
      (c : ℕ) (s : Search) (r : Option (Bool × Search))
      → has s.visiting c ≡ false
      → Post (targets es c) (record s { visiting = c ∷ s.visiting }) r
      → Post (c ∷ []) s (leave c r)
  leave-Post c s none absent p = tt
  leave-Post c s (some (true, s')) absent p = p
  leave-Post c s (some (false, s')) absent p = record {
    restored = rw p.restored (delete-top s.visiting c absent);
    ordered = add-IsTopological c s'.visited p.ordered λ t h. p.reached t (targets-In es c t h);
    kept = λ a h. In-add s'.visited c a (p.kept a h);
    reached = λ a h. elim h [ inl same ↦ rw same (In-add_self s'.visited c) | inr e ↦ absurd e ];
  }

  pub visit-Post : (fuel : ℕ) → Settles (visit es fuel)
  unfolding visit
  visit-Post zero c s order chain = tt
  visit-Post (suc fuel) c s order chain = elim (Bool-cases (has s.visiting c)) [
    | inl again ↦ rw again (c, chain-Walk es c s.visiting c chain (In-of_has s.visiting c again))
    | inr absent ↦ elim (Bool-cases (has s.visited c)) [
      | inl done ↦ rw (absent, done) (visited-IsSettled c s order done)
      | inr new ↦
          rw (absent, new)
            (leave-Post c s
              (visit_each (visit es fuel) (targets es c) (record s { visiting = c ∷ s.visiting }))
              absent
              (visit_each-Post (visit es fuel) (visit-Post fuel) (targets es c)
                (record s { visiting = c ∷ s.visiting }) order λ t h. (In-targets es c t h, chain)))
    ]
  ]
