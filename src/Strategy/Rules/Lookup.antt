-- ===== src/Strategy/Rules/Lookup.antt =====
-- What finding a relationship rule means.
use strat_align.Prelude.{
  ℕ, ◌≤◌, Bool, true, false, Option, none, some, List, [], ◌∷◌, ◌≡◌, ◌↔◌, inl, inr, refl, arith,
  find, In, Bool-cases, find-In,
}
use strat_align.Strategy.Types.{
  NodeType, EdgeType, RelationshipRule, Node, ok, same_type_iff, same_edge_iff,
}
use strat_align.Strategy.Rules.{
  rule_fits, find_relationship_rule, assert_relationship_allowed, validate_edge, above,
  assert_relationship_cardinality,
}

find_present :
    {A : Type 0} (p : A → Bool) (xs : List A) (r : A)
    → In r xs
    → p r ≡ true
    → (r' : A) × (find p xs ≡ some r')
find_present p [] r h e = absurd h
find_present p (x ∷ xs) r h e = elim (Bool-cases (p x)) [
  | inl first ↦ (x, ground arith)
  | inr later ↦ let (r', found) = find_present p xs r (ground arith) e in (r', ground arith)
]

-- A rule that joins the two types by an edge of the kind.
abbrev pub Allows : NodeType → NodeType → EdgeType → RelationshipRule → Type 0
Allows from to kind r = (r.from_type ≡ from) × (r.to_type ≡ to) × (r.edge_type ≡ kind)

pub rule_fits_iff :
    (from to : NodeType) (kind : EdgeType) (r : RelationshipRule)
    → (rule_fits from to kind r ≡ true) ↔ Allows from to kind r
rule_fits_iff from to kind r = ground (
  arith,
  same_type_iff r.from_type from,
  same_type_iff r.to_type to,
  same_edge_iff r.edge_type kind,
)

-- The edge check returns a rule of the list that allows the edge, and it returns whenever the plan
-- versions agree and the list has such a rule.
pub validate_edge-returns :
    (from to : Node) (kind : EdgeType) (rules : List RelationshipRule) (r : RelationshipRule)
    → validate_edge from to kind rules ≡ ok r
    → (from.plan_version_id ≡ to.plan_version_id) × In r rules × Allows from.type to.type kind r
unfolding validate_edge assert_relationship_allowed find_relationship_rule
validate_edge-returns from to kind rules r h =
    let found : find (rule_fits from.type to.type kind) rules ≡ some r = ground arith in
    let (member, fits) = find-In (rule_fits from.type to.type kind) rules r found in
    (ground arith, member, (rule_fits_iff from.type to.type kind r).0 fits)

pub validate_edge-succeeds :
    (from to : Node) (kind : EdgeType) (rules : List RelationshipRule) (r : RelationshipRule)
    → from.plan_version_id ≡ to.plan_version_id
    → In r rules
    → Allows from.type to.type kind r
    → (r' : RelationshipRule) × (validate_edge from to kind rules ≡ ok r')
unfolding validate_edge assert_relationship_allowed find_relationship_rule
validate_edge-succeeds from to kind rules r same member allows =
    let (r', found) =
      find_present (rule_fits from.type to.type kind) rules r member
        ((rule_fits_iff from.type to.type kind r).1 allows) in
    (r', ground arith)

-- A count within the bounds of a rule.
abbrev pub WithinMax : ℕ → Option ℕ → Type 0
WithinMax count none = Unit
WithinMax count (some most) = count ≤ most

abbrev pub Within : RelationshipRule → ℕ → Type 0
Within r count = (r.min_count ≤ count) × WithinMax count r.max_count

above_iff : (count : ℕ) (most : Option ℕ) → (above count most ≡ false) ↔ WithinMax count most
above_iff count none = (λ h. tt, λ h. refl)
above_iff count (some most) = ground arith

pub cardinality_iff :
    (r : RelationshipRule) (count : ℕ)
    → (assert_relationship_cardinality r count ≡ ok tt) ↔ Within r count
unfolding assert_relationship_cardinality
cardinality_iff r count = elim (Bool-cases (above count r.max_count)) [
  | inl over ↦ (λ h. ground arith, λ w. absurd (cc ((above_iff count r.max_count).1 w.1)))
  | inr fits ↦ (λ h. (ground arith, (above_iff count r.max_count).0 fits), λ w. ground arith)
]
