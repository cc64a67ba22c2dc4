-- ===== src/Iam.antt =====
-- packages/domain-iam/src/index.ts: separation of duties and organisation scopes. User identifiers
-- are only compared, so they are numbers. A scope identifier is text, a list of character codes,
-- since the module builds keys from it.
mod Tests
use strat_align.Prelude.{
  ℕ, Bool, true, false, List, [], ◌∷◌, ◌++◌, ◌≡◌, ◌≢◌, ◌↔◌, ◌==◌, ◌||◌, ◌&&◌, refl, map, inl, inr,
  arith, or_true, if◌then◌else◌, In, Bool-cases,
}

pub data PlatformRole : Type 0 where
  executive_viewer sector_leadership objective_play_owner initiative_owner : PlatformRole
  kpi_owner data_steward vmo_lead benefit_owner strategy_analyst : PlatformRole
  governance_committee seo_administrator platform_administrator : PlatformRole

pub data OrgScopeType : Type 0 where
  group sector function : OrgScopeType

pub data ScopeSource : Type 0 where
  scope_grant oidc_group : ScopeSource

pub record AuthorizationScope : Type 0 where
  pub role_name : PlatformRole
  pub org_scope_type : OrgScopeType
  pub org_scope_id : List ℕ
  pub source : ScopeSource

-- The text of a scope type, as it stands in a key.
abbrev pub scope_type_text : OrgScopeType → List ℕ
scope_type_text group = b'g' ∷ b'r' ∷ b'o' ∷ b'u' ∷ b'p' ∷ []
scope_type_text sector = b's' ∷ b'e' ∷ b'c' ∷ b't' ∷ b'o' ∷ b'r' ∷ []
scope_type_text function = b'f' ∷ b'u' ∷ b'n' ∷ b'c' ∷ b't' ∷ b'i' ∷ b'o' ∷ b'n' ∷ []

-- `${type}:${id}`
abbrev pub scope_key : OrgScopeType → List ℕ → List ℕ
scope_key type id = scope_type_text type ++ (b':' ∷ id)

abbrev pub same_text : List ℕ → List ℕ → Bool
same_text [] [] = true
same_text (x ∷ xs) (y ∷ ys) = x == y && same_text xs ys
same_text _ _ = false

-- `Set.has` on the keys
abbrev has_text : List (List ℕ) → List ℕ → Bool
has_text [] k = false
has_text (x ∷ xs) k = same_text x k || has_text xs k

-- `createScopePredicate(grants).permits(type, id)`
pub permits : List AuthorizationScope → OrgScopeType → List ℕ → Bool
permits grants type id =
    has_text (map (λ g. scope_key g.org_scope_type g.org_scope_id) grants) (scope_key type id)

pub data SeparationOfDutiesDecision : Type 0 where
  allowed : SeparationOfDutiesDecision
  refused : SeparationOfDutiesDecision

unfoldable pub decide_separation_of_duties : ℕ → ℕ → SeparationOfDutiesDecision
decide_separation_of_duties acting submitted_by =
    if acting == submitted_by then refused else allowed

-- `false` is the thrown `SeparationOfDutiesError`.
unfoldable pub enforce_separation_of_duties : ℕ → ℕ → Bool
enforce_separation_of_duties acting submitted_by =
    elim (decide_separation_of_duties acting submitted_by) [ allowed ↦ true | refused ↦ false ]

same_text_iff : (xs ys : List ℕ) → (same_text xs ys ≡ true) ↔ (xs ≡ ys)
same_text_iff [] [] = (λ h. refl, λ h. refl)
same_text_iff [] (y ∷ ys) = (λ h. cc, λ h. cc)
same_text_iff (x ∷ xs) [] = (λ h. cc, λ h. cc)
same_text_iff (x ∷ xs) (y ∷ ys) = ground (arith, same_text_iff xs ys)

-- The types' texts differ in their first letters, and the colon stands at a fixed place.
scope_key_injective :
    (t u : OrgScopeType) (a b : List ℕ) → scope_key t a ≡ scope_key u b → (t ≡ u) × (a ≡ b)
scope_key_injective t u a b h = ground arith

-- A scope predicate permits a scope exactly when one of its grants names that scope type and that
-- scope identifier.
pub permits_iff :
    (grants : List AuthorizationScope) (type : OrgScopeType) (id : List ℕ)
    → (permits grants type id ≡ true)
      ↔ ((g : AuthorizationScope) × In g grants × (g.org_scope_type ≡ type) × (g.org_scope_id ≡ id))
unfolding permits
permits_iff [] type id = (λ h. cc, λ (g, i, p, q). absurd i)
permits_iff (g ∷ gs) type id = (
  λ h. elim (or_true _ _ h) [
    | inl here ↦
        let (p, q) =
          scope_key_injective g.org_scope_type type g.org_scope_id id
            ((same_text_iff _ _).0 here) in
        (g, inl refl, p, q)
    | inr later ↦ let (g', i, p, q) = (permits_iff gs type id).0 later in (g', inr i, p, q)
  ],
  λ (g', i, p, q). elim i [
    | inl same ↦
        ground
          (arith, (same_text_iff (scope_key g.org_scope_type g.org_scope_id) (scope_key type id)).1)
    | inr later ↦ ground (arith, (permits_iff gs type id).1 (g', later, p, q))
  ],
)
