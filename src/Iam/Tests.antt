-- ===== src/Iam/Tests.antt =====
-- A scope predicate on two grants.
use strat_align.Prelude.{true, false, List, [], ◌∷◌, ◌≡◌, ◌↔◌, refl, In}
use strat_align.Iam.{
  vmo_lead, kpi_owner, group, sector, scope_grant, oidc_group, AuthorizationScope, permits,
  permits_iff, decide_separation_of_duties, enforce_separation_of_duties,
}

abbrev grants : List AuthorizationScope
grants =
    record {
      role_name = kpi_owner;
      org_scope_type = sector;
      org_scope_id = 7 ∷ [];
      source = scope_grant;
    }
    ∷ record {
      role_name = vmo_lead;
      org_scope_type = group;
      org_scope_id = 1 ∷ [];
      source = oidc_group;
    }
    ∷ []

runs :
    (permits grants sector (7 ∷ []) ≡ true)
    × (permits grants group (7 ∷ []) ≡ false)
    × (enforce_separation_of_duties 3 3 ≡ false)
    × (enforce_separation_of_duties 3 4 ≡ true)
unfolding permits decide_separation_of_duties enforce_separation_of_duties
runs = (refl, refl, refl, refl)

permits_iff_example : (permits grants group (1 ∷ []) ≡ true) ↔ (
    (g : AuthorizationScope) × In g grants × (g.org_scope_type ≡ group) × (g.org_scope_id ≡ 1 ∷ []))
permits_iff_example = permits_iff grants group (1 ∷ [])
