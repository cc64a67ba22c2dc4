-- ===== src/Rules/Service/Drafts.antt =====
-- A draft that `createDraft` writes keeps the table of rule versions sound.
use strat_align.Prelude.{
  In-map, map-In, ℕ, ◌+◌, ◌≤◌, ◌<◌, Bool, true, false, none, some, ◌∷◌, ◌≡◌, ◌≢◌, refl, sym, ap,
  ◌∙◌, ◌⊎◌, inl, inr, arith, In, ◌==◌, if◌then◌else◌, Bool-cases, eq_of_test, ne_of_test,
}
use mathlib.Core.Path.{subst}
use strat_align.Rules.Service.{RuleStatus, draft, published, RuleDefinition, Table, update, retire}
use strat_align.Rules.Service.Current.{IsSound, current_one, published_not_draft}

module _ {J : Type 0} {t : Table J} (sound : IsSound t) (n : RuleDefinition J)
    (fresh : (s : RuleDefinition J) → In s t → s.id ≢ n.id) (is_draft : n.status ≡ draft)
    (is_current : n.is_current ≡ true) where
  -- The first row of a key.
  pub first-IsSound :
      ((s : RuleDefinition J) → In s t → s.rule_key ≢ n.rule_key)
      → n.supersedes_id ≡ none
      → IsSound (n ∷ t)
  first-IsSound other alone = record {
    ids = λ r s i j e. grind (arith, fresh r, fresh s, sound.ids r s);
    versions = λ r s i j k v. grind (arith, other r, other s, sound.versions r s);
    highest = λ r s i j k c. grind (arith, other r, other s, sound.highest r s);
    has_current = λ r i. elim i [
      | inl e ↦ (n, inl refl, cc, is_current)
      | inr i' ↦ let (s, j, k, c) = sound.has_current r i' in (s, inr j, k, c)
    ];
    served = λ r i h c. elim i [
      | inl e ↦ absurd (published_not_draft cc)
      | inr i' ↦ let (d, j, k, e, f, g) = sound.served r i' h c in (d, inr j, k, e, f, g)
    ];
    drafts = λ r i h. grind (arith, sound.drafts r);
    before = λ r k i h. elim i [
      | inl e ↦ cc
      | inr i' ↦ let (s, j, e, f, g) = sound.before r k i' h in (s, inr j, e, f, g)
    ];
  }

  -- The row after the current row of a key, which it takes the place of.
  module _ (c : RuleDefinition J) (member : In c t) (current : c.is_current ≡ true)
      (settled : c.status ≢ draft) (key : n.rule_key ≡ c.rule_key)
      (next : n.version ≡ c.version + 1) (link : n.supersedes_id ≡ some c.id) where
    abbrev change : RuleDefinition J → RuleDefinition J
    change r = if r.id == c.id then retire r else r

    -- A row of the table after the update, by what it was.
    abbrev Becomes : RuleDefinition J → RuleDefinition J → Type 0
    Becomes r r' = ((r ≡ c) × (r' ≡ retire c)) ⊎ ((r.id ≢ c.id) × (r' ≡ r))

    change-Becomes : (r : RuleDefinition J) → In r t → Becomes r (change r)
    change-Becomes r i = elim (Bool-cases (r.id == c.id)) [
      | inl same ↦
          let one = sound.ids r c i member (eq_of_test r.id c.id same) in
          inl (one, change_same r one same)
      | inr other ↦ inr (ne_of_test r.id c.id other, rw other refl)
    ]
      where
        change_same : (r : RuleDefinition J) → r ≡ c → (r.id == c.id) ≡ true → change r ≡ retire c
        change_same r e same = rw same (ap retire e)

    was :
        (r' : RuleDefinition J)
        → In r' (update c.id retire t)
        → (r : RuleDefinition J) × In r t × Becomes r r'
    was r' i =
        let (r, j, e) = map-In change t r' i in
        (r, j, subst (λ x. Becomes r x) (sym e) (change-Becomes r j))

    still : (r : RuleDefinition J) → In r t → r.id ≢ c.id → In r (update c.id retire t)
    still r i d = subst (λ x. In x (update c.id retire t)) (unchanged r d) (In-map change t r i)
      where
        unchanged : (r : RuleDefinition J) → r.id ≢ c.id → change r ≡ r
        unchanged r d = elim (Bool-cases (r.id == c.id)) [
          | inl same ↦ absurd (d (eq_of_test r.id c.id same))
          | inr other ↦ rw other refl
        ]

    -- The rows of the new table, by what they were.
    abbrev Origin : RuleDefinition J → Type 0
    Origin r' = (r' ≡ n) ⊎ ((r : RuleDefinition J) × In r t × Becomes r r')

    origin : (r' : RuleDefinition J) → In r' (n ∷ update c.id retire t) → Origin r'
    origin r' (inl e) = inl e
    origin r' (inr i) = inr (was r' i)

    ids_kept : (r s : RuleDefinition J) → Origin r → Origin s → r.id ≡ s.id → r ≡ s
    ids_kept r s (inl a) (inl b) e = a ∙ sym b
    ids_kept r s (inl a) (inr (y, j, b)) e = grind (arith, fresh y)
    ids_kept r s (inr (x, i, a)) (inl b) e = grind (arith, fresh x)
    ids_kept r s (inr (x, i, a)) (inr (y, j, b)) e = grind (arith, sound.ids x y)

    versions_kept :
        (r s : RuleDefinition J)
        → Origin r
        → Origin s
        → r.rule_key ≡ s.rule_key
        → r.version ≡ s.version
        → r.id ≡ s.id
    versions_kept r s (inl a) (inl b) k v = cc
    versions_kept r s (inl a) (inr (y, j, b)) k v = grind (arith, sound.highest c y)
    versions_kept r s (inr (x, i, a)) (inl b) k v = grind (arith, sound.highest c x)
    versions_kept r s (inr (x, i, a)) (inr (y, j, b)) k v = grind (arith, sound.versions x y)

    highest_kept :
        (r s : RuleDefinition J)
        → Origin r
        → Origin s
        → r.rule_key ≡ s.rule_key
        → r.is_current ≡ true
        → s.version ≤ r.version
    highest_kept r s (inl a) (inl b) k v = grind arith
    highest_kept r s (inl a) (inr (y, j, b)) k v = grind (arith, sound.highest c y)
    highest_kept r s (inr (x, i, a)) (inl b) k v =
        grind (arith, current_one sound x c, sound.highest x c)
    highest_kept r s (inr (x, i, a)) (inr (y, j, b)) k v = grind (arith, sound.highest x y)

    drafts_kept : (r : RuleDefinition J) → Origin r → r.status ≡ draft → r.is_current ≡ true
    drafts_kept r (inl a) h = grind arith
    drafts_kept r (inr (x, i, a)) h = grind (arith, sound.drafts x)

    abbrev Members : Table J
    Members = n ∷ update c.id retire t

    has_current_kept :
        (r : RuleDefinition J)
        → Origin r
        → (s : RuleDefinition J) × In s Members × (s.rule_key ≡ r.rule_key) × (s.is_current ≡ true)
    has_current_kept r (inl a) = (n, inl refl, cc, is_current)
    has_current_kept r (inr (x, i, inl (a, b))) = (n, inl refl, cc, is_current)
    has_current_kept r (inr (x, i, inr (a, b))) =
        let (s, j, k, cur) = sound.has_current x i in
        elim (Bool-cases (s.id == c.id)) [
          | inl same ↦ (n, inl refl, grind (arith, sound.ids s c, eq_of_test s.id c.id), is_current)
          | inr other ↦ (s, inr (still s j (ne_of_test s.id c.id other)), cc, cur)
        ]

    abbrev status_of : RuleDefinition J → RuleStatus
    status_of r = r.status

    abbrev current_of : RuleDefinition J → Bool
    current_of r = r.is_current

    served_kept :
        (r : RuleDefinition J)
        → Origin r
        → r.status ≡ published
        → r.is_current ≡ false
        → (d : RuleDefinition J) × In d Members
          × (d.rule_key ≡ r.rule_key)
          × (d.is_current ≡ true)
          × (d.status ≡ draft)
          × (d.supersedes_id ≡ some r.id)
    served_kept r (inl a) h f = cc
    served_kept r (inr (x, i, inl (a, b))) h f = (n, inl refl, cc, is_current, is_draft, cc)
    served_kept r (inr (x, i, inr (a, b))) h f =
        let (d, j, k, cur, dr, sup) =
          sound.served x i (sym (ap status_of b) ∙ h) (sym (ap current_of b) ∙ f) in
        let apart =
          λ (e : d.id ≡ c.id). settled (sym (ap status_of (sound.ids d c j member e)) ∙ dr) in
        (d, inr (still d j apart), cc, cur, dr, cc)

    before_kept :
        (r : RuleDefinition J) (k : ℕ)
        → Origin r
        → r.supersedes_id ≡ some k
        → (s : RuleDefinition J) × In s Members
          × (s.id ≡ k)
          × (s.rule_key ≡ r.rule_key)
          × (s.version < r.version)
    before_kept r k (inl a) h =
        let same : c.id ≡ k = grind arith in
        let b = change-Becomes c member in
        (change c, inr (In-map change t c member), grind arith, grind arith, grind arith)
    before_kept r k (inr (x, i, a)) h =
        let (s, j, e, f, g) = sound.before x k i (grind arith) in
        let b = change-Becomes s j in
        (change s, inr (In-map change t s j), grind arith, grind arith, grind arith)

    pub next-IsSound : IsSound Members
    next-IsSound = record {
      ids = λ r s i j. ids_kept r s (origin r i) (origin s j);
      versions = λ r s i j. versions_kept r s (origin r i) (origin s j);
      highest = λ r s i j. highest_kept r s (origin r i) (origin s j);
      has_current = λ r i. has_current_kept r (origin r i);
      served = λ r i. served_kept r (origin r i);
      drafts = λ r i. drafts_kept r (origin r i);
      before = λ r k i. before_kept r k (origin r i);
    }
