-- ===== src/Rules/Service/Current.antt =====
-- What the tables of rule versions satisfy, and the rows that the updates of a table give.
use strat_align.Prelude.{
  ℕ, ◌≤◌, ◌<◌, true, false, some, ◌≡◌, ◌≢◌, sym, ap, ◌∙◌, inl, inr, arith, In, Bool-cases,
}
use strat_align.Rules.Service.{draft, published, RuleDefinition, Table}

pub some-cancel : {a b : ℕ} → some a ≡ some b → a ≡ b
some-cancel h = cc

pub published_not_draft : published ≢ draft
published_not_draft h = cc

-- The rows of a table of rule versions: an identifier, and a version of a key, belong to one row; a
-- key that has rows has a current one, of the highest version; a draft is current; a published row
-- that is not current waits for the current draft that supersedes it; and a row supersedes an
-- earlier version of its key.
pub record IsSound {J : Type 0} (t : Table J) : Type 0 where
  pub ids : (r s : RuleDefinition J) → In r t → In s t → r.id ≡ s.id → r ≡ s
  pub versions :
      (r s : RuleDefinition J)
      → In r t
      → In s t
      → r.rule_key ≡ s.rule_key
      → r.version ≡ s.version
      → r.id ≡ s.id
  pub highest :
      (r s : RuleDefinition J)
      → In r t
      → In s t
      → r.rule_key ≡ s.rule_key
      → r.is_current ≡ true
      → s.version ≤ r.version
  pub has_current :
      (r : RuleDefinition J)
      → In r t
      → (s : RuleDefinition J) × In s t × (s.rule_key ≡ r.rule_key) × (s.is_current ≡ true)
  pub served :
      (r : RuleDefinition J)
      → In r t
      → r.status ≡ published
      → r.is_current ≡ false
      → (d : RuleDefinition J) × In d t
        × (d.rule_key ≡ r.rule_key)
        × (d.is_current ≡ true)
        × (d.status ≡ draft)
        × (d.supersedes_id ≡ some r.id)
  pub drafts : (r : RuleDefinition J) → In r t → r.status ≡ draft → r.is_current ≡ true
  pub before :
      (r : RuleDefinition J) (k : ℕ)
      → In r t
      → r.supersedes_id ≡ some k
      → (s : RuleDefinition J) × In s t
        × (s.id ≡ k)
        × (s.rule_key ≡ r.rule_key)
        × (s.version < r.version)

module _ {J : Type 0} {t : Table J} (sound : IsSound t) where
  -- The current row of a key is one.
  pub current_one :
      (r s : RuleDefinition J)
      → In r t
      → In s t
      → r.rule_key ≡ s.rule_key
      → r.is_current ≡ true
      → s.is_current ≡ true
      → r ≡ s
  current_one r s i j k a b = sound.ids r s i j (
      sound.versions r s i j k
        (omega (arith, sound.highest r s i j k a, sound.highest s r j i (sym k) b)))

  -- A key has one published row at most.
  pub published_one :
      (r s : RuleDefinition J)
      → In r t
      → In s t
      → r.rule_key ≡ s.rule_key
      → r.status ≡ published
      → s.status ≡ published
      → r ≡ s
  published_one r s i j k a b = elim (Bool-cases r.is_current) [
    | inl c ↦ elim (Bool-cases s.is_current) [
      | inl d ↦ current_one r s i j k c d
      | inr d ↦
          let (x, l, key, cur, dr, sup) = sound.served s j b d in
          absurd (one_is_draft r x (current_one r x i l (k ∙ sym key) c cur) a dr)
    ]
    | inr c ↦
        let (x, l, key, cur, dr, sup) = sound.served r i a c in
        elim (Bool-cases s.is_current) [
          | inl d ↦ absurd (one_is_draft s x (current_one s x j l (sym k ∙ sym key) d cur) b dr)
          | inr d ↦
              let (y, m, key', cur', dr', sup') = sound.served s j b d in
              let same = current_one x y l m (key ∙ k ∙ sym key') cur cur' in
              sound.ids r s i j (same_link x y same sup sup')
        ]
  ]
    where
      one_is_draft : (p d : RuleDefinition J) → p ≡ d → p.status ≡ published → d.status ≡ draft → ⊥
      one_is_draft p d e h k =
          published_not_draft (sym h ∙ ap (λ (r : RuleDefinition J). r.status) e ∙ k)

      same_link :
          (x y : RuleDefinition J) {a b : ℕ}
          → x ≡ y
          → x.supersedes_id ≡ some a
          → y.supersedes_id ≡ some b
          → a ≡ b
      same_link x y e h k =
          some-cancel (sym h ∙ ap (λ (r : RuleDefinition J). r.supersedes_id) e ∙ k)
