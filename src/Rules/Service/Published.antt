-- ===== src/Rules/Service/Published.antt =====
-- `publish` keeps the table of rule versions sound.
use strat_align.Prelude.{
  In-map, map-In, ℕ, ◌≤◌, ◌<◌, Bool, true, false, Option, none, some, [], ◌∷◌, ◌≡◌, ◌≢◌, refl, sym,
  ap, ◌∙◌, ◌⊎◌, inl, inr, arith, In, ◌==◌, map, if◌then◌else◌, Bool-cases, eq_of_test, ne_of_test,
  test_refl,
}
use mathlib.Core.Path.{subst}
use strat_align.Rules.Service.{
  RuleStatus, draft, published, superseded, RuleDefinition, Table, update, supersede,
  mark_published, supersede_before, write_published,
}
use strat_align.Rules.Service.Current.{IsSound, some-cancel}

module _ {J : Type 0} where
  -- What the two updates make of a row.
  abbrev supersede_if : Option ℕ → RuleDefinition J → RuleDefinition J
  supersede_if none s = s
  supersede_if (some k) s = if s.id == k then supersede s else s

  abbrev pub change : ℕ → RuleDefinition J → RuleDefinition J → RuleDefinition J
  change now r s =
      let x = supersede_if r.supersedes_id s in if x.id == r.id then mark_published now x else x

  map_twice :
      (f g : RuleDefinition J → RuleDefinition J) (t : Table J)
      → map f (map g t) ≡ map (λ s. f (g s)) t
  map_twice f g [] = refl
  map_twice f g (s ∷ t) = ap (λ rest. f (g s) ∷ rest) (map_twice f g t)

  supersede_before-map :
      (o : Option ℕ) (t : Table J) → supersede_before o t ≡ map (supersede_if o) t
  unfolding supersede_before
  supersede_before-map none [] = refl
  supersede_before-map none (s ∷ t) = ap (λ rest. s ∷ rest) (supersede_before-map none t)
  supersede_before-map (some k) t = refl

  pub write_published-map :
      (now : ℕ) (r : RuleDefinition J) (t : Table J)
      → write_published now r t ≡ map (change now r) t
  unfolding write_published
  write_published-map now r t =
      ap (update r.id (mark_published now)) (supersede_before-map r.supersedes_id t)
      ∙ map_twice (λ s. if s.id == r.id then mark_published now s else s)
          (supersede_if r.supersedes_id) t

module _ {J : Type 0} {t : Table J} (sound : IsSound t) (now : ℕ) (r : RuleDefinition J)
    (member : In r t) (is_draft : r.status ≡ draft) (is_current : r.is_current ≡ true) where
  abbrev id_of : RuleDefinition J → ℕ
  id_of r = r.id

  abbrev status_of : RuleDefinition J → RuleStatus
  status_of r = r.status

  abbrev current_of : RuleDefinition J → Bool
  current_of r = r.is_current

  abbrev key_of : RuleDefinition J → ℕ
  key_of r = r.rule_key

  abbrev link_of : RuleDefinition J → Option ℕ
  link_of r = r.supersedes_id

  -- The three kinds of rows: the draft, the row that it supersedes, and the others.
  abbrev Kind : RuleDefinition J → RuleDefinition J → Type 0
  Kind s s' =
      ((s ≡ r) × (s'.status ≡ published) × (s'.is_current ≡ true))
      ⊎ (((s.id ≢ r.id)
            × (r.supersedes_id ≡ some s.id)
            × (s'.status ≡ superseded)
            × (s'.is_current ≡ false))
          ⊎ ((s.id ≢ r.id) × (r.supersedes_id ≢ some s.id) × (s' ≡ s)))

  abbrev Kept : RuleDefinition J → RuleDefinition J → Type 0
  Kept s s' =
      (s'.id ≡ s.id)
      × (s'.rule_key ≡ s.rule_key)
      × (s'.version ≡ s.version)
      × (s'.supersedes_id ≡ s.supersedes_id)

  supersede-Kept : (o : Option ℕ) (s : RuleDefinition J) → Kept s (supersede_if o s)
  supersede-Kept none s = (refl, refl, refl, refl)
  supersede-Kept (some k) s = ground arith

  change-Kept : (s : RuleDefinition J) → Kept s (change now r s)
  change-Kept s = let k = supersede-Kept r.supersedes_id s in ground arith

  supersede_cases :
      (o : Option ℕ) (s : RuleDefinition J)
      → ((o ≡ some s.id)
          × ((supersede_if o s).status ≡ superseded)
          × ((supersede_if o s).is_current ≡ false))
        ⊎ ((o ≢ some s.id) × (supersede_if o s ≡ s))
  supersede_cases none s = inr (λ h. cc, refl)
  supersede_cases (some k) s = elim (Bool-cases (s.id == k)) [
    | inl same ↦ inl (ap some (sym (eq_of_test s.id k same)), rw same refl, rw same refl)
    | inr other ↦ inr (λ h. ne_of_test s.id k other (sym (some-cancel h)), rw other refl)
  ]

  mark_if : RuleDefinition J → RuleDefinition J
  mark_if x = if x.id == r.id then mark_published now x else x

  mark_cases :
      (x : RuleDefinition J)
      → ((x.id ≡ r.id) × ((mark_if x).status ≡ published) × ((mark_if x).is_current ≡ true))
        ⊎ ((x.id ≢ r.id) × (mark_if x ≡ x))
  unfolding mark_if
  mark_cases x = elim (Bool-cases (x.id == r.id)) [
    | inl same ↦ inl (eq_of_test x.id r.id same, rw same refl, rw same refl)
    | inr other ↦ inr (ne_of_test x.id r.id other, rw other refl)
  ]

  change-Kind : (s : RuleDefinition J) → In s t → Kind s (change now r s)
  unfolding mark_if
  change-Kind s i =
      let x = supersede_if r.supersedes_id s in
      let same_id = (supersede-Kept r.supersedes_id s).0 in
      elim (mark_cases x) [
        | inl (a, b, c) ↦ inl (sound.ids s r i member (sym same_id ∙ a), b, c)
        | inr (a, b) ↦ elim (supersede_cases r.supersedes_id s) [
          | inl (o, st, cur) ↦
              inr (inl ((λ e. a (same_id ∙ e)), o, ap status_of b ∙ st, ap current_of b ∙ cur))
          | inr (o, e) ↦ inr (inr ((λ e. a (same_id ∙ e)), o, b ∙ e))
        ]
      ]

  abbrev Origin : RuleDefinition J → Type 0
  Origin s' = (s : RuleDefinition J) × In s t × (s' ≡ change now r s)

  -- The row that is superseded is not the current one of its key.
  passed_row :
      (s : RuleDefinition J)
      → In s t
      → s.is_current ≡ true
      → s.id ≢ r.id
      → r.supersedes_id ≢ some s.id
  passed_row s i cur d o =
      let (x, j, e, k, v) = sound.before r s.id member o in
      let same = sound.ids x s j i e in grind (arith, sound.highest s r i member)

  ids_kept : (r1 s1 : RuleDefinition J) → Origin r1 → Origin s1 → r1.id ≡ s1.id → r1 ≡ s1
  ids_kept r1 s1 (x, i, a) (y, j, b) e =
      let kx = change-Kept x in
      let ky = change-Kept y in
      a
      ∙ ap (change now r) (sound.ids x y i j (sym kx.0 ∙ sym (ap id_of a) ∙ e ∙ ap id_of b ∙ ky.0))
      ∙ sym b

  -- What a row has kept, and its kind, said of the row itself.
  facts :
      (s' : RuleDefinition J) (s : RuleDefinition J)
      → In s t
      → s' ≡ change now r s
      → Kept s s' × Kind s s'
  facts s' s i a = subst (λ x. Kept s x × Kind s x) (sym a) (change-Kept s, change-Kind s i)

  versions_kept :
      (r1 s1 : RuleDefinition J)
      → Origin r1
      → Origin s1
      → r1.rule_key ≡ s1.rule_key
      → r1.version ≡ s1.version
      → r1.id ≡ s1.id
  versions_kept r1 s1 (x, i, a) (y, j, b) k v =
      let (fx, kx) = facts r1 x i a in
      let (fy, ky) = facts s1 y j b in
      fx.0 ∙ sound.versions x y i j (sym fx.1 ∙ k ∙ fy.1) (sym fx.2 ∙ v ∙ fy.2) ∙ sym fy.0

  was_current :
      (s' s : RuleDefinition J) → In s t → Kind s s' → s'.is_current ≡ true → s.is_current ≡ true
  was_current s' s i (inl (e, a, b)) c = ap current_of e ∙ is_current
  was_current s' s i (inr (inl (d, o, a, b))) c = cc
  was_current s' s i (inr (inr (d, o, e))) c = sym (ap current_of e) ∙ c

  stays_current :
      (s' s : RuleDefinition J) → In s t → Kind s s' → s.is_current ≡ true → s'.is_current ≡ true
  stays_current s' s i (inl (e, a, b)) c = b
  stays_current s' s i (inr (inl (d, o, a, b))) c = absurd (passed_row s i c d o)
  stays_current s' s i (inr (inr (d, o, e))) c = ap current_of e ∙ c

  highest_kept :
      (r1 s1 : RuleDefinition J)
      → Origin r1
      → Origin s1
      → r1.rule_key ≡ s1.rule_key
      → r1.is_current ≡ true
      → s1.version ≤ r1.version
  highest_kept r1 s1 (x, i, a) (y, j, b) k c =
      let (fx, kx) = facts r1 x i a in
      let (fy, ky) = facts s1 y j b in
      let bound = sound.highest x y i j (sym fx.1 ∙ k ∙ fy.1) (was_current r1 x i kx c) in
      rw (fx.2, fy.2) bound

  abbrev Members : Table J
  Members = map (change now r) t

  has_current_kept :
      (r1 : RuleDefinition J)
      → Origin r1
      → (s : RuleDefinition J) × In s Members × (s.rule_key ≡ r1.rule_key) × (s.is_current ≡ true)
  has_current_kept r1 (x, i, a) =
      let (fx, kx) = facts r1 x i a in
      let (s, j, k, cur) = sound.has_current x i in
      (
        change now r s,
        In-map (change now r) t s j,
        (change-Kept s).1 ∙ k ∙ sym fx.1,
        stays_current (change now r s) s j (change-Kind s j) cur,
      )

  -- A published row that waits is as it was, and so is the draft that it waits for.
  served_kind :
      (s' s : RuleDefinition J)
      → Kind s s'
      → s'.status ≡ published
      → s'.is_current ≡ false
      → (s' ≡ s) × (r.supersedes_id ≢ some s.id)
  served_kind s' s (inl (e, a, b)) h c = cc
  served_kind s' s (inr (inl (d, o, a, b))) h c = cc
  served_kind s' s (inr (inr (d, o, e))) h c = (e, o)

  draft_kind :
      (d' d : RuleDefinition J) → In d t → Kind d d' → d.is_current ≡ true → ¬ (d ≡ r) → d' ≡ d
  draft_kind d' d i (inl (e, a, b)) c other = absurd (other e)
  draft_kind d' d i (inr (inl (n, o, a, b))) c other = absurd (passed_row d i c n o)
  draft_kind d' d i (inr (inr (n, o, e))) c other = e

  served_kept :
      (r1 : RuleDefinition J)
      → Origin r1
      → r1.status ≡ published
      → r1.is_current ≡ false
      → (d : RuleDefinition J) × In d Members
        × (d.rule_key ≡ r1.rule_key)
        × (d.is_current ≡ true)
        × (d.status ≡ draft)
        × (d.supersedes_id ≡ some r1.id)
  served_kept r1 (x, i, a) h c =
      let (fx, kx) = facts r1 x i a in
      let (e, o) = served_kind r1 x kx h c in
      let (d, j, k, cur, dr, sup) =
        sound.served x i (sym (ap status_of e) ∙ h) (sym (ap current_of e) ∙ c) in
      let other = λ (q : d ≡ r). o (sym (ap link_of q) ∙ sup) in
      let same = draft_kind (change now r d) d j (change-Kind d j) cur other in
      (
        change now r d,
        In-map (change now r) t d j,
        ap key_of same ∙ k ∙ sym fx.1,
        ap current_of same ∙ cur,
        ap status_of same ∙ dr,
        ap link_of same ∙ sup ∙ ap some (sym fx.0),
      )

  drafts_kept : (r1 : RuleDefinition J) → Origin r1 → r1.status ≡ draft → r1.is_current ≡ true
  drafts_kept r1 (x, i, a) h = let (fx, kx) = facts r1 x i a in draft_of kx
    where
      draft_of : Kind x r1 → r1.is_current ≡ true
      draft_of (inl (e, b, c)) = c
      draft_of (inr (inl (d, o, b, c))) = cc
      draft_of (inr (inr (d, o, e))) = ap current_of e ∙ sound.drafts x i (sym (ap status_of e) ∙ h)

  before_kept :
      (r1 : RuleDefinition J) (k : ℕ)
      → Origin r1
      → r1.supersedes_id ≡ some k
      → (s : RuleDefinition J) × In s Members
        × (s.id ≡ k)
        × (s.rule_key ≡ r1.rule_key)
        × (s.version < r1.version)
  before_kept r1 k (x, i, a) h =
      let (fx, kx) = facts r1 x i a in
      let (s, j, e, key, v) = sound.before x k i (sym fx.3 ∙ h) in
      let f = change-Kept s in
      (change now r s, In-map (change now r) t s j, f.0 ∙ e, f.1 ∙ key ∙ sym fx.1, rw (f.2, fx.2) v)

  changed-IsSound : IsSound Members
  changed-IsSound = record {
    ids = λ a b i j. ids_kept a b (origin a i) (origin b j);
    versions = λ a b i j. versions_kept a b (origin a i) (origin b j);
    highest = λ a b i j. highest_kept a b (origin a i) (origin b j);
    has_current = λ a i. has_current_kept a (origin a i);
    served = λ a i. served_kept a (origin a i);
    drafts = λ a i. drafts_kept a (origin a i);
    before = λ a k i. before_kept a k (origin a i);
  }
    where
      origin : (a : RuleDefinition J) → In a Members → Origin a
      origin a i = map-In (change now r) t a i

  pub write_published-IsSound : IsSound (write_published now r t)
  write_published-IsSound = subst IsSound (sym (write_published-map now r t)) changed-IsSound

  -- The draft itself is not the row that it supersedes.
  pub published_row : change now r r ≡ mark_published now r
  published_row = elim (supersede_cases r.supersedes_id r) [
    | inl (o, a, b) ↦
        let (s, j, e, k, v) = sound.before r r.id member o in
        let same = sound.ids s r j member e in absurd (grind arith)
    | inr (o, e) ↦ marked (supersede_if r.supersedes_id r) e
  ]
    where
      marked :
          (x : RuleDefinition J)
          → x ≡ r
          → (if x.id == r.id then mark_published now x else x) ≡ mark_published now r
      marked x e = rw (e, test_refl r.id) refl
