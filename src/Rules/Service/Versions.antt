-- ===== src/Rules/Service/Versions.antt =====
-- The versions of rules after a call of `createDraft` or `publish`, and what the reads give.
use strat_align.Prelude.{
  find-In, find-none, ℕ, Bool, true, false, Option, none, some, [], ◌∷◌, leb, ◌≡◌, ◌≢◌, refl, sym,
  ap, ◌∙◌, ◌⊎◌, inl, inr, arith, In, ◌==◌, ◌&&◌, Bool-cases, Option-cases, eq_of_test, and_true,
}
use mathlib.Core.Path.{subst}
use strat_align.Rules.Service.{
  RuleStatus, draft, published, superseded, RulePackage, CreateRuleDraftInput, RuleDefinition,
  Table, is_draft, is_current_draft, later, update, retire, find_current, find_latest, write_draft,
  new_draft,
}
use strat_align.Rules.Service.Current.{IsSound}
use strat_align.Rules.Service.Drafts.{first-IsSound, next-IsSound}

draft_test : (s : RuleStatus) → is_draft s ≡ false → s ≢ draft
draft_test draft h e = cc
draft_test published h e = cc
draft_test superseded h e = cc

module _ {J : Type 0} where
  find_latest-none :
      (p : RuleDefinition J → Bool) (t : Table J)
      → ((s : RuleDefinition J) → In s t → p s ≡ false)
      → find_latest p t ≡ none
  unfolding find_latest
  find_latest-none p [] h = refl
  find_latest-none p (x ∷ t) h = rw (h x (inl refl)) (find_latest-none p t (λ s i. h s (inr i)))

  later-only :
      (x y : RuleDefinition J) (o : Option (RuleDefinition J))
      → y ≡ x
      → (o ≡ none) ⊎ (o ≡ some x)
      → later y o ≡ some x
  later-only x y none e h = ap some e
  later-only x y (some z) e (inl h) = cc
  later-only x y (some z) e (inr h) = elim (Bool-cases (leb z.version y.version)) [
    | inl first ↦ rw first (ap some e)
    | inr second ↦ rw second h
  ]

  find_latest-cases :
      (p : RuleDefinition J → Bool) (t : Table J) (x : RuleDefinition J)
      → ((s : RuleDefinition J) → In s t → p s ≡ true → s ≡ x)
      → (find_latest p t ≡ none) ⊎ (find_latest p t ≡ some x)
  unfolding find_latest
  find_latest-cases p [] x only = inl refl
  find_latest-cases p (y ∷ t) x only = elim (Bool-cases (p y)) [
    | inl fits ↦ inr (
        rw fits (
          later-only x y (find_latest p t) (only y (inl refl) fits)
            (find_latest-cases p t x (λ s i. only s (inr i)))))
    | inr no_fit ↦ rw no_fit (find_latest-cases p t x (λ s i. only s (inr i)))
  ]

  -- A search finds the only row that fits.
  pub find_latest-only :
      (p : RuleDefinition J → Bool) (t : Table J) (x : RuleDefinition J)
      → In x t
      → p x ≡ true
      → ((s : RuleDefinition J) → In s t → p s ≡ true → s ≡ x)
      → find_latest p t ≡ some x
  unfolding find_latest
  find_latest-only p [] x i h only = absurd i
  find_latest-only p (y ∷ t) x (inl e) h only =
      rw (← e, h)
        (later-only x x (find_latest p t) refl (find_latest-cases p t x (λ s i. only s (inr i))))
  find_latest-only p (y ∷ t) x (inr i) h only = elim (Bool-cases (p y)) [
    | inl fits ↦ rw fits (
        later-only x y (find_latest p t) (only y (inl refl) fits)
          (find_latest-cases p t x (λ s i. only s (inr i))))
    | inr no_fit ↦ rw no_fit (find_latest-only p t x i h (λ s i. only s (inr i)))
  ]

  key_test : (key : ℕ) (s : RuleDefinition J) → s.rule_key ≢ key → (s.rule_key == key) ≡ false
  key_test key s d = elim (Bool-cases (s.rule_key == key)) [
    | inl same ↦ absurd (d (eq_of_test s.rule_key key same))
    | inr other ↦ other
  ]

  -- A key without a current row has no rows.
  no_rows :
      (key : ℕ) (t : Table J)
      → IsSound t
      → find_current key t ≡ none
      → (s : RuleDefinition J) → In s t
      → s.rule_key ≢ key
  unfolding find_current
  no_rows key t sound none_found s i e =
      let (c, j, k, cur) = sound.has_current s i in
      current_missing c (k ∙ e) cur
        (find-none (λ r. r.rule_key == key && r.is_current) t c none_found j)
    where
      current_missing :
          (c : RuleDefinition J)
          → c.rule_key ≡ key
          → c.is_current ≡ true
          → (c.rule_key == key && c.is_current) ≡ false
          → ⊥
      current_missing c k cur h = ground arith

  module _ (rules : RulePackage J) (id : ℕ) (input : CreateRuleDraftInput J) (document : J)
      (t : Table J) where
    abbrev key : ℕ
    key = rules.trim input.rule_key

    draft_first :
        find_current key t ≡ none
        → (write_draft rules id input document t).1
          ≡ new_draft rules id input document (find_latest (λ r. r.rule_key == key) t) ∷ t
    unfolding write_draft
    draft_first h = rw h refl

    draft_next :
        (c : RuleDefinition J)
        → find_current key t ≡ some c
        → (write_draft rules id input document t).1
          ≡ new_draft rules id input document (some c) ∷ update c.id retire t
    unfolding write_draft
    draft_next c h = rw h refl

    pub write_draft-IsSound :
        IsSound t
        → ((s : RuleDefinition J) → In s t → s.id ≢ id)
        → is_current_draft (find_current key t) ≡ false
        → IsSound (write_draft rules id input document t).1
    unfolding find_current
    write_draft-IsSound sound fresh settled = elim (Option-cases (find_current key t)) [
      | inl no_row ↦
          let alone = no_rows key t sound no_row in
          let n = new_draft rules id input document in
          let no_latest =
            find_latest-none (λ r. r.rule_key == key) t (λ s i. key_test key s (alone s i)) in
          subst IsSound (sym (draft_first no_row ∙ ap (λ l. n l ∷ t) no_latest))
            (first-IsSound sound (n none) fresh refl refl alone refl)
      | inr (c, found) ↦
          let (member, fits) = find-In (λ r. r.rule_key == key && r.is_current) t c found in
          let (same_key, current) = and_true (c.rule_key == key) c.is_current fits in
          subst IsSound (sym (draft_next c found)) (
            next-IsSound sound (new_draft rules id input document (some c)) fresh refl refl c member
              current (draft_test c.status (subst (λ o. is_current_draft o ≡ false) found settled))
              (sym (eq_of_test c.rule_key key same_key)) refl refl)
    ]
