-- ===== src/Rules/Service/Histories.antt =====
-- The versions of rules after calls of `createDraft` and `publish` one after another, and what the
-- reads then give.
use strat_align.Prelude.{
  In-map, find-In, find-none, throw_if-false, or_throw, or_throw-some, not-false, ℕ, Bool, true,
  false, some, [], ◌≡◌, ◌≢◌, refl, sym, ap, ◌∙◌, inl, inr, In, ◌==◌, ◌&&◌, find, ok, Option-cases,
  eq_of_test, test_refl, and_true, then_ok, bind_ok, ok-cancel, ◌>>=◌,
}
use mathlib.Core.Path.{subst}
use strat_align.Rules.Service.{
  RuleStatus, draft, published, superseded, RulePackage, CreateRuleDraftInput, RuleDefinition,
  Error, Table, Result, is_draft, is_current_draft, same_status, mark_published, may_publish,
  find_current, find_id, write_draft, write_published, require_draft, to_view, create_draft,
  store_draft, check_draft, publish, find_published,
}
use strat_align.Rules.Service.Current.{IsSound, published_one}
use strat_align.Rules.Service.Published.{
  change, write_published-map, write_published-IsSound, published_row,
}
use strat_align.Rules.Service.Versions.{write_draft-IsSound, find_latest-only}

is_draft-true : (s : RuleStatus) → is_draft s ≡ true → s ≡ draft
is_draft-true draft h = refl
is_draft-true published h = cc
is_draft-true superseded h = cc

same_status-published : (s : RuleStatus) → same_status s published ≡ true → s ≡ published
same_status-published draft h = cc
same_status-published published h = refl
same_status-published superseded h = cc

module _ {J : Type 0} where
  -- The tables after calls that went through one after another; a call that throws in its
  -- transaction changes nothing.
  pub data Reached (rules : RulePackage J) : Table J → Type 0 where
    empty : Reached rules []
    drafts :
        {t t' : Table J} (id : ℕ) (input : CreateRuleDraftInput J) (view : RuleDefinition J)
        → Reached rules t
        → ((s : RuleDefinition J) → In s t → s.id ≢ id)
        → create_draft rules id input t ≡ ok (view, t')
        → Reached rules t'
    publishes :
        {t t' : Table J} (now id : ℕ) (view : Result (RuleDefinition J))
        → Reached rules t
        → publish rules now id t ≡ ok (view, t')
        → Reached rules t'

  -- A call of `createDraft` that goes through writes the draft of a parsed document.
  pub create_draft-writes :
      (rules : RulePackage J) (id : ℕ) (input : CreateRuleDraftInput J) (t t' : Table J)
      (view : RuleDefinition J)
      → create_draft rules id input t ≡ ok (view, t')
      → (document : J) × (v : RuleDefinition J) × (is_current_draft
            (find_current (rules.trim input.rule_key) t)
          ≡ false)
        × (to_view rules (write_draft rules id input document t).0 ≡ ok v)
        × ((write_draft rules id input document t).1 ≡ t')
  unfolding create_draft store_draft write_draft
  create_draft-writes rules id input t t' view h =
      let (document, parsed, h1) =
        bind_ok (or_throw (rules.parse input.document) Error.invalid_document)
          (store_draft rules id input t) (view, t') h in
      let write = write_draft rules id input document t in
      let (h2, made) =
        (then_ok _ (to_view rules write.0 >>= λ v. ok (v, write.1)) (view, t')).0 h1 in
      let (h3, settled) = (then_ok _ _ tt).0 h2 in
      let (v, viewed, last) =
        bind_ok (to_view rules write.0) (λ v. ok (v, write.1)) (view, t') made in
      (document, v, throw_if-false _ _ settled, viewed, ap second (ok-cancel last))
    where
      second : RuleDefinition J × Table J → Table J
      second p = p.1

  may_publish-true :
      (r : RuleDefinition J) → may_publish r ≡ true → (r.status ≡ draft) × (r.is_current ≡ true)
  may_publish-true r h =
      let (a, b) = and_true (is_draft r.status) r.is_current h in (is_draft-true r.status a, b)

  may_publish-of :
      (r : RuleDefinition J) → r.status ≡ draft → r.is_current ≡ true → may_publish r ≡ true
  may_publish-of r a b = rw (a, b) refl

  check_draft-passes : (x : RuleDefinition J) → may_publish x ≡ true → check_draft x ≡ ok x
  check_draft-passes x h = rw h refl

  check_draft-ok :
      (x r : RuleDefinition J) → check_draft x ≡ ok r → (x ≡ r) × (may_publish x ≡ true)
  check_draft-ok x r h =
      let (may, same) = (then_ok _ (ok x) r).0 h in
      (ok-cancel same, not-false (may_publish x) (throw_if-false _ _ may))

  -- A call of `publish` that goes through publishes a current draft.
  pub publish-writes :
      (rules : RulePackage J) (now id : ℕ) (t t' : Table J) (view : Result (RuleDefinition J))
      → publish rules now id t ≡ ok (view, t')
      → (r : RuleDefinition J) × In r t
        × (r.status ≡ draft)
        × (r.is_current ≡ true)
        × (write_published now r t ≡ t')
  unfolding publish require_draft find_id
  publish-writes rules now id t t' view h =
      let finish = λ (r : RuleDefinition J).
        ok (to_view rules (mark_published now r), write_published now r t) in
      let (r, checked, last) = bind_ok (require_draft id t) finish (view, t') h in
      let (x, found, h1) =
        bind_ok (or_throw (find_id id t) Error.not_current_draft) check_draft r checked in
      let (same, may) = check_draft-ok x r h1 in
      let (is_draft, current) = may_publish-true x may in
      let member = (find-In (λ s. s.id == id) t x (or_throw-some (find_id id t) _ x found)).0 in
      (
        r,
        subst (λ q. In q t) same member,
        subst (λ (q : RuleDefinition J). q.status ≡ draft) same is_draft,
        subst (λ (q : RuleDefinition J). q.is_current ≡ true) same current,
        ap second (ok-cancel last),
      )
    where
      second : Result (RuleDefinition J) × Table J → Table J
      second p = p.1

  -- Whatever calls of createDraft and publish were made one after another: an identifier, and a
  -- version of a rule key, belong to one row; a key that has rows has one current row, of its
  -- highest version, and at most one published row; only a current row is a draft; and a
  -- published row that is not current is the one that its key's current draft supersedes.
  pub versions-IsSound : {rules : RulePackage J} {t : Table J} → Reached rules t → IsSound t
  versions-IsSound empty = record {
    ids = λ r s i j e. absurd i;
    versions = λ r s i j k v. absurd i;
    highest = λ r s i j k c. absurd i;
    has_current = λ r i. absurd i;
    served = λ r i h c. absurd i;
    drafts = λ r i h. absurd i;
    before = λ r k i h. absurd i;
  }
  versions-IsSound {rules} (drafts {t} id input view r fresh h) =
      let (document, v, settled, viewed, written) = create_draft-writes rules id input t _ view h in
      subst IsSound written
        (write_draft-IsSound rules id input document t (versions-IsSound r) fresh settled)
  versions-IsSound {rules} (publishes {t} now id view r h) =
      let (x, member, is_draft, current, written) = publish-writes rules now id t _ view h in
      subst IsSound written
        (write_published-IsSound (versions-IsSound r) now x member is_draft current)

  module _ {rules : RulePackage J} {t : Table J} (reached : Reached rules t) (r : RuleDefinition J)
      (member : In r t) (is_draft : r.status ≡ draft) (current : r.is_current ≡ true) where
    find_id-member : find_id r.id t ≡ some r
    unfolding find_id
    find_id-member = elim (Option-cases (find (λ s. s.id == r.id) t)) [
      | inl missing ↦
          absurd (both (find-none (λ s. s.id == r.id) t r missing member) (test_refl r.id))
      | inr (x, found) ↦
          let (i, same) = find-In (λ s. s.id == r.id) t x found in
          found ∙ ap some ((versions-IsSound reached).ids x r i member (eq_of_test x.id r.id same))
    ]
      where
        both : {b : Bool} → b ≡ false → b ≡ true → ⊥
        both h k = cc

    require_draft-member : require_draft r.id t ≡ ok r
    unfolding require_draft
    require_draft-member =
        ap (λ o. or_throw o Error.not_current_draft >>= check_draft) find_id-member
        ∙ check_draft-passes r (may_publish-of r is_draft current)

    abbrev finish : ℕ → RuleDefinition J → Result (Result (RuleDefinition J) × Table J)
    finish now x = ok (to_view rules (mark_published now x), write_published now x t)

    -- `publish` of a current draft writes, and the published row of the key is then that row.
    pub publish-find_published :
        (now : ℕ)
        → (publish rules now r.id t
            ≡ ok (to_view rules (mark_published now r), write_published now r t))
          × (find_published r.rule_key (write_published now r t) ≡ some (mark_published now r))
    unfolding publish require_draft find_published
    publish-find_published now =
        let sound = versions-IsSound reached in
        let after = write_published-IsSound sound now r member is_draft current in
        let row = mark_published now r in
        let inside =
          subst (λ k. In k (write_published now r t))
            (published_row sound now r member is_draft current)
            (subst (λ ts. In (change now r r) ts) (sym (write_published-map now r t))
              (In-map (change now r) t r member)) in
        (
          ap (λ q. q >>= finish now) require_draft-member,
          find_latest-only (λ s. s.rule_key == r.rule_key && same_status s.status published)
              (write_published now r t) row inside (rw (test_refl r.rule_key) refl)
              (λ s i h.
                let (key, status) =
                  and_true (s.rule_key == r.rule_key) (same_status s.status published) h in
                published_one after s row i inside (eq_of_test s.rule_key r.rule_key key)
                  (same_status-published s.status status) refl),
        )
