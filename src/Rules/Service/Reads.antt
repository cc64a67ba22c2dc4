-- ===== src/Rules/Service/Reads.antt =====
-- What `publish`, `getPublished` and `getVersion` return of the tables that calls have reached.
use strat_align.Prelude.{
  throw_if, throw_if-false, not-false, or_throw, or_throw-some, ℕ, Bool, true, false, some, none,
  ◌≡◌, refl, sym, ap, ◌∙◌, ◌==◌, ◌&&◌, find, ok, In, inl, inr, if◌then◌else◌, Bool-cases, Option,
  Option-cases, map-In, find-In, find-none, eq_of_test, test_refl, and_true, then_ok, bind_ok,
  ◌>>=◌, ◌>>◌, not,
}
use mathlib.Core.Path.{subst}
use strat_align.Rules.Service.{
  RulePackage, CreateRuleDraftInput, RuleDefinition, Error, Table, Result, draft, published,
  same_type, find_current, retire, supersede, mark_published, retire_current, update,
  supersede_before, write_draft, write_published, to_view, view_found, publish, get_version,
  get_published,
}
use strat_align.Rules.Service.Histories.{
  Reached, empty, drafts, publishes, create_draft-writes, publish-writes, versions-IsSound,
  publish-find_published,
}

module _ {J : Type 0} (rules : RulePackage J) where
  -- The document of a row parses, and to the type that the row says.
  abbrev IsViewable : RuleDefinition J → Type 0
  IsViewable r =
      (document : J) × (rules.parse r.document_json ≡ some document)
      × (same_type (rules.rule_type document) r.rule_type ≡ true)

  abbrev AllViewable : Table J → Type 0
  AllViewable t = (r : RuleDefinition J) → In r t → IsViewable r

  abbrev viewed : RuleDefinition J → J → RuleDefinition J
  viewed r document = record r { rule_type = rules.rule_type document; document_json = document }

  abbrev check_type : RuleDefinition J → J → Result (RuleDefinition J)
  check_type r document =
      throw_if (not (same_type (rules.rule_type document) r.rule_type)) Error.type_differs
      >> ok (viewed r document)

  to_view-IsViewable : (r v : RuleDefinition J) → to_view rules r ≡ ok v → IsViewable r
  unfolding to_view
  to_view-IsViewable r v h =
      let (document, parsed, rest) =
        bind_ok (or_throw (rules.parse r.document_json) Error.invalid_document) (check_type r) v
          h in
      (
        document,
        or_throw-some (rules.parse r.document_json) _ document parsed,
        not-false _ (throw_if-false _ _ ((then_ok _ (ok (viewed r document)) v).0 rest).0),
      )

  IsViewable-to_view :
      (r : RuleDefinition J) (h : IsViewable r) → to_view rules r ≡ ok (viewed r h.0)
  unfolding to_view
  IsViewable-to_view r (document, parsed, same) = rw parsed (rw same refl)

  update-AllViewable :
      (id : ℕ) (change : RuleDefinition J → RuleDefinition J) (t : Table J)
      → ((r : RuleDefinition J) → IsViewable r → IsViewable (change r))
      → AllViewable t
      → AllViewable (update id change t)
  update-AllViewable id change t keeps all r i =
      let (x, j, e) = map-In (λ (x : RuleDefinition J). if x.id == id then change x else x) t r i in
      subst (λ q. IsViewable q) (sym e)
        (elim (Bool-cases (x.id == id)) [
          | inl own ↦ rw own (keeps x (all x j))
          | inr other ↦ rw other (all x j)
        ])

  retire_current-AllViewable :
      (o : Option (RuleDefinition J)) (t : Table J)
      → AllViewable t
      → AllViewable (retire_current o t)
  retire_current-AllViewable none t all = all
  retire_current-AllViewable (some c) t all = update-AllViewable c.id retire t (λ r h. h) all

  supersede_before-AllViewable :
      (o : Option ℕ) (t : Table J) → AllViewable t → AllViewable (supersede_before o t)
  unfolding supersede_before
  supersede_before-AllViewable none t all = all
  supersede_before-AllViewable (some id) t all = update-AllViewable id supersede t (λ r h. h) all

  write_draft-AllViewable :
      (id : ℕ) (input : CreateRuleDraftInput J) (document : J) (t : Table J) (v : RuleDefinition J)
      → to_view rules (write_draft rules id input document t).0 ≡ ok v
      → AllViewable t
      → AllViewable (write_draft rules id input document t).1
  unfolding write_draft
  write_draft-AllViewable id input document t v h all r i = elim i [
    | inl new ↦ subst (λ q. IsViewable q) (sym new) (to_view-IsViewable _ v h)
    | inr old ↦ retire_current-AllViewable (find_current (rules.trim input.rule_key) t) t all r old
  ]

  write_published-AllViewable :
      (now : ℕ) (r : RuleDefinition J) (t : Table J)
      → AllViewable t
      → AllViewable (write_published now r t)
  unfolding write_published
  write_published-AllViewable now r t all =
      update-AllViewable r.id (mark_published now) (supersede_before r.supersedes_id t) (λ x h. h)
        (supersede_before-AllViewable r.supersedes_id t all)

  Reached-AllViewable :
      {t : Table J} → Reached rules t → (r : RuleDefinition J) → In r t → IsViewable r
  Reached-AllViewable empty r i = absurd i
  Reached-AllViewable (drafts {t} id input view reached fresh h) r i =
      let (document, v, settled, seen, written) = create_draft-writes rules id input t _ view h in
      subst (λ k. AllViewable k) written
        (write_draft-AllViewable id input document t v seen (Reached-AllViewable reached)) r i
  Reached-AllViewable (publishes {t} now id view reached h) r i =
      let (x, member, is_draft, current, written) = publish-writes rules now id t _ view h in
      subst (λ k. AllViewable k) written
        (write_published-AllViewable now x t (Reached-AllViewable reached)) r i

  abbrev of_version : RuleDefinition J → RuleDefinition J → Bool
  of_version r s = s.rule_key == r.rule_key && s.version == r.version

  of_version_self : (r : RuleDefinition J) → of_version r r ≡ true
  of_version_self r = rw (test_refl r.rule_key, test_refl r.version) refl

  clash : {b : Bool} → b ≡ false → b ≡ true → ⊥
  clash h k = cc

  version_found :
      {t : Table J} (reached : Reached rules t) (r : RuleDefinition J)
      → In r t
      → find (of_version r) t ≡ some r
  version_found {t} reached r member = elim (Option-cases (find (of_version r) t)) [
    | inl missing ↦ absurd (clash (find-none (of_version r) t r missing member) (of_version_self r))
    | inr (x, gives) ↦
        let sound = versions-IsSound reached in
        let (i, holds) = find-In (of_version r) t x gives in
        let (key, version) = and_true (x.rule_key == r.rule_key) (x.version == r.version) holds in
        gives
        ∙ ap some (
            sound.ids x r i member (
              sound.versions x r i member (eq_of_test x.rule_key r.rule_key key)
                (eq_of_test x.version r.version version)))
  ]

  -- After calls of createDraft and publish one after another, getVersion with the key and the
  -- version of any row of the table gives that row: its identifier, its key, its version and its
  -- status, and its document as the schema of documents parses it.
  pub version_read_back :
      {t : Table J} (reached : Reached rules t) (r : RuleDefinition J)
      → In r t
      → (v : RuleDefinition J) × (get_version rules r.rule_key r.version t ≡ ok (some v))
        × (v.id ≡ r.id)
        × (v.rule_key ≡ r.rule_key)
        × (v.version ≡ r.version)
        × (v.status ≡ r.status)
        × (rules.parse r.document_json ≡ some v.document_json)
  unfolding get_version
  version_read_back {t} reached r member =
      let view = Reached-AllViewable reached r member in
      (
        viewed r view.0,
        ap (view_found rules) (version_found reached r member)
            ∙ ap (λ q. q >>= λ w. ok (some w)) (IsViewable-to_view r view),
        refl,
        refl,
        refl,
        refl,
        view.1,
      )

  -- After calls of createDraft and publish one after another, publish of a current draft goes
  -- through and returns a view of it, published at that time, and getPublished for its key then
  -- gives that view.
  pub publish_serves :
      {t : Table J} (reached : Reached rules t) (r : RuleDefinition J) (now : ℕ)
      → In r t
      → r.status ≡ draft
      → r.is_current ≡ true
      → (v : RuleDefinition J) × (t' : Table J) × (publish rules now r.id t ≡ ok (ok v, t'))
        × (get_published rules r.rule_key t' ≡ ok (some v))
        × (v.id ≡ r.id)
        × (v.version ≡ r.version)
        × (v.status ≡ published)
        × (v.published_at ≡ some now)
  unfolding get_published
  publish_serves {t} reached r now member is_draft current =
      let view = Reached-AllViewable reached r member in
      let (goes, found) = publish-find_published reached r member is_draft current now in
      let seen = IsViewable-to_view (mark_published now r) view in
      (
        viewed (mark_published now r) view.0,
        write_published now r t,
        goes ∙ ap (λ q. ok (q, write_published now r t)) seen,
        ap (view_found rules) found ∙ ap (λ q. q >>= λ w. ok (some w)) seen,
        refl,
        refl,
        refl,
        refl,
      )
