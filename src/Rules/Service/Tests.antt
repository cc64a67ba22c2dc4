-- ===== src/Rules/Service/Tests.antt =====
-- Runs of the service of rules, and the theorems at concrete tables.
use strat_align.Prelude.{
  ℕ, Bool, true, false, Option, none, some, [], ◌∷◌, ◌≡◌, ◌≢◌, refl, In, ok, err, ltb,
  if◌then◌else◌, inl, inr, sym, ap, ◌∙◌, arith,
}
use strat_align.Rules.Service.{
  rollup, variance_alert, RuleStatus, draft, published, superseded, RulePackage,
  CreateRuleDraftInput, RuleDefinition, Error, Table, find_current, find_latest, find_id,
  supersede_before, write_draft, write_published, require_draft, to_view, store_draft,
  create_draft_between, create_draft, publish, find_published, get_version, get_published, list,
  evaluate,
}
use strat_align.Rules.Service.Current.{IsSound}
use strat_align.Rules.Service.Histories.{Reached, empty, drafts, publishes, versions-IsSound}
use strat_align.Rules.Service.Reads.{version_read_back, publish_serves}

service : Unit {0}
unfolding find_current find_latest find_id supersede_before write_draft write_published
    require_draft to_view store_draft create_draft publish find_published get_version get_published
    list evaluate
service = tt

-- Documents are numbers: those below 10 are rollups, those below 20 alerts, and others are refused.
abbrev rules : RulePackage ℕ
rules = record {
  parse = λ j. if ltb j 20 then some j else none;
  rule_type = λ j. if ltb j 10 then rollup else variance_alert;
  trim = λ text. text;
  evaluate = λ document input. if ltb input 100 then some document else none;
}

abbrev input : ℕ → CreateRuleDraftInput ℕ
input document = record { rule_key = 3; name = 8; document = document; created_by = 6 }

abbrev row : ℕ → ℕ → ℕ → RuleStatus → Bool → Option ℕ → Option ℕ → RuleDefinition ℕ
row id document version status current published_at supersedes = record {
  id = id;
  rule_key = 3;
  name = 8;
  rule_type = if ltb document 10 then rollup else variance_alert;
  document_json = document;
  version = version;
  status = status;
  is_current = current;
  published_at = published_at;
  supersedes_id = supersedes;
  created_by_id = 6;
}

-- The first version published, and then a draft of the second.
abbrev first_draft : RuleDefinition ℕ
first_draft = row 41 5 1 draft true none none

abbrev second_draft : RuleDefinition ℕ
second_draft = row 42 15 2 draft true none (some 41)

abbrev drafted : Table ℕ
drafted = second_draft ∷ row 41 5 1 published false (some 100) none ∷ []

runs :
    (create_draft rules 41 (input 5) [] ≡ ok (first_draft, first_draft ∷ []))
    × (create_draft rules 43 (input 7) drafted ≡ err Error.draft_exists)
    × (create_draft rules 43 (input 70) drafted ≡ err Error.invalid_document)
    × (get_published rules 3 drafted ≡ ok (some (row 41 5 1 published false (some 100) none)))
    × (evaluate rules 41 9 drafted ≡ ok 5)
    × (evaluate rules 42 9 drafted ≡ err Error.not_published)
    × (list rules drafted ≡ ok (second_draft ∷ []))
    × (write_published 200 second_draft drafted
        ≡ row 42 15 2 published true (some 200) (some 41)
          ∷ row 41 5 1 superseded false (some 100) none
          ∷ [])
unfolding service
runs = (refl, refl, refl, refl, refl, refl, refl, refl)

first-fresh : (s : RuleDefinition ℕ) → In s [] → s.id ≢ 41
first-fresh s i e = i

apart : ¬ ◌≡◌ {A = ℕ} 41 42
apart h = omega arith

second-fresh :
    (s : RuleDefinition ℕ) → In s (row 41 5 1 published true (some 100) none ∷ []) → s.id ≢ 42
second-fresh s (inl e) h = apart (sym (ap (λ (r : RuleDefinition ℕ). r.id) e) ∙ h)
second-fresh s (inr i) h = i

drafted-Reached : Reached rules drafted
unfolding service
drafted-Reached =
    drafts 42 (input 15) second_draft
      (publishes 100 41 (ok (row 41 5 1 published true (some 100) none))
        (drafts 41 (input 5) first_draft empty first-fresh refl) refl)
      second-fresh refl

versions-IsSound_example : IsSound drafted
versions-IsSound_example = versions-IsSound drafted-Reached

publish_serves_example :
    (v : RuleDefinition ℕ) × (t' : Table ℕ) × (publish rules 200 42 drafted ≡ ok (ok v, t'))
    × (get_published rules 3 t' ≡ ok (some v))
    × (v.id ≡ 42)
    × (v.version ≡ 2)
    × (v.status ≡ published)
    × (v.published_at ≡ some 200)
publish_serves_example = publish_serves rules drafted-Reached second_draft 200 (inl refl) refl refl

version_read_back_example :
    (v : RuleDefinition ℕ) × (get_version rules 3 1 drafted ≡ ok (some v))
    × (v.id ≡ 41)
    × (v.rule_key ≡ 3)
    × (v.version ≡ 1)
    × (v.status ≡ published)
    × (rules.parse 5 ≡ some v.document_json)
version_read_back_example =
    version_read_back rules drafted-Reached (row 41 5 1 published false (some 100) none)
      (inr (inl refl))

-- Two calls for a key without rows: the second reads no current row, the first writes its row, and
-- the second then finds that row as the latest. Both rows are current drafts.
race :
    create_draft_between rules 42 (input 15) [] (first_draft ∷ []) (first_draft ∷ [])
    ≡ ok (second_draft, second_draft ∷ first_draft ∷ [])
unfolding service
race = refl
