-- ===== src/Rules/Service.antt =====
-- The versions of rule documents, apps/backend/src/modules/rules/rules.service.ts: `createDraft`,
-- `publish` and the reads. The schema of documents is a parameter; a text that `trim` leaves empty
-- is the number 0, and the spellings of rule types and statuses in the database and the package are
-- one type, since the functions between them rename.
pub mod Current
pub mod Drafts
pub mod Published
pub mod Versions
pub mod Histories
pub mod Reads
mod Tests
use strat_align.Prelude.{
  ℕ, ◌+◌, Bool, true, false, Option, none, some, List, [], ◌∷◌, ◌==◌, ◌&&◌, ◌||◌, leb, not,
  if◌then◌else◌, find, keep, map, Outcome, ok, err, throw_if, or_throw, ◌>>=◌, ◌>>◌,
}

pub data RuleType : Type 0 where
  threshold_status rollup variance_alert rag_aggregation gate_criteria : RuleType

pub data RuleStatus : Type 0 where
  draft published superseded : RuleStatus

abbrev pub same_type : RuleType → RuleType → Bool
same_type threshold_status threshold_status = true
same_type rollup rollup = true
same_type variance_alert variance_alert = true
same_type rag_aggregation rag_aggregation = true
same_type gate_criteria gate_criteria = true
same_type _ _ = false

abbrev pub same_status : RuleStatus → RuleStatus → Bool
same_status draft draft = true
same_status published published = true
same_status superseded superseded = true
same_status _ _ = false

-- The package of rule documents: `ruleDocumentSchema.parse`, the type of a document, `trim` of a
-- text, and `evaluateRule` after `parseRuleInput`, with inputs and results in `J`.
pub record RulePackage (J : Type 0) : Type 0 where
  pub parse : J → Option J
  pub rule_type : J → RuleType
  pub trim : ℕ → ℕ
  pub evaluate : J → J → Option J

pub record CreateRuleDraftInput (J : Type 0) : Type 0 where
  pub rule_key : ℕ
  pub name : ℕ
  pub document : J
  pub created_by : ℕ

-- A row of `ruleDefinition`.
pub record RuleDefinition (J : Type 0) : Type 0 where
  pub id : ℕ
  pub rule_key : ℕ
  pub name : ℕ
  pub rule_type : RuleType
  pub document_json : J
  pub version : ℕ
  pub status : RuleStatus
  pub is_current : Bool
  pub published_at : Option ℕ
  pub supersedes_id : Option ℕ
  pub created_by_id : ℕ

pub data Error : Type 0 where
  invalid_document key_and_name_required draft_exists not_current_draft : Error
  type_differs not_published invalid_input : Error

abbrev pub Result {ℓ} : Type ℓ → Type ℓ
Result A = Outcome Error A

abbrev pub is_draft : RuleStatus → Bool
is_draft draft = true
is_draft _ = false

-- The table lists its rows with the latest first.
abbrev pub Table : Type 0 → Type 0
Table J = List (RuleDefinition J)

module _ {J : Type 0} where
  -- `findFirst` for the current row of a key
  unfoldable pub find_current : ℕ → Table J → Option (RuleDefinition J)
  find_current key table = find (λ r. r.rule_key == key && r.is_current) table

  abbrev pub later : RuleDefinition J → Option (RuleDefinition J) → Option (RuleDefinition J)
  later r none = some r
  later r (some s) = if leb s.version r.version then some r else some s

  -- `findFirst` with a condition and the highest version first
  unfoldable pub find_latest : (RuleDefinition J → Bool) → Table J → Option (RuleDefinition J)
  find_latest p [] = none
  find_latest p (r ∷ rs) = let rest = find_latest p rs in if p r then later r rest else rest

  unfoldable pub find_id : ℕ → Table J → Option (RuleDefinition J)
  find_id id table = find (λ r. r.id == id) table

  -- `update` of the row with an identifier
  abbrev pub update : ℕ → (RuleDefinition J → RuleDefinition J) → Table J → Table J
  update id change table = map (λ r. if r.id == id then change r else r) table

  abbrev pub retire : RuleDefinition J → RuleDefinition J
  retire r = record r { is_current = false }

  abbrev pub supersede : RuleDefinition J → RuleDefinition J
  supersede r = record r { status = superseded; is_current = false }

  abbrev pub mark_published : ℕ → RuleDefinition J → RuleDefinition J
  mark_published now r = record r { status = published; published_at = some now; is_current = true }

  abbrev pub retire_current : Option (RuleDefinition J) → Table J → Table J
  retire_current none table = table
  retire_current (some current) table = update current.id retire table

  abbrev pub or_else :
      Option (RuleDefinition J) → Option (RuleDefinition J) → Option (RuleDefinition J)
  or_else none latest = latest
  or_else (some current) latest = some current

  abbrev pub next_version : Option (RuleDefinition J) → ℕ
  next_version none = 0 + 1
  next_version (some latest) = latest.version + 1

  abbrev pub id_of : Option (RuleDefinition J) → Option ℕ
  id_of none = none
  id_of (some latest) = some latest.id

  abbrev pub is_current_draft : Option (RuleDefinition J) → Bool
  is_current_draft none = false
  is_current_draft (some current) = is_draft current.status

  unfoldable pub supersede_before : Option ℕ → Table J → Table J
  supersede_before none table = table
  supersede_before (some id) table = update id supersede table

  abbrev pub may_publish : RuleDefinition J → Bool
  may_publish r = is_draft r.status && r.is_current

  -- The table after the transaction of `publish`.
  unfoldable pub write_published : ℕ → RuleDefinition J → Table J → Table J
  write_published now r table =
      update r.id (mark_published now) (supersede_before r.supersedes_id table)

  abbrev pub check_draft : RuleDefinition J → Result (RuleDefinition J)
  check_draft r = throw_if (not (may_publish r)) not_current_draft >> ok r

  -- The check of `publish`.
  unfoldable pub require_draft : ℕ → Table J → Result (RuleDefinition J)
  require_draft rule_id table = or_throw (find_id rule_id table) not_current_draft >>= check_draft

  unfoldable pub find_published : ℕ → Table J → Option (RuleDefinition J)
  find_published key table =
      find_latest (λ r. r.rule_key == key && same_status r.status published) table

  module _ (rules : RulePackage J) where
    -- `toView`; the view of a row is the row with its document parsed.
    unfoldable pub to_view : RuleDefinition J → Result (RuleDefinition J)
    to_view r = or_throw (rules.parse r.document_json) invalid_document >>= λ document.
        throw_if (not (same_type (rules.rule_type document) r.rule_type)) type_differs
        >> ok (record r { rule_type = rules.rule_type document; document_json = document })

    abbrev pub new_draft :
        ℕ → CreateRuleDraftInput J → J → Option (RuleDefinition J) → RuleDefinition J
    new_draft id input document latest = record {
      id = id;
      rule_key = rules.trim input.rule_key;
      name = rules.trim input.name;
      rule_type = rules.rule_type document;
      document_json = document;
      version = next_version latest;
      status = draft;
      is_current = true;
      published_at = none;
      supersedes_id = id_of latest;
      created_by_id = input.created_by;
    }

    -- The transaction of `createDraft`, whose statements run without a lock: the tables that its
    -- two reads see and the one that its writes find, and the latter after them with the row
    -- created.
    abbrev pub write_draft_between :
        ℕ → CreateRuleDraftInput J → J → Table J → Table J → Table J → RuleDefinition J × Table J
    write_draft_between id input document read found table =
        let key = rules.trim input.rule_key in
        let current = find_current key read in
        let latest = or_else current (find_latest (λ r. r.rule_key == key) found) in
        let created = new_draft id input document latest in
        (created, created ∷ retire_current current table)

    -- The transaction when no other call writes during it.
    unfoldable pub write_draft :
        ℕ → CreateRuleDraftInput J → J → Table J → RuleDefinition J × Table J
    write_draft id input document table = write_draft_between id input document table table table

    abbrev pub is_blank : CreateRuleDraftInput J → Bool
    is_blank input = rules.trim input.rule_key == 0 || rules.trim input.name == 0

    -- `createDraft` after the document is parsed, and with the view of the row that is created.
    abbrev pub store_draft_between :
        ℕ
        → CreateRuleDraftInput J
        → Table J
        → Table J
        → Table J
        → J
        → Result (RuleDefinition J × Table J)
    store_draft_between id input read found table document =
        throw_if (is_blank input) key_and_name_required
        >> throw_if (is_current_draft (find_current (rules.trim input.rule_key) read)) draft_exists
        >> (to_view (write_draft_between id input document read found table).0 >>= λ view.
            ok (view, (write_draft_between id input document read found table).1))

    -- `createDraft`; `id` is the identifier that the database gives the row.
    abbrev pub create_draft_between :
        ℕ
        → CreateRuleDraftInput J
        → Table J
        → Table J
        → Table J
        → Result (RuleDefinition J × Table J)
    create_draft_between id input read found table =
        or_throw (rules.parse input.document) invalid_document
        >>= store_draft_between id input read found table

    -- The two when no other call writes during them.
    unfoldable pub store_draft :
        ℕ → CreateRuleDraftInput J → Table J → J → Result (RuleDefinition J × Table J)
    store_draft id input table document = store_draft_between id input table table table document

    unfoldable pub create_draft :
        ℕ → CreateRuleDraftInput J → Table J → Result (RuleDefinition J × Table J)
    create_draft id input table = create_draft_between id input table table table

    -- The table after `publish`, and what the call returns, whose view is made after the
    -- transaction.
    unfoldable pub publish : ℕ → ℕ → Table J → Result (Result (RuleDefinition J) × Table J)
    publish now rule_id table = require_draft rule_id table >>= λ r.
        ok (to_view (mark_published now r), write_published now r table)

    abbrev pub views : List (RuleDefinition J) → Result (List (RuleDefinition J))
    views [] = ok []
    views (r ∷ rs) = to_view r >>= λ v. views rs >>= λ vs. ok (v ∷ vs)

    abbrev pub view_found : Option (RuleDefinition J) → Result (Option (RuleDefinition J))
    view_found none = ok none
    view_found (some r) = to_view r >>= λ v. ok (some v)

    -- `list`, in the order of the table
    unfoldable pub list : Table J → Result (List (RuleDefinition J))
    list table = views (keep (λ r. r.is_current) table)

    unfoldable pub get_version : ℕ → ℕ → Table J → Result (Option (RuleDefinition J))
    get_version key version table =
        view_found (find (λ r. r.rule_key == key && r.version == version) table)

    unfoldable pub get_published : ℕ → Table J → Result (Option (RuleDefinition J))
    get_published key table = view_found (find_published key table)

    -- `evaluate` of the published rule of an identifier.
    unfoldable pub evaluate : ℕ → J → Table J → Result J
    evaluate rule_id input table = or_throw (find_id rule_id table) not_published >>= λ r.
        throw_if (not (same_status r.status published)) not_published
        >> (to_view r >>= λ view. or_throw (rules.evaluate view.document_json input) invalid_input)
