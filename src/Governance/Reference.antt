-- ===== src/Governance/Reference.antt =====
-- `submitCase` and `assertApproved` of apps/backend/src/modules/governance/governance.service.ts:
-- what the other services rely on when a change of theirs needs an approval.
use strat_align.Prelude.{
  ℕ, Bool, true, false, not, Option, none, some, ◌≡◌, refl, ◌==◌, ◌||◌, ◌&&◌, ◌<◌, ltb, eq_of_test,
  test_refl, arith,
}
use strat_align.Machines.Approval.{
  ApprovalState, draft, approved, submit, WorkflowMachineDefinition,
  default_approval_workflow_definition, create_approval_machine,
}
use strat_align.Governance.Types.{
  ApprovalCase, approval, Error, Result, ok, err, ◌>>=◌, ◌>>◌, Db, same_state, or_throw, throw_if,
}
use strat_align.Governance.{
  ApprovalEngine, RuleOutcome, CreateApprovalCaseInput, Constraints, is_accepted, sla_or_default,
  create_case, transition, put_case, new_case,
}
use strat_align.Governance.Accepted.{bind-ok, throw_if-ok, or_throw-ok}
use strat_align.Governance.Permitted.{may_submit, permitted_iff}
use strat_align.Governance.History.{Reached, DecidedByAnother, Reached-IsSound}

pub record ApprovalReferenceInput : Type 0 where
  pub approval_case_id : ℕ
  pub entity_type : ℕ
  pub entity_id : ℕ

module _ {J : Type 0} where
  -- `assertApproved`
  unfoldable pub assert_approved : ApprovalReferenceInput → Db J → Result (Unit {0})
  assert_approved input db = do
    c ← or_throw (db.cases input.approval_case_id) Error.reference_missing
    throw_if (not (same_state c.current_state approved)) Error.reference_not_approved
    throw_if (not (c.entity_type == input.entity_type) || not (c.entity_id == input.entity_id))
        Error.reference_other_entity

  abbrev stored :
      (Db J → Result (Unit {0}) × Db J) → Db J → Result (Db J) → Result (Unit {0}) × Db J
  stored next db (err e) = (err e, db)
  stored next db (ok db') = next db'

  -- `submitCase`: the case stays created when the transition after it throws. `id` is its new key.
  unfoldable pub submit_case :
      ApprovalEngine
      → (J → Option WorkflowMachineDefinition)
      → Option (ℕ → Option J → RuleOutcome)
      → Constraints
      → ℕ
      → CreateApprovalCaseInput J
      → ℕ
      → Db J
      → Result (Unit {0}) × Db J
  submit_case engine parse rules constraints id input now db =
      stored
        (transition engine parse rules id
          (record { type = submit; actor_user_id = input.submitted_by; rationale = none }) now)
        db (create_case engine parse constraints id input db)

  -- What the constraints ask of a case that is created.
  pub record IsAcceptable (constraints : Constraints) (input : CreateApprovalCaseInput J)
      (participant : ℕ) : Type 0 where
    pub deadline : 0 < sla_or_default input.approval_sla_ms
    pub in_range : sla_or_default input.approval_sla_ms < 2147483648
    pub entity_type : constraints.is_blank input.entity_type ≡ false
    pub entity_id : constraints.is_blank input.entity_id ≡ false
    pub submitter : constraints.is_user input.submitted_by ≡ true
    pub assigned : input.approval_participant_id ≡ some participant
    pub approver : constraints.is_user participant ≡ true

not_decision : false ≡ true → ⊥
not_decision h = cc

not-not : (b : Bool) → not b ≡ false → b ≡ true
not-not true h = refl
not-not false h = cc

or_false : (a b : Bool) → (a || b) ≡ false → (a ≡ false) × (b ≡ false)
or_false a b h = ground arith

is_approved : (s : ApprovalState) → same_state s approved ≡ true → s ≡ approved
is_approved s h = ground arith

module _ {J : Type 0} (engine : ApprovalEngine) (parse : J → Option WorkflowMachineDefinition)
    (rules : Option (ℕ → Option J → RuleOutcome)) where
  -- In tables that any sequence of calls has reached, a reference that passes `assertApproved`
  -- names a case of that very entity; and if the case is of the default workflow, the decision log
  -- holds an approval of it by another user than its submitter.
  pub assert_approved-granted :
      {db : Db J} (input : ApprovalReferenceInput)
      → Reached engine parse rules db
      → assert_approved input db ≡ ok tt
      → (c : ApprovalCase J) × (db.cases input.approval_case_id ≡ some c)
        × (c.entity_type ≡ input.entity_type)
        × (c.entity_id ≡ input.entity_id)
        × (parse c.definition_json ≡ some default_approval_workflow_definition
            → DecidedByAnother engine parse rules approval c db.decision_log)
  unfolding assert_approved
  assert_approved-granted {db} input reached h =
      let (c, looked, h1) =
        bind-ok (or_throw (db.cases input.approval_case_id) Error.reference_missing) _ tt h in
      let (u, state_ok, h2) =
        bind-ok (throw_if (not (same_state c.current_state approved)) Error.reference_not_approved)
          _ tt h1 in
      let found = or_throw-ok (db.cases input.approval_case_id) Error.reference_missing c looked in
      let granted = is_approved c.current_state (not-not _ (throw_if-ok _ _ u state_ok)) in
      let (type_ok, id_ok) = or_false _ _ (throw_if-ok _ _ tt h2) in
      let sound = Reached-IsSound engine parse rules input.approval_case_id c reached found in
      (
        c,
        found,
        eq_of_test _ _ (not-not _ type_ok),
        eq_of_test _ _ (not-not _ id_ok),
        λ parsed. sound.approval_recorded parsed granted,
      )

  create_case-ok :
      (constraints : Constraints) (id : ℕ) (input : CreateApprovalCaseInput J) (db : Db J)
      (json : J) (d : WorkflowMachineDefinition)
      → input.definition_json ≡ some json
      → parse json ≡ some d
      → is_accepted constraints (new_case id json input (engine.start (create_approval_machine d)))
        ≡ true
      → create_case engine parse constraints id input db
        ≡ ok (put_case (new_case id json input (engine.start (create_approval_machine d))) db)
  unfolding create_case
  create_case-ok constraints id input db json d current parsed accepted =
      rw (current, parsed) (rw accepted refl)

  IsAcceptable-is_accepted :
      {constraints : Constraints} {input : CreateApprovalCaseInput J} {participant : ℕ} (id : ℕ)
      (json : J) (state : ApprovalState)
      → IsAcceptable constraints input participant
      → is_accepted constraints (new_case id json input state) ≡ true
  IsAcceptable-is_accepted id json state a =
      rw (a.entity_type, a.entity_id, a.submitter, a.assigned, a.approver)
        (both (positive _ a.deadline) (below _ a.in_range))
    where
      positive : (n : ℕ) → 0 < n → ltb 0 n ≡ true
      positive n h = ground arith

      below : (n : ℕ) → n < 2147483648 → ltb n (2147483648) ≡ true
      below n h = ground arith

      both : {p q : Bool} → p ≡ true → q ≡ true → (p && q && true && true && true && true) ≡ true
      both h k = rw (h, k) refl

  put_case_own : (c : ApprovalCase J) (db : Db J) → (put_case c db).cases c.id ≡ some c
  unfolding put_case
  put_case_own c db = rw (test_refl c.id) refl

  start_draft : engine.start (create_approval_machine default_approval_workflow_definition) ≡ draft
  unfolding create_approval_machine default_approval_workflow_definition
  start_draft = engine.start_lem _

  -- When the current definition is the default workflow, `submitCase` goes through, whoever submits
  -- and whatever the tables of cases hold, if the deadline is above 0 and fits the column, the
  -- entity's type and identifier are not blank, and submitter and approver are users.
  pub submit_case-goes :
      (constraints : Constraints) (id now participant : ℕ) (input : CreateApprovalCaseInput J)
      (db : Db J) (json : J)
      → input.definition_json ≡ some json
      → parse json ≡ some default_approval_workflow_definition
      → IsAcceptable constraints input participant
      → (submit_case engine parse rules constraints id input now db).0 ≡ ok tt
  unfolding submit_case
  submit_case-goes constraints id now participant input db json current parsed acceptable =
      let state = engine.start (create_approval_machine default_approval_workflow_definition) in
      let c = new_case id json input state in
      rw
        (create_case-ok constraints id input db json _ current parsed
          (IsAcceptable-is_accepted id json state acceptable))
        ((permitted_iff engine parse rules id now
            (record { type = submit; actor_user_id = input.submitted_by; rationale = none }) c
            (put_case c db) participant (put_case_own c db) parsed refl acceptable.assigned).1
          (rw start_draft may_submit, λ decides. absurd (not_decision decides)))
