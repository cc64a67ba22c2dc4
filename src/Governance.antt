-- ===== src/Governance.antt =====
-- apps/backend/src/modules/governance/governance.service.ts: approval cases, run by the approval
-- machine inside one database transaction. A call that throws leaves the tables as they were. The
-- advisory lock makes the calls on one case follow one another, so a call is one step. The
-- parameters are the state machine library, the schema check of a stored definition (`none` when it
-- throws), and the rules service (`none` when the service is built without one).
pub mod Types
pub mod Accepted
pub mod Settled
pub mod DefaultMoves
pub mod History
pub mod Permitted
pub mod Escalation
pub mod Reference
mod Tests
use strat_align.Prelude.{
  ltb, ◌&&◌, ℕ, suc, ◌+◌, Bool, true, false, not, Option, none, some, List, [], ◌∷◌, ◌==◌, ◌||◌,
  if◌then◌else◌,
}
use strat_align.Iam.{enforce_separation_of_duties}
use strat_align.Machines.Engine.{Engine}
use strat_align.Machines.Approval.{
  ApprovalState, EventType, approve, reject, request_changes, GuardRef, ActionRef, record_decision,
  record_changes_requested, schedule_escalation, emit_approval_granted, emit_approval_rejected,
  ProposedChange, ApprovalMachineContext, ApprovalMachineEvent, InputSource, from_before,
  from_after, from_impact_summary, GuardDefinition, duties, rule, TransitionDefinition,
  WorkflowMachineDefinition, create_approval_machine, is_decision, provided_guard,
}
use Types.{
  Snapshot, ApprovalCase, Decision, approval, rejection, changes, DecisionLogEntry,
  GovernanceEventType, approval_granted, approval_rejected, DomainEvent, pending, decided, raised,
  Error, Result, ok, err, ◌>>=◌, ◌>>◌, throw_if, or_throw, Db, same_state,
}

abbrev pub ApprovalEngine : Type 0
ApprovalEngine = Engine ApprovalState EventType GuardRef ActionRef

-- What `rules.evaluate` gives: it throws, or its result has a Boolean `passed`, or it has not.
pub data RuleOutcome : Type 0 where
  threw : RuleOutcome
  passed : Bool → RuleOutcome
  no_verdict : RuleOutcome

abbrev pub is_request_changes : EventType → Bool
is_request_changes request_changes = true
is_request_changes _ = false

abbrev pub is_approve : EventType → Bool
is_approve approve = true
is_approve _ = false

abbrev action_index : ActionRef → ℕ
action_index ActionRef.record_submission = 0
action_index record_decision = 1
action_index record_changes_requested = 2
action_index ActionRef.record_resubmission = 3
action_index schedule_escalation = 4
action_index emit_approval_granted = 5
action_index emit_approval_rejected = 6

-- `effects.has`, on the actions that ran
abbrev pub has_effect : List ActionRef → ActionRef → Bool
has_effect [] a = false
has_effect (x ∷ xs) a = action_index x == action_index a || has_effect xs a

abbrev same_event_type : GovernanceEventType → GovernanceEventType → Bool
same_event_type approval_granted approval_granted = true
same_event_type approval_rejected approval_rejected = true
same_event_type _ _ = false

abbrev verdict : RuleOutcome → Result (Option Bool)
verdict threw = err Error.rule_failed
verdict no_verdict = err Error.rule_not_boolean
verdict (passed b) = ok (some b)

abbrev configured_guard : Option TransitionDefinition → Option GuardDefinition
configured_guard none = none
configured_guard (some t) = t.guard

abbrev pub decision_event_type : List ActionRef → Option GovernanceEventType
decision_event_type effects =
    if has_effect effects emit_approval_granted
    then some approval_granted
    else if has_effect effects emit_approval_rejected
    then some approval_rejected
    else none

module _ {J : Type 0} where
  -- Whether two events have the same dedupe key.
  abbrev pub same_key : DomainEvent J → DomainEvent J → Bool
  same_key (pending c _ _ _ deadline) (pending d _ _ _ deadline') = c == d && deadline == deadline'
  same_key (decided t c _ _ _ _ _ _) (decided u d _ _ _ _ _ _) = same_event_type t u && c == d
  same_key (raised x c p deadline) (raised y d q deadline') =
      c == d && p == q && deadline == deadline'
  same_key _ _ = false

  abbrev pub has_key : List (DomainEvent J) → DomainEvent J → Bool
  has_key [] e = false
  has_key (x ∷ xs) e = same_key x e || has_key xs e

  -- `publishWithin` of one event: with `skipDuplicates` a dedupe key is written once.
  pub publish_within : DomainEvent J → Db J → Db J
  publish_within e db = if has_key db.outbox e then db else record db { outbox = e ∷ db.outbox }

  -- `approvalCase.update` and `.create`
  pub put_case : ApprovalCase J → Db J → Db J
  put_case c db = record db { cases = λ id. if id == c.id then some c else db.cases id }

  pub log_decision : DecisionLogEntry → Db J → Db J
  log_decision e db = record db { decision_log = e ∷ db.decision_log }

  -- The value that a rule gate reads; an absent impact summary is undefined.
  abbrev pub rule_input : InputSource → ProposedChange J → Option J
  rule_input from_before change = some change.before
  rule_input from_impact_summary change = change.impact_summary
  rule_input from_after change = some change.after

  abbrev ask : Option (ℕ → Option J → RuleOutcome) → ℕ → Option J → Result (Option Bool)
  ask none id input = err Error.rules_unavailable
  ask (some evaluate) id input = verdict (evaluate id input)

  abbrev gate_for :
      Option (ℕ → Option J → RuleOutcome)
      → ProposedChange J
      → Option GuardDefinition
      → Result (Option Bool)
  gate_for rules change none = ok none
  gate_for rules change (some duties) = ok none
  gate_for rules change (some (rule id source)) = ask rules id (rule_input source change)

  pub rule_gate_passed :
      Option (ℕ → Option J → RuleOutcome)
      → WorkflowMachineDefinition
      → ApprovalCase J
      → EventType
      → Result (Option Bool)
  rule_gate_passed rules definition c type =
      gate_for rules c.xstate_context_snapshot.context.proposed_change
        (configured_guard ((definition.states c.current_state).on type))

  -- What follows the update of the row, each part if its action ran.
  record_decision_log :
      List ActionRef → ApprovalMachineEvent → ApprovalCase J → Db J → Result (Db J)
  record_decision_log effects e c db =
      if has_effect effects record_decision
      then (do
        throw_if (not (is_decision e.type)) Error.decision_mismatch
        ok (
            log_decision
              (record {
                case_id = c.id;
                decision = if is_approve e.type then approval else rejection;
                decided_by = e.actor_user_id;
                rationale = e.rationale;
              })
              db))
      else ok db

  record_changes_log : List ActionRef → ApprovalMachineEvent → ApprovalCase J → Db J → Result (Db J)
  record_changes_log effects e c db =
      if has_effect effects record_changes_requested
      then (do
        throw_if (not (is_request_changes e.type)) Error.decision_mismatch
        ok (
            log_decision
              (record {
                case_id = c.id;
                decision = changes;
                decided_by = e.actor_user_id;
                rationale = e.rationale;
              })
              db))
      else ok db

  -- The flag is `publishedEvent`.
  publish_pending : List ActionRef → ℕ → ApprovalCase J → Db J → Result (Db J × Bool)
  publish_pending effects now c db =
      if has_effect effects schedule_escalation
      then (do
        participant ← or_throw c.approval_participant_id Error.no_participant
        ok (
          publish_within
              (pending c.id c.entity_type c.entity_id participant (now + c.approval_sla_ms)) db,
          true,
        ))
      else ok (db, false)

  abbrev pub publish_typed :
      Option GovernanceEventType
      → ApprovalMachineEvent
      → ApprovalCase J
      → Db J × Bool
      → Result (Db J × Bool)
  publish_typed none e c (db, published) = ok (db, published)
  publish_typed (some type) e c (db, published) = do
    throw_if (not (is_decision e.type)) Error.decision_mismatch
    ok (
      publish_within
          (decided type c.id c.entity_type c.entity_id c.submitted_by e.actor_user_id e.rationale
            c.xstate_context_snapshot.context.proposed_change)
          db,
      true,
    )

  publish_decision :
      List ActionRef → ApprovalMachineEvent → ApprovalCase J → Db J × Bool → Result (Db J × Bool)
  publish_decision effects e c = publish_typed (decision_event_type effects) e c

  abbrev pub moved : ApprovalState → ApprovalCase J → ApprovalCase J
  moved after c = record c {
    current_state = after;
    xstate_context_snapshot = record { value = after; context = c.xstate_context_snapshot.context };
  }

  -- The update of the row and all that follows it in the transaction.
  pub settle :
      ApprovalState
      → List ActionRef
      → ApprovalMachineEvent
      → ℕ
      → ApprovalCase J
      → Db J
      → Result (Db J × Bool)
  unfolding record_decision_log record_changes_log publish_pending publish_decision
  settle after effects e now c db = do
    logged ← record_decision_log effects e c (put_case (moved after c) db)
    logged' ← record_changes_log effects e c logged
    announced ← publish_pending effects now c logged'
    publish_decision effects e c announced

-- `nudgeRelay` after the transaction.
abbrev pub nudged : {J : Type 0} → Db J × Bool → Db J
nudged (db, true) = record db { nudges = suc db.nudges }
nudged (db, false) = db

module _ {J : Type 0} (engine : ApprovalEngine) (parse : J → Option WorkflowMachineDefinition)
    (rules : Option (ℕ → Option J → RuleOutcome)) where
  -- The body of the transaction in `transition`.
  pub transition_within : ℕ → ApprovalMachineEvent → ℕ → Db J → Result (Db J × Bool)
  transition_within case_id e now db = do
    c ← or_throw (db.cases case_id) Error.case_not_found
    throw_if
        (is_decision e.type && not (enforce_separation_of_duties e.actor_user_id c.submitted_by))
        Error.separation_of_duties
    definition ← or_throw (parse c.definition_json) Error.definition_invalid
    gate ← rule_gate_passed rules definition c e.type
    let snapshot = c.xstate_context_snapshot
    let (after, effects) =
        engine.send (create_approval_machine definition)
          (provided_guard (λ submitter actor. not (submitter == actor)) gate
            snapshot.context.submitted_by e)
          snapshot.value e.type
    throw_if (same_state snapshot.value after) (Error.illegal_transition snapshot.value e.type)
    settle after effects e now c db

  abbrev pub commit : Db J → Result (Db J × Bool) → Result (Unit {0}) × Db J
  commit db (ok written) = (ok tt, nudged written)
  commit db (err e) = (err e, db)

  -- `transition`: the tables are left alone when the transaction throws.
  pub transition : ℕ → ApprovalMachineEvent → ℕ → Db J → Result (Unit {0}) × Db J
  transition case_id e now db = commit db (transition_within case_id e now db)

-- `createCaseWithClient` once the current definition is found: the actor starts in the machine's
-- initial state. `id` is the key that the database gives the new row; the approver is none for the
-- empty text, which `transition` takes for none.
pub record CreateApprovalCaseInput (J : Type 0) : Type 0 where
  pub definition_json : Option J
  pub entity_type : ℕ
  pub entity_id : ℕ
  pub submitted_by : ℕ
  pub approval_participant_id : Option ℕ
  pub approval_sla_ms : Option ℕ
  pub proposed_change : ProposedChange J

abbrev pub default_sla_ms : ℕ
default_sla_ms = 86400000

abbrev pub sla_or_default : Option ℕ → ℕ
sla_or_default none = default_sla_ms
sla_or_default (some ms) = ms

abbrev pub new_case :
    {J : Type 0} → ℕ → J → CreateApprovalCaseInput J → ApprovalState → ApprovalCase J
new_case id json input state = record {
  id = id;
  definition_json = json;
  entity_type = input.entity_type;
  entity_id = input.entity_id;
  submitted_by = input.submitted_by;
  approval_participant_id = input.approval_participant_id;
  approval_sla_ms = sla_or_default input.approval_sla_ms;
  current_state = state;
  xstate_context_snapshot = record {
    value = state;
    context = record { submitted_by = input.submitted_by; proposed_change = input.proposed_change };
  };
}

-- What the constraints of the table of cases ask of the other tables: the texts that `btrim` leaves
-- empty, the keys of users, and whether the empty text is one.
pub record Constraints : Type 0 where
  pub is_blank : ℕ → Bool
  pub is_user : ℕ → Bool
  pub is_empty_user : Bool

abbrev approver_known : Constraints → Option ℕ → Bool
approver_known constraints none = constraints.is_empty_user
approver_known constraints (some participant) = constraints.is_user participant

-- The checks and the foreign keys of a new row, and the range of its integer column.
abbrev pub is_accepted : {J : Type 0} → Constraints → ApprovalCase J → Bool
is_accepted constraints c =
    ltb 0 c.approval_sla_ms
    && ltb c.approval_sla_ms (2147483648)
    && not (constraints.is_blank c.entity_type)
    && not (constraints.is_blank c.entity_id)
    && constraints.is_user c.submitted_by
    && approver_known constraints c.approval_participant_id

abbrev pub insert_case : {J : Type 0} → Constraints → ApprovalCase J → Db J → Result (Db J)
insert_case constraints c db = do
  throw_if (not (is_accepted constraints c)) Error.constraint_violated
  ok (put_case c db)

module _ {J : Type 0} (engine : ApprovalEngine) (parse : J → Option WorkflowMachineDefinition) where
  pub create_case : Constraints → ℕ → CreateApprovalCaseInput J → Db J → Result (Db J)
  create_case constraints id input db = do
    json ← or_throw input.definition_json Error.workflow_not_found
    definition ← or_throw (parse json) Error.definition_invalid
    insert_case constraints
        (new_case id json input (engine.start (create_approval_machine definition))) db
