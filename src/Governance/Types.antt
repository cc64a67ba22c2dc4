-- ===== src/Governance/Types.antt =====
-- The rows and results of apps/backend/src/modules/governance/governance.service.ts.
pub use strat_align.Prelude.{ok, err, ◌>>=◌, ◌>>◌, throw_if, or_throw}
use strat_align.Prelude.{Outcome, ℕ, Bool, Option, List, ◌==◌}
use strat_align.Machines.Approval.{
  ApprovalState, draft, pending_approval, approved, rejected, changes_requested, EventType,
  ProposedChange, ApprovalMachineContext,
}

-- What `getPersistedSnapshot` keeps of the actor: its state and its context.
pub record Snapshot (J : Type 0) : Type 0 where
  pub value : ApprovalState
  pub context : ApprovalMachineContext J

-- A row of `approvalCase`, with the JSON of the workflow definition that it refers to. The states
-- of the column and of the machine are one type: the two functions between them rename.
pub record ApprovalCase (J : Type 0) : Type 0 where
  pub id : ℕ
  pub definition_json : J
  pub entity_type : ℕ
  pub entity_id : ℕ
  pub submitted_by : ℕ
  pub approval_participant_id : Option ℕ
  pub approval_sla_ms : ℕ
  pub current_state : ApprovalState
  pub xstate_context_snapshot : Snapshot J

pub data Decision : Type 0 where
  approval rejection changes : Decision

pub record DecisionLogEntry : Type 0 where
  pub case_id : ℕ
  pub decision : Decision
  pub decided_by : ℕ
  pub rationale : Option ℕ

pub data GovernanceEventType : Type 0 where
  approval_granted approval_rejected : GovernanceEventType

-- The events of the outbox with their payloads. The dedupe key of a decision is its type and case,
-- that of a pending approval its case and deadline, that of an escalation its case, participant and
-- deadline.
pub data DomainEvent (J : Type 0) : Type 0 where
  pending : (case_id entity_type entity_id participant_user_id deadline : ℕ) → DomainEvent J
  decided :
      GovernanceEventType
      → (case_id entity_type entity_id submitted_by decided_by : ℕ) → Option ℕ
      → ProposedChange J
      → DomainEvent J
  raised : (escalation_case_id case_id participant_user_id deadline : ℕ) → DomainEvent J

pub data Error : Type 0 where
  case_not_found separation_of_duties definition_invalid rules_unavailable : Error
  rule_failed rule_not_boolean decision_mismatch no_participant workflow_not_found
        constraint_violated :
      Error
  deadline_invalid escalation_not_found participant_mismatch : Error
  reference_missing reference_not_approved reference_other_entity : Error
  illegal_transition : ApprovalState → EventType → Error

abbrev pub Result {ℓ} : Type ℓ → Type ℓ
Result A = Outcome Error A

-- The tables: cases by their key, the decision log and the outbox with the latest row first, and
-- how often the relay was nudged.
pub record Db (J : Type 0) : Type 0 where
  pub cases : ℕ → Option (ApprovalCase J)
  pub decision_log : List DecisionLogEntry
  pub outbox : List (DomainEvent J)
  pub nudges : ℕ

abbrev pub state_index : ApprovalState → ℕ
state_index draft = 0
state_index pending_approval = 1
state_index approved = 2
state_index rejected = 3
state_index changes_requested = 4

-- `before === after`
abbrev pub same_state : ApprovalState → ApprovalState → Bool
same_state a b = state_index a == state_index b
