-- ===== src/Machines/Approval.antt =====
-- packages/machines/src/approval-workflow.ts. User identifiers are only compared, so they are
-- numbers, and `J` is the type of the JSON values that a proposed change carries and the machine
-- never reads. Checking a definition against its schema (zod) is no code of the repository: a
-- definition here is one that has been parsed.
use strat_align.Prelude.{ℕ, Bool, true, false, Option, none, some, List, [], ◌∷◌, if◌then◌else◌}
use strat_align.Machines.Engine.{Transition, StateNode, Machine}

pub data ApprovalState : Type 0 where
  draft pending_approval approved rejected changes_requested : ApprovalState

pub data EventType : Type 0 where
  submit approve reject request_changes resubmit : EventType

pub data GuardRef : Type 0 where
  separation_of_duties rule_gate : GuardRef

pub data ActionRef : Type 0 where
  record_submission record_decision record_changes_requested record_resubmission : ActionRef
  schedule_escalation emit_approval_granted emit_approval_rejected : ActionRef

pub record ProposedChange (J : Type 0) : Type 0 where
  pub before : J
  pub after : J
  pub impact_summary : Option J

pub record ApprovalMachineContext (J : Type 0) : Type 0 where
  pub submitted_by : ℕ
  pub proposed_change : ProposedChange J

-- An event: its type, who sends it, and a rationale, which only the three decisions carry.
pub record ApprovalMachineEvent : Type 0 where
  pub type : EventType
  pub actor_user_id : ℕ
  pub rationale : Option ℕ

pub data InputSource : Type 0 where
  from_before from_after from_impact_summary : InputSource

pub data GuardDefinition : Type 0 where
  duties : GuardDefinition
  rule : (rule_id : ℕ) → InputSource → GuardDefinition

pub record TransitionDefinition : Type 0 where
  pub target : ApprovalState
  pub guard : Option GuardDefinition
  pub actions : List ActionRef

pub record StateDefinition : Type 0 where
  pub is_final : Bool
  pub on : EventType → Option TransitionDefinition

pub record WorkflowMachineDefinition : Type 0 where
  pub key : ℕ
  pub version : ℕ
  pub initial : ApprovalState
  pub states : ApprovalState → StateDefinition

abbrev no_transition : EventType → Option TransitionDefinition
no_transition e = none

abbrev go : ApprovalState → Option GuardDefinition → List ActionRef → Option TransitionDefinition
go target guard actions = some (record { target = target; guard = guard; actions = actions })

abbrev draft_on : EventType → Option TransitionDefinition
draft_on submit = go pending_approval none (record_submission ∷ schedule_escalation ∷ [])
draft_on _ = none

abbrev pending_on : EventType → Option TransitionDefinition
pending_on approve = go approved (some duties) (record_decision ∷ emit_approval_granted ∷ [])
pending_on reject = go rejected (some duties) (record_decision ∷ emit_approval_rejected ∷ [])
pending_on request_changes = go changes_requested none (record_changes_requested ∷ [])
pending_on _ = none

abbrev changes_requested_on : EventType → Option TransitionDefinition
changes_requested_on resubmit =
    go pending_approval none (record_resubmission ∷ schedule_escalation ∷ [])
changes_requested_on _ = none

abbrev default_states : ApprovalState → StateDefinition
default_states draft = record { is_final = false; on = draft_on }
default_states pending_approval = record { is_final = false; on = pending_on }
default_states approved = record { is_final = true; on = no_transition }
default_states rejected = record { is_final = true; on = no_transition }
default_states changes_requested = record { is_final = false; on = changes_requested_on }

-- The key "generic_approval" is the number 0.
unfoldable pub default_approval_workflow_definition : WorkflowMachineDefinition
default_approval_workflow_definition = record {
  key = 0;
  version = 1;
  initial = draft;
  states = default_states;
}

abbrev pub ApprovalTransition : Type 0
ApprovalTransition = Transition ApprovalState GuardRef ActionRef

abbrev ApprovalNode : Type 0
ApprovalNode = StateNode ApprovalState EventType GuardRef ActionRef

abbrev pub ApprovalMachine : Type 0
ApprovalMachine = Machine ApprovalState EventType GuardRef ActionRef

-- The guard is named: a rule gate loses its rule here.
abbrev pub guard_ref : GuardDefinition → GuardRef
guard_ref duties = separation_of_duties
guard_ref (rule id source) = rule_gate

abbrev pub compile_guard : Option GuardDefinition → Option GuardRef
compile_guard none = none
compile_guard (some g) = some (guard_ref g)

unfoldable pub compile_transition : Option TransitionDefinition → Option ApprovalTransition
compile_transition none = none
compile_transition (some t) =
    some (record { target = some t.target; guard = compile_guard t.guard; actions = t.actions })

-- The states of the machine: each gets its final mark and its transitions.
abbrev pub compile_state : StateDefinition → ApprovalNode
compile_state s = record { is_final = s.is_final; on = λ e. compile_transition (s.on e) }

-- `createApprovalMachine` before `provide`
unfoldable pub create_approval_machine : WorkflowMachineDefinition → ApprovalMachine
create_approval_machine d = record {
  initial = d.initial;
  root = λ e. none;
  node = λ s. compile_state (d.states s);
}

-- The guards that `provide` puts in: separation of duties looks at decisions alone, and a rule gate
-- without a check is shut.
abbrev pub is_decision : EventType → Bool
is_decision approve = true
is_decision reject = true
is_decision _ = false

abbrev pub gate : Option Bool → Bool
gate none = false
gate (some passed) = passed

abbrev pub provided_guard :
    (ℕ → ℕ → Bool) → Option Bool → ℕ → ApprovalMachineEvent → GuardRef → Bool
provided_guard check rule_gate_check submitted_by e separation_of_duties =
    if is_decision e.type then check submitted_by e.actor_user_id else false
provided_guard check rule_gate_check submitted_by e rule_gate = gate rule_gate_check
