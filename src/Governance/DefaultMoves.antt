-- ===== src/Governance/DefaultMoves.antt =====
-- The transitions that the default approval workflow makes, read off the machine compiled from it.
use strat_align.Prelude.{Bool, true, false, List, [], ◌∷◌, ◌≡◌, inl, inr, Bool-cases}
use strat_align.Machines.Engine.{next}
use strat_align.Machines.Approval.{
  ApprovalState, draft, pending_approval, approved, rejected, changes_requested, EventType, submit,
  approve, reject, request_changes, resubmit, GuardRef, separation_of_duties, ActionRef,
  record_submission, record_decision, record_changes_requested, record_resubmission,
  schedule_escalation, emit_approval_granted, emit_approval_rejected, ApprovalMachine,
  default_approval_workflow_definition, create_approval_machine, compile_transition,
}
use strat_align.Governance.Types.{same_state}

pub data DefaultMove (guard : GuardRef → Bool)
    : ApprovalState → EventType → ApprovalState → List ActionRef → Type 0 where
  submitted :
      DefaultMove guard draft submit pending_approval (record_submission ∷ schedule_escalation ∷ [])
  granted :
      guard separation_of_duties ≡ true
      → DefaultMove guard pending_approval approve approved
          (record_decision ∷ emit_approval_granted ∷ [])
  refused :
      guard separation_of_duties ≡ true
      → DefaultMove guard pending_approval reject rejected
          (record_decision ∷ emit_approval_rejected ∷ [])
  returned :
      DefaultMove guard pending_approval request_changes changes_requested
        (record_changes_requested ∷ [])
  resubmitted :
      DefaultMove guard changes_requested resubmit pending_approval
        (record_resubmission ∷ schedule_escalation ∷ [])

abbrev pub default_machine : ApprovalMachine
default_machine = create_approval_machine default_approval_workflow_definition

-- A change of state under the default workflow is one of five.
pub default_move :
    (guard : GuardRef → Bool) (s : ApprovalState) (t : EventType)
    → let (after, effects) = next default_machine guard s t in
      same_state s after ≡ false → DefaultMove guard s t after effects
unfolding next create_approval_machine compile_transition default_approval_workflow_definition
default_move guard draft submit h = submitted
default_move guard pending_approval approve h = elim (Bool-cases (guard separation_of_duties)) [
  | inl passes ↦ rw passes (granted passes)
  | inr fails ↦ cc
]
default_move guard pending_approval reject h = elim (Bool-cases (guard separation_of_duties)) [
  | inl passes ↦ rw passes (refused passes)
  | inr fails ↦ cc
]
default_move guard pending_approval request_changes h = returned
default_move guard changes_requested resubmit h = resubmitted
default_move guard _ _ h = cc
