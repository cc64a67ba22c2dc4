-- ===== src/Governance/Escalation/Tests.antt =====
-- A timer on a pending case, and the theorems on what it did.
use strat_align.Prelude.{suc, ℕ, Option, none, some, [], ◌∷◌, ◌≡◌, refl, true, false}
use strat_align.Iam.{enforce_separation_of_duties, decide_separation_of_duties}
use strat_align.Machines.Engine.{reference_engine, next}
use strat_align.Machines.Approval.{
  draft, submit, ApprovalMachineEvent, WorkflowMachineDefinition,
  default_approval_workflow_definition, create_approval_machine, compile_transition,
}
use strat_align.Governance.Types.{raised, Error, ok, err, Db}
use strat_align.Governance.{
  CreateApprovalCaseInput, publish_within, put_case, log_decision, rule_gate_passed, settle,
  transition_within, transition, new_case, create_case, Constraints,
}
use strat_align.Governance.History.{empty_db, creates, moves}
use strat_align.Governance.Escalation.{
  World, RaiseEscalationInput, new_escalation, acknowledged, upsert, escalate, raise, acknowledge,
}
use strat_align.Governance.Escalation.Again.{raise_again}
use strat_align.Governance.Escalation.Consistent.{
  raises, governs, ReachedWorld, empty, further, IsConsistent, escalations-IsConsistent,
}

abbrev parse_default : ℕ → Option WorkflowMachineDefinition
parse_default json = some default_approval_workflow_definition

abbrev draft_input : CreateApprovalCaseInput ℕ
draft_input = record {
  definition_json = some 0;
  entity_type = 1;
  entity_id = 2;
  submitted_by = 10;
  approval_participant_id = some 20;
  approval_sla_ms = none;
  proposed_change = record { before = 0; after = 1; impact_summary = none };
}

abbrev constraints : Constraints
constraints = record { is_blank = λ text. false; is_user = λ id. true; is_empty_user = false }

abbrev submission : ApprovalMachineEvent
submission = record { type = submit; actor_user_id = 10; rationale = none }

abbrev drafted : Db ℕ
drafted = put_case (new_case 5 0 draft_input draft) empty_db

abbrev waiting : Db ℕ
waiting = (transition reference_engine parse_default none 5 submission 100 drafted).1

abbrev timer : RaiseEscalationInput
timer = record { approval_case_id = 5; participant_user_id = 20; deadline = some 100 }

abbrev escalated : World ℕ
escalated = record {
  db = record waiting { outbox = raised 7 5 20 100 ∷ waiting.outbox; nudges = suc waiting.nudges };
  escalations = new_escalation 7 5 20 100 ∷ [];
}

-- What the runs compute with.
service : Unit {0}
unfolding transition transition_within settle publish_within put_case log_decision rule_gate_passed
    next create_approval_machine compile_transition default_approval_workflow_definition create_case
    enforce_separation_of_duties decide_separation_of_duties upsert escalate raise acknowledge
service = tt

first_timer :
    raise 7 timer (record { db = waiting; escalations = [] })
    ≡ ok (some (new_escalation 7 5 20 100), escalated)
unfolding service
first_timer = refl

runs :
    (acknowledge 7 21 300 escalated.escalations ≡ err Error.participant_mismatch)
    × (acknowledge 8 20 300 escalated.escalations ≡ err Error.escalation_not_found)
    × (acknowledge 7 20 300 escalated.escalations
        ≡ ok (acknowledged 20 300 (new_escalation 7 5 20 100) ∷ []))
unfolding service
runs = (refl, refl, refl)

history : ReachedWorld reference_engine parse_default none escalated
unfolding service
history =
    further
      (further (further empty (governs (creates constraints 5 draft_input refl refl)))
        (governs (moves 5 submission 100)))
      (raises 7 timer first_timer)

raise_again_example : raise 8 timer escalated ≡ ok (some (new_escalation 7 5 20 100), escalated)
raise_again_example =
    raise_again 7 8 timer (record { db = waiting; escalations = [] })
      (some (new_escalation 7 5 20 100), escalated) first_timer

escalations-IsConsistent_example : IsConsistent reference_engine parse_default none escalated
escalations-IsConsistent_example =
    escalations-IsConsistent reference_engine parse_default none history
