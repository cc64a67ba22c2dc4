-- ===== src/Governance/Tests.antt =====
-- Runs of the governance service over the reference engine, and the theorems on such runs.
use strat_align.Prelude.{ℕ, Option, none, some, ◌≡◌, ◌↔◌, refl, ◌==◌, not, false, arith}
use strat_align.Iam.{enforce_separation_of_duties, decide_separation_of_duties}
use strat_align.Machines.Engine.{reference_engine, next}
use strat_align.Machines.Approval.{
  ApprovalState, draft, pending_approval, approved, EventType, submit, approve,
  ApprovalMachineEvent, WorkflowMachineDefinition, default_approval_workflow_definition,
  create_approval_machine, compile_transition,
}
use strat_align.Governance.Types.{approval, ApprovalCase, Error, ok, err, Db}
use strat_align.Governance.{
  CreateApprovalCaseInput, publish_within, put_case, log_decision, rule_gate_passed, settle,
  transition_within, transition, moved, new_case, create_case, Constraints,
}
use strat_align.Governance.Reference.{
  assert_approved, submit_case, assert_approved-granted, submit_case-goes, IsAcceptable,
}
use strat_align.Governance.History.{
  DecidedByAnother, empty_db, creates, moves, Reached, empty, further, IsSound, Reached-IsSound,
}
use strat_align.Governance.Permitted.{Permitted, MayDecide, permitted_iff}

-- JSON values are numbers here, and every one is read as the default workflow.
abbrev parse_default : ℕ → Option WorkflowMachineDefinition
parse_default json = some default_approval_workflow_definition

abbrev input : CreateApprovalCaseInput ℕ
input = record {
  definition_json = some 0;
  entity_type = 1;
  entity_id = 2;
  submitted_by = 10;
  approval_participant_id = some 20;
  approval_sla_ms = none;
  proposed_change = record { before = 0; after = 1; impact_summary = none };
}

-- Texts are not blank but for 0, and every number but 0 is the key of a user.
abbrev constraints : Constraints
constraints = record {
  is_blank = λ text. text == 0;
  is_user = λ id. not (id == 0);
  is_empty_user = false;
}

abbrev event : EventType → ℕ → ApprovalMachineEvent
event type actor = record { type = type; actor_user_id = actor; rationale = none }

abbrev created : Db ℕ
created = put_case (new_case 5 0 input draft) empty_db

abbrev move : ApprovalMachineEvent → Db ℕ → Db ℕ
move e db = (transition reference_engine parse_default none 5 e 100 db).1

abbrev pending_db : Db ℕ
pending_db = move (event submit 10) created

abbrev approved_db : Db ℕ
approved_db = move (event approve 20) pending_db

-- What the runs compute with.
service : Unit {0}
unfolding transition transition_within settle publish_within put_case log_decision rule_gate_passed
    next create_approval_machine compile_transition default_approval_workflow_definition create_case
    enforce_separation_of_duties decide_separation_of_duties
service = tt

abbrev MovedTo : ApprovalState → Option (ApprovalCase ℕ) → Type 0
MovedTo s none = ⊥
MovedTo s (some c) = c.current_state ≡ s

runs :
    MovedTo pending_approval (pending_db.cases 5)
    × MovedTo approved (approved_db.cases 5)
    × ((transition reference_engine parse_default none 5 (event approve 10) 100 pending_db).0
        ≡ err Error.separation_of_duties)
    × ((transition reference_engine parse_default none 5 (event submit 10) 100 approved_db).0
        ≡ err (Error.illegal_transition approved submit))
unfolding service
runs = (refl, refl, refl, refl)

abbrev approved_row : ApprovalCase ℕ
approved_row = moved approved (moved pending_approval (new_case 5 0 input draft))

history : Reached reference_engine parse_default none approved_db
unfolding service
history =
    further
      (further (further empty (creates constraints 5 input refl refl))
        (moves 5 (event submit 10) 100))
      (moves 5 (event approve 20) 100)

approved_found : approved_db.cases 5 ≡ some approved_row
unfolding service
approved_found = refl

pending_found : pending_db.cases 5 ≡ some (moved pending_approval (new_case 5 0 input draft))
unfolding service
pending_found = refl

Reached-IsSound_example :
    IsSound reference_engine parse_default none 5 approved_row approved_db.decision_log
Reached-IsSound_example =
    Reached-IsSound reference_engine parse_default none 5 approved_row history approved_found

permitted_iff_example :
    ((transition reference_engine parse_default none 5 (event approve 20) 100 pending_db).0 ≡ ok tt)
    ↔ (Permitted pending_approval approve
        × MayDecide (event approve 20) (moved pending_approval (new_case 5 0 input draft)))
permitted_iff_example =
    permitted_iff reference_engine parse_default none 5 100 (event approve 20)
      (moved pending_approval (new_case 5 0 input draft)) pending_db 20 pending_found refl refl refl

reference :
    assert_approved (record { approval_case_id = 5; entity_type = 1; entity_id = 2 }) approved_db
    ≡ ok tt
unfolding service assert_approved
reference = refl

references :
    (assert_approved (record { approval_case_id = 6; entity_type = 1; entity_id = 2 }) approved_db
      ≡ err Error.reference_missing)
    × (assert_approved (record { approval_case_id = 5; entity_type = 1; entity_id = 2 }) pending_db
        ≡ err Error.reference_not_approved)
    × (assert_approved (record { approval_case_id = 5; entity_type = 1; entity_id = 3 }) approved_db
        ≡ err Error.reference_other_entity)
unfolding service assert_approved
references = (refl, refl, refl)

assert_approved-granted_example :
    (c : ApprovalCase ℕ) × (approved_db.cases 5 ≡ some c)
    × (c.entity_type ≡ 1)
    × (c.entity_id ≡ 2)
    × (parse_default c.definition_json ≡ some default_approval_workflow_definition
        → DecidedByAnother reference_engine parse_default none approval c approved_db.decision_log)
assert_approved-granted_example =
    assert_approved-granted reference_engine parse_default none
      (record { approval_case_id = 5; entity_type = 1; entity_id = 2 }) history reference

acceptable : IsAcceptable constraints input 20
acceptable = record {
  deadline = omega arith;
  in_range = omega arith;
  entity_type = refl;
  entity_id = refl;
  submitter = refl;
  assigned = refl;
  approver = refl;
}

abbrev without_deadline : CreateApprovalCaseInput ℕ
without_deadline = record input { approval_sla_ms = some 0 }

refused :
    (submit_case reference_engine parse_default none constraints 9 without_deadline 100
      approved_db).0
    ≡ err Error.constraint_violated
unfolding service submit_case
refused = refl

submit_case-goes_example :
    (submit_case reference_engine parse_default none constraints 9 input 100 approved_db).0 ≡ ok tt
submit_case-goes_example =
    submit_case-goes reference_engine parse_default none constraints 9 100 20 input approved_db 0
      refl refl acceptable
