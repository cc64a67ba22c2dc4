-- ===== src/Governance/Permitted.antt =====
-- Which transitions of a case under the default workflow go through.
use strat_align.Prelude.{
  ℕ, Bool, true, false, not, Option, none, some, List, ◌≡◌, ◌≢◌, ◌↔◌, refl, sym, ◌∙◌, arith, ◌==◌,
  ◌&&◌,
}
use mathlib.Core.Path.{subst}
use strat_align.Iam.{enforce_separation_of_duties, decide_separation_of_duties}
use strat_align.Machines.Engine.{next, send-next}
use strat_align.Machines.Approval.{
  ApprovalState, draft, pending_approval, changes_requested, EventType, submit, approve, reject,
  request_changes, resubmit, GuardRef, separation_of_duties, ActionRef, ApprovalMachineEvent,
  WorkflowMachineDefinition, is_decision, create_approval_machine, compile_transition,
  provided_guard, default_approval_workflow_definition,
}
use strat_align.Governance.Types.{ApprovalCase, Result, ok, err, Db, same_state}
use strat_align.Governance.{
  ApprovalEngine, RuleOutcome, rule_gate_passed, settle, transition_within, transition, commit,
}
use strat_align.Governance.Accepted.{transition-Accepted}
use strat_align.Governance.DefaultMoves.{
  DefaultMove, submitted, granted, refused, returned, resubmitted, default_move, default_machine,
}
use strat_align.Governance.History.{default_step}

-- The moves of the default workflow.
pub data Permitted : ApprovalState → EventType → Type 0 where
  may_submit : Permitted draft submit
  may_approve : Permitted pending_approval approve
  may_reject : Permitted pending_approval reject
  may_request_changes : Permitted pending_approval request_changes
  may_resubmit : Permitted changes_requested resubmit

move-Permitted :
    {guard : GuardRef → Bool} {s after : ApprovalState} {t : EventType} {effects : List ActionRef}
    → DefaultMove guard s t after effects
    → Permitted s t
move-Permitted submitted = may_submit
move-Permitted (granted p) = may_approve
move-Permitted (refused p) = may_reject
move-Permitted returned = may_request_changes
move-Permitted resubmitted = may_resubmit

abbrev pub MayDecide : {J : Type 0} → ApprovalMachineEvent → ApprovalCase J → Type 0
MayDecide e c = is_decision e.type ≡ true → e.actor_user_id ≢ c.submitted_by

duties_pass :
    (decision : Bool) (actor submitter : ℕ)
    → (decision ≡ true → actor ≢ submitter)
    → (decision && not (enforce_separation_of_duties actor submitter)) ≡ false
unfolding enforce_separation_of_duties decide_separation_of_duties
duties_pass false actor submitter h = refl
duties_pass true actor submitter h = let ne : actor ≢ submitter = h refl in ground arith

abbrev IsOk {ℓ} : {A : Type ℓ} → Result A → Type 0
IsOk (ok a) = Unit
IsOk (err x) = ⊥

module _ {J : Type 0} (engine : ApprovalEngine) (parse : J → Option WorkflowMachineDefinition)
    (rules : Option (ℕ → Option J → RuleOutcome)) (id now : ℕ) (e : ApprovalMachineEvent)
    (c : ApprovalCase J) (db : Db J) where
  -- The default workflow has no rule gate.
  default_gate : rule_gate_passed rules default_approval_workflow_definition c e.type ≡ ok none
  unfolding rule_gate_passed default_approval_workflow_definition
  default_gate = ground arith

  abbrev default_guard : GuardRef → Bool
  default_guard =
      provided_guard (λ submitter actor. not (submitter == actor)) none
        c.xstate_context_snapshot.context.submitted_by e

  abbrev default_next : ApprovalState × List ActionRef
  default_next = next default_machine default_guard c.xstate_context_snapshot.value e.type

  within-settle :
      db.cases id ≡ some c
      → parse c.definition_json ≡ some default_approval_workflow_definition
      → MayDecide e c
      → same_state c.xstate_context_snapshot.value default_next.0 ≡ false
      → transition_within engine parse rules id e now db
        ≡ settle default_next.0 default_next.1 e now c db
  unfolding transition_within
  within-settle found parsed duty changed =
      rw (found, duties_pass (is_decision e.type) e.actor_user_id c.submitted_by duty, parsed)
        (rw default_gate (
          rw (send-next engine default_machine default_guard c.xstate_context_snapshot.value e.type)
            (rw changed)))

  commit-ok : (r : Result (Db J × Bool)) → IsOk r → (commit engine parse rules db r).0 ≡ ok tt
  commit-ok (ok w) h = refl
  commit-ok (err x) h = absurd h

  ok_within :
      (r : Result (Db J × Bool))
      → (commit engine parse rules db r).0 ≡ ok tt
      → (w : Db J × Bool) × (r ≡ ok w)
  ok_within (ok w) h = (w, refl)
  ok_within (err x) h = cc

  settle-IsOk :
      {guard : GuardRef → Bool} {s after : ApprovalState} {t : EventType} {effects : List ActionRef}
      (p : ℕ)
      → DefaultMove guard s t after effects
      → e.type ≡ t
      → c.approval_participant_id ≡ some p
      → IsOk (settle after effects e now c db)
  unfolding settle
  settle-IsOk p submitted type who = rw (who) tt
  settle-IsOk p (granted g) type who = rw (type) tt
  settle-IsOk p (refused g) type who = rw (type) tt
  settle-IsOk p returned type who = rw (type) tt
  settle-IsOk p resubmitted type who = rw (who) tt

  -- The machine moves on every permitted event, and back from the move to the permission.
  Permitted-changes :
      {s : ApprovalState} {t : EventType} (guard : GuardRef → Bool)
      → Permitted s t
      → (is_decision t ≡ true → guard separation_of_duties ≡ true)
      → same_state s (next default_machine guard s t).0 ≡ false
  unfolding next create_approval_machine compile_transition default_approval_workflow_definition
  Permitted-changes guard may_submit g = refl
  Permitted-changes guard may_approve g = rw (g refl) refl
  Permitted-changes guard may_reject g = rw (g refl) refl
  Permitted-changes guard may_request_changes g = refl
  Permitted-changes guard may_resubmit g = refl

  guard_passes :
      c.xstate_context_snapshot.context.submitted_by ≡ c.submitted_by
      → MayDecide e c
      → is_decision e.type ≡ true
      → default_guard separation_of_duties ≡ true
  guard_passes kept duty decision = rw decision (
      differ c.xstate_context_snapshot.context.submitted_by e.actor_user_id
        (λ same. duty decision (sym same ∙ kept)))
    where
      differ : (a b : ℕ) → a ≢ b → not (a == b) ≡ true
      differ a b ne = ground arith

  permitted_goes :
      (p : ℕ)
      → db.cases id ≡ some c
      → parse c.definition_json ≡ some default_approval_workflow_definition
      → c.xstate_context_snapshot.context.submitted_by ≡ c.submitted_by
      → c.approval_participant_id ≡ some p
      → Permitted c.xstate_context_snapshot.value e.type
      → MayDecide e c
      → (transition engine parse rules id e now db).0 ≡ ok tt
  unfolding transition
  permitted_goes p found parsed kept who may duty =
      let changed = Permitted-changes default_guard may (guard_passes kept duty) in
      let move = default_move default_guard c.xstate_context_snapshot.value e.type changed in
      rw (within-settle found parsed duty changed) (commit-ok _ (settle-IsOk p move refl who))

  gone_permitted :
      db.cases id ≡ some c
      → parse c.definition_json ≡ some default_approval_workflow_definition
      → (transition engine parse rules id e now db).0 ≡ ok tt
      → Permitted c.xstate_context_snapshot.value e.type × MayDecide e c
  unfolding transition
  gone_permitted found parsed h =
      let (w, within) = ok_within (transition_within engine parse rules id e now db) h in
      let a = transition-Accepted engine parse rules id e now db w within in
      let same : a.row ≡ c = cc in
      let d : a.definition ≡ default_approval_workflow_definition = cc in
      subst
        (λ (r : ApprovalCase J). Permitted r.xstate_context_snapshot.value e.type × MayDecide e r)
        same
        (
          move-Permitted (default_step engine parse rules a.definition a.gate e a.row d a.changed),
          a.duties,
        )

  -- On a stored case of the default workflow that has an approver and whose snapshot names its
  -- submitter, a transition goes through exactly when the workflow permits the event in the case's
  -- state and, for a decision, the actor is not the submitter.
  pub permitted_iff :
      (p : ℕ)
      → db.cases id ≡ some c
      → parse c.definition_json ≡ some default_approval_workflow_definition
      → c.xstate_context_snapshot.context.submitted_by ≡ c.submitted_by
      → c.approval_participant_id ≡ some p
      → ((transition engine parse rules id e now db).0 ≡ ok tt)
        ↔ (Permitted c.xstate_context_snapshot.value e.type × MayDecide e c)
  permitted_iff p found parsed kept who =
      (gone_permitted found parsed, λ (may, duty). permitted_goes p found parsed kept who may duty)
