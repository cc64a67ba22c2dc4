-- ===== src/Governance/History.antt =====
-- The tables reached from empty ones by any sequence of calls that create and move approval cases.
use strat_align.Prelude.{
  ℕ, Bool, true, false, not, Option, none, some, List, [], ◌≡◌, ◌≢◌, refl, sym, ap, ◌∙◌, inl, inr,
  arith, In, ◌==◌, eq_of_test, Bool-cases, throw_if,
}
use mathlib.Core.Path.{subst}
use strat_align.Machines.Engine.{send-next}
use strat_align.Machines.Approval.{
  ApprovalState, draft, approved, rejected, EventType, approve, reject, GuardRef, ActionRef,
  record_decision, ApprovalMachineEvent, WorkflowMachineDefinition, create_approval_machine,
  provided_guard, default_approval_workflow_definition,
}
use strat_align.Governance.Types.{
  ApprovalCase, Decision, approval, rejection, DecisionLogEntry, Error, Result, ok, err, or_throw,
  Db, same_state,
}
use strat_align.Governance.{
  ApprovalEngine, RuleOutcome, CreateApprovalCaseInput, has_effect, put_case, new_case, moved,
  transition_within, commit, transition, Constraints, is_accepted, new_case, create_case,
}
use strat_align.Governance.Accepted.{
  bind-ok, or_throw-ok, machine_move, Accepted, transition-Accepted,
}
use strat_align.Governance.Settled.{decision_entry, ok-injective, put_case-log, settle-Settled}
use strat_align.Governance.DefaultMoves.{
  DefaultMove, submitted, granted, refused, returned, resubmitted, default_move, default_machine,
}

initial_draft :
    (d : WorkflowMachineDefinition)
    → d ≡ default_approval_workflow_definition
    → (create_approval_machine d).initial ≡ draft
unfolding create_approval_machine default_approval_workflow_definition
initial_draft d same = ap (λ (d : WorkflowMachineDefinition). d.initial) same

abbrev pub empty_db : {J : Type 0} → Db J
empty_db = record { cases = λ id. none; decision_log = []; outbox = []; nudges = 0 }

to_approved :
    {guard : GuardRef → Bool} {s t' : ApprovalState} {t : EventType} {effects : List ActionRef}
    → DefaultMove guard s t t' effects
    → t' ≡ approved
    → (t ≡ approve) × (has_effect effects record_decision ≡ true)
to_approved submitted h = cc
to_approved (granted p) h = (refl, refl)
to_approved (refused p) h = cc
to_approved returned h = cc
to_approved resubmitted h = cc

to_rejected :
    {guard : GuardRef → Bool} {s t' : ApprovalState} {t : EventType} {effects : List ActionRef}
    → DefaultMove guard s t t' effects
    → t' ≡ rejected
    → (t ≡ reject) × (has_effect effects record_decision ≡ true)
to_rejected submitted h = cc
to_rejected (granted p) h = cc
to_rejected (refused p) h = (refl, refl)
to_rejected returned h = cc
to_rejected resubmitted h = cc

module _ {J : Type 0} (engine : ApprovalEngine) (parse : J → Option WorkflowMachineDefinition)
    (rules : Option (ℕ → Option J → RuleOutcome)) where
  pub data Call : Db J → Db J → Type 0 where
    creates :
        {db db' : Db J} (constraints : Constraints) (id : ℕ) (input : CreateApprovalCaseInput J)
        → db.cases id ≡ none
        → create_case engine parse constraints id input db ≡ ok db'
        → Call db db'
    moves :
        {db : Db J} (case_id : ℕ) (e : ApprovalMachineEvent) (now : ℕ)
        → Call db (transition engine parse rules case_id e now db).1

  pub data Reached : Db J → Type 0 where
    empty : Reached empty_db
    further : {db db' : Db J} → Reached db → Call db db' → Reached db'

  -- The log holds a decision of this kind on the case, by another user than the submitter.
  abbrev pub DecidedByAnother : Decision → ApprovalCase J → List DecisionLogEntry → Type 0
  DecidedByAnother d c log =
      (x : DecisionLogEntry) × In x log
      × (x.case_id ≡ c.id)
      × (x.decision ≡ d)
      × (x.decided_by ≢ c.submitted_by)

  -- A row agrees with the snapshot it stores; and under the default workflow, if it is approved or
  -- rejected, someone else than its submitter is on record for that.
  pub record IsSound (id : ℕ) (c : ApprovalCase J) (log : List DecisionLogEntry) : Type 0 where
    pub keyed : c.id ≡ id
    pub in_step : c.current_state ≡ c.xstate_context_snapshot.value
    pub submitter_kept : c.xstate_context_snapshot.context.submitted_by ≡ c.submitted_by
    pub approval_recorded :
        parse c.definition_json ≡ some default_approval_workflow_definition
        → c.current_state ≡ approved
        → DecidedByAnother approval c log
    pub rejection_recorded :
        parse c.definition_json ≡ some default_approval_workflow_definition
        → c.current_state ≡ rejected
        → DecidedByAnother rejection c log

  abbrev pub AllSound : Db J → Type 0
  AllSound db = (id : ℕ) (c : ApprovalCase J) → db.cases id ≡ some c → IsSound id c db.decision_log

  DecidedByAnother-kept :
      (d : Decision) (c : ApprovalCase J) (log log' : List DecisionLogEntry)
      → ((x : DecisionLogEntry) → In x log → In x log')
      → DecidedByAnother d c log
      → DecidedByAnother d c log'
  DecidedByAnother-kept d c log log' k (x, i, p, q, r) = (x, k x i, p, q, r)

  IsSound-kept :
      (id : ℕ) (c : ApprovalCase J) (log log' : List DecisionLogEntry)
      → ((x : DecisionLogEntry) → In x log → In x log')
      → IsSound id c log
      → IsSound id c log'
  IsSound-kept id c log log' k s = record {
    keyed = s.keyed;
    in_step = s.in_step;
    submitter_kept = s.submitter_kept;
    approval_recorded =
        λ p q. DecidedByAnother-kept approval c log log' k (s.approval_recorded p q);
    rejection_recorded =
        λ p q. DecidedByAnother-kept rejection c log log' k (s.rejection_recorded p q);
  }

  pub default_step :
      (definition : WorkflowMachineDefinition) (gate : Option Bool) (e : ApprovalMachineEvent)
      (c : ApprovalCase J)
      → definition ≡ default_approval_workflow_definition
      → let (after, effects) = machine_move engine parse rules definition gate e c in
        same_state c.xstate_context_snapshot.value after ≡ false
        → DefaultMove
            (provided_guard
              (λ submitter actor. not (submitter == actor))
              gate
              c.xstate_context_snapshot.context.submitted_by
              e)
            c.xstate_context_snapshot.value
            e.type
            after
            effects
  default_step definition gate e c same =
      let s = c.xstate_context_snapshot.value in
      let guard =
        provided_guard (λ submitter actor. not (submitter == actor)) gate
          c.xstate_context_snapshot.context.submitted_by e in
      subst
        (λ d.
          let (after, effects) = machine_move engine parse rules d gate e c in
          same_state s after ≡ false → DefaultMove guard s e.type after effects)
        (sym same)
        (subst (λ r. same_state s r.0 ≡ false → DefaultMove guard s e.type r.0 r.1)
          (sym (send-next engine default_machine guard s e.type)) (default_move guard s e.type))

  put_case-cases :
      (c : ApprovalCase J) (db : Db J) (j : ℕ) (d : ApprovalCase J)
      → (put_case c db).cases j ≡ some d
      → ((j == c.id) ≡ true → c ≡ d) × ((j == c.id) ≡ false → db.cases j ≡ some d)
  unfolding put_case
  put_case-cases c db j d h = (λ p. ground arith, λ p. ground arith)

  -- The row of a moved case.
  moved-IsSound :
      (id : ℕ) (e : ApprovalMachineEvent) (now : ℕ) (db : Db J) (w : Db J × Bool)
      → AllSound db
      → (a : Accepted engine parse rules id e now db w)
      → let after = (machine_move engine parse rules a.definition a.gate e a.row).0 in
        IsSound id (moved after a.row) w.0.decision_log
  moved-IsSound id e now db w sound a =
      let row = a.row in
      let old = sound id row a.found in
      let move = machine_move engine parse rules a.definition a.gate e row in
      let done = settle-Settled move.0 move.1 e now row db w a.settled in
      let step = λ (p : parse row.definition_json ≡ some default_approval_workflow_definition).
        default_step a.definition a.gate e row (cc) a.changed in
      record {
        keyed = old.keyed;
        in_step = refl;
        submitter_kept = old.submitter_kept;
        approval_recorded = λ p q.
            let (t, r) = to_approved (step p) q in
            (decision_entry e row, done.decision_logged r, refl, rw t refl, a.duties (rw t refl));
        rejection_recorded = λ p q.
            let (t, r) = to_rejected (step p) q in
            (decision_entry e row, done.decision_logged r, refl, rw t refl, a.duties (rw t refl));
      }

  moves-AllSound :
      (id : ℕ) (e : ApprovalMachineEvent) (now : ℕ) (db : Db J) (w : Db J × Bool)
      → AllSound db
      → Accepted engine parse rules id e now db w
      → AllSound w.0
  moves-AllSound id e now db w sound a j c h =
      let row = a.row in
      let move = machine_move engine parse rules a.definition a.gate e row in
      let done = settle-Settled move.0 move.1 e now row db w a.settled in
      let (here, elsewhere) =
        put_case-cases (moved move.0 row) db j c
          (sym (ap (λ (f : ℕ → Option (ApprovalCase J)). f j) done.cases_moved) ∙ h) in
      elim (Bool-cases (j == row.id)) [
        | inl same ↦
            let jid : j ≡ id = eq_of_test j row.id same ∙ (sound id row a.found).keyed in
            subst (λ d. IsSound j d w.0.decision_log) (here same)
              (subst (λ k. IsSound k (moved move.0 row) w.0.decision_log) (sym jid)
                (moved-IsSound id e now db w sound a))
        | inr other ↦
            IsSound-kept j c db.decision_log w.0.decision_log done.log_kept
              (sound j c (elsewhere other))
      ]

  transition-AllSound :
      (id : ℕ) (e : ApprovalMachineEvent) (now : ℕ) (db : Db J)
      → AllSound db
      → AllSound (transition engine parse rules id e now db).1
  unfolding transition
  transition-AllSound id e now db sound =
      by_result (transition_within engine parse rules id e now db) λ w h.
        moves-AllSound id e now db w sound (transition-Accepted engine parse rules id e now db w h)
    where
      by_result :
          (r : Result (Db J × Bool))
          → ((w : Db J × Bool) → r ≡ ok w → AllSound w.0)
          → AllSound (commit engine parse rules db r).1
      by_result (ok (db', true)) k = k (db', true) refl
      by_result (ok (db', false)) k = k (db', false) refl
      by_result (err x) k = sound

  put_new-AllSound :
      (id : ℕ) (json : J) (definition : WorkflowMachineDefinition)
      (input : CreateApprovalCaseInput J) (db : Db J)
      → AllSound db
      → parse json ≡ some definition
      → AllSound
          (put_case (new_case id json input (engine.start (create_approval_machine definition))) db)
  put_new-AllSound id json definition input db sound parsed j c h =
      let machine = create_approval_machine definition in
      let row = new_case id json input (engine.start machine) in
      let (here, elsewhere) = put_case-cases row db j c h in
      let initial = λ (p : parse json ≡ some default_approval_workflow_definition).
        engine.start_lem machine ∙ initial_draft definition (cc) in
      elim (Bool-cases (j == id)) [
        | inl same ↦
            subst (λ d. IsSound j d (put_case row db).decision_log) (here same)
              (record {
                keyed = sym (eq_of_test j id same);
                in_step = refl;
                submitter_kept = refl;
                approval_recorded = λ p q. cc (initial p);
                rejection_recorded = λ p q. cc (initial p);
              })
        | inr other ↦
            IsSound-kept j c db.decision_log (put_case row db).decision_log (put_case-log row db)
              (sound j c (elsewhere other))
      ]

  -- A new case starts in the initial state of its workflow, which is the draft of the default one.
  create_case-AllSound :
      (constraints : Constraints) (id : ℕ) (input : CreateApprovalCaseInput J) (db db' : Db J)
      → AllSound db
      → create_case engine parse constraints id input db ≡ ok db'
      → AllSound db'
  unfolding create_case
  create_case-AllSound constraints id input db db' sound h =
      let (json, p1, h1) =
        bind-ok (or_throw input.definition_json Error.workflow_not_found) _ db' h in
      let (definition, p2, h2) =
        bind-ok (or_throw (parse json) Error.definition_invalid) _ db' h1 in
      let c = new_case id json input (engine.start (create_approval_machine definition)) in
      let (u, accepted, h3) =
        bind-ok (throw_if (not (is_accepted constraints c)) Error.constraint_violated) _ db' h2 in
      subst AllSound (ok-injective h3)
        (put_new-AllSound id json definition input db sound (or_throw-ok _ _ _ p2))

  pub Call-AllSound : {db db' : Db J} → Call db db' → AllSound db → AllSound db'
  Call-AllSound {db} {db'} (creates constraints id input fresh h) sound =
      create_case-AllSound constraints id input db db' sound h
  Call-AllSound {db} (moves id e now) sound = transition-AllSound id e now db sound

  Reached-AllSound : {db : Db J} → Reached db → AllSound db
  Reached-AllSound empty = λ id c h. cc
  Reached-AllSound (further r call) = Call-AllSound call (Reached-AllSound r)

  -- Whatever calls have created and moved the cases, with failed calls among them: the state of a
  -- row is the one in its snapshot, and under the default workflow an approved case, and a rejected
  -- one, has that decision in the log, by another user than the one who submitted the case.
  pub Reached-IsSound :
      {db : Db J} (id : ℕ) (c : ApprovalCase J)
      → Reached db
      → db.cases id ≡ some c
      → IsSound id c db.decision_log
  Reached-IsSound id c r = Reached-AllSound r id c
