-- ===== src/Governance/Escalation/Governed.antt =====
-- The calls that create and move approval cases write no escalation event.
use strat_align.Prelude.{ℕ, Bool, true, false, Option, ◌≡◌, refl, throw_if, not}
use mathlib.Core.Path.{subst}
use strat_align.Machines.Approval.{
  ApprovalMachineEvent, WorkflowMachineDefinition, create_approval_machine,
}
use strat_align.Governance.Types.{Error, Result, ok, err, Db, or_throw}
use strat_align.Governance.{
  ApprovalEngine, RuleOutcome, CreateApprovalCaseInput, transition_within, transition, commit,
  Constraints, is_accepted, new_case, create_case,
}
use strat_align.Governance.Accepted.{bind-ok, machine_move, transition-Accepted}
use strat_align.Governance.Settled.{ok-injective, SameRaised, put_case-raised, settle-Settled}
use strat_align.Governance.History.{Call, creates, moves}

module _ {J : Type 0} (engine : ApprovalEngine) (parse : J → Option WorkflowMachineDefinition)
    (rules : Option (ℕ → Option J → RuleOutcome)) where
  commit-SameRaised :
      (db : Db J) (r : Result (Db J × Bool))
      → ((w : Db J × Bool) → r ≡ ok w → SameRaised db w.0)
      → SameRaised db (commit engine parse rules db r).1
  commit-SameRaised db (ok (db', true)) k = k (db', true) refl
  commit-SameRaised db (ok (db', false)) k = k (db', false) refl
  commit-SameRaised db (err x) k = λ c p d. refl

  transition-SameRaised :
      (id : ℕ) (e : ApprovalMachineEvent) (now : ℕ) (db : Db J)
      → SameRaised db (transition engine parse rules id e now db).1
  unfolding transition
  transition-SameRaised id e now db =
      commit-SameRaised db (transition_within engine parse rules id e now db) λ w h.
        let a = transition-Accepted engine parse rules id e now db w h in
        let move = machine_move engine parse rules a.definition a.gate e a.row in
        (settle-Settled move.0 move.1 e now a.row db w a.settled).same_raised

  create_case-SameRaised :
      (constraints : Constraints) (id : ℕ) (input : CreateApprovalCaseInput J) (db db' : Db J)
      → create_case engine parse constraints id input db ≡ ok db'
      → SameRaised db db'
  unfolding create_case
  create_case-SameRaised constraints id input db db' h =
      let (json, p1, h1) =
        bind-ok (or_throw input.definition_json Error.workflow_not_found) _ db' h in
      let (definition, p2, h2) =
        bind-ok (or_throw (parse json) Error.definition_invalid) _ db' h1 in
      let c = new_case id json input (engine.start (create_approval_machine definition)) in
      let (u, accepted, h3) =
        bind-ok (throw_if (not (is_accepted constraints c)) Error.constraint_violated) _ db' h2 in
      subst (SameRaised db) (ok-injective h3) (put_case-raised _ db)

  pub Call-SameRaised : {db db' : Db J} → Call engine parse rules db db' → SameRaised db db'
  Call-SameRaised {db} {db'} (creates constraints id input fresh h) =
      create_case-SameRaised constraints id input db db' h
  Call-SameRaised {db} (moves id e now) = transition-SameRaised id e now db
