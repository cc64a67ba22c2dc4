-- ===== src/Governance/Accepted.antt =====
-- What a transition that went through tells of the case it moved.
use strat_align.Prelude.{
  ℕ, Bool, true, false, not, Option, none, some, List, ◌≡◌, ◌≢◌, refl, arith, ◌==◌, ◌&&◌,
}
use strat_align.Iam.{enforce_separation_of_duties, decide_separation_of_duties}
use strat_align.Machines.Approval.{
  ApprovalState, ActionRef, ApprovalMachineEvent, WorkflowMachineDefinition,
  create_approval_machine, is_decision, provided_guard,
}
use strat_align.Governance.Types.{
  ApprovalCase, Error, Result, ok, err, ◌>>=◌, throw_if, or_throw, Db, same_state,
}
use strat_align.Governance.{
  ApprovalEngine, RuleOutcome, rule_gate_passed, settle, transition_within,
}

pub bind-ok {ℓ κ} :
    {A : Type ℓ} {B : Type κ} (m : Result A) (f : A → Result B) (b : B)
    → (m >>= f) ≡ ok b
    → (a : A) × (m ≡ ok a) × (f a ≡ ok b)
bind-ok (ok a) f b h = (a, refl, h)
bind-ok (err e) f b h = cc

pub throw_if-ok : (b : Bool) (e : Error) (u : Unit {0}) → throw_if b e ≡ ok u → b ≡ false
throw_if-ok true e u h = cc
throw_if-ok false e u h = refl

pub or_throw-ok {ℓ} :
    {A : Type ℓ} (o : Option A) (e : Error) (a : A) → or_throw o e ≡ ok a → o ≡ some a
or_throw-ok none e a h = cc
or_throw-ok (some x) e a h = ground arith

module _ {J : Type 0} (engine : ApprovalEngine) (parse : J → Option WorkflowMachineDefinition)
    (rules : Option (ℕ → Option J → RuleOutcome)) where
  abbrev pub machine_move :
      WorkflowMachineDefinition
      → Option Bool
      → ApprovalMachineEvent
      → ApprovalCase J
      → ApprovalState × List ActionRef
  machine_move definition gate e c =
      engine.send (create_approval_machine definition)
        (provided_guard (λ submitter actor. not (submitter == actor)) gate
          c.xstate_context_snapshot.context.submitted_by e)
        c.xstate_context_snapshot.value e.type

  pub record Accepted (case_id : ℕ) (e : ApprovalMachineEvent) (now : ℕ) (db : Db J)
      (written : Db J × Bool) : Type 0 where
    pub row : ApprovalCase J
    pub definition : WorkflowMachineDefinition
    pub gate : Option Bool
    pub found : db.cases case_id ≡ some row
    pub duties : (is_decision e.type ≡ true) → e.actor_user_id ≢ row.submitted_by
    pub parsed : parse row.definition_json ≡ some definition
    pub gated : rule_gate_passed rules definition row e.type ≡ ok gate
    pub changed :
        same_state row.xstate_context_snapshot.value (machine_move definition gate e row).0 ≡ false
    pub settled :
        settle
          (machine_move definition gate e row).0
          (machine_move definition gate e row).1
          e
          now
          row
          db
        ≡ ok written

  duties_hold :
      (decision : Bool) (actor submitter : ℕ)
      → (decision && not (enforce_separation_of_duties actor submitter)) ≡ false
      → decision ≡ true
      → actor ≢ submitter
  unfolding enforce_separation_of_duties decide_separation_of_duties
  duties_hold decision actor submitter h d = ground arith

  pub transition-Accepted :
      (case_id : ℕ) (e : ApprovalMachineEvent) (now : ℕ) (db : Db J) (written : Db J × Bool)
      → transition_within engine parse rules case_id e now db ≡ ok written
      → Accepted case_id e now db written
  unfolding transition_within
  transition-Accepted case_id e now db written h =
      let (row, p1, h1) = bind-ok (or_throw (db.cases case_id) Error.case_not_found) _ _ h in
      let (u, p2, h2) = bind-ok _ _ _ h1 in
      let (definition, p3, h3) =
        bind-ok (or_throw (parse row.definition_json) Error.definition_invalid) _ _ h2 in
      let (gate, p4, h4) = bind-ok (rule_gate_passed rules definition row e.type) _ _ h3 in
      let (v, p5, h5) = bind-ok _ _ _ h4 in
      record {
        row = row;
        definition = definition;
        gate = gate;
        found = or_throw-ok _ _ _ p1;
        duties = duties_hold _ _ _ (throw_if-ok _ _ u p2);
        parsed = or_throw-ok _ _ _ p3;
        gated = p4;
        changed = throw_if-ok _ _ v p5;
        settled = h5;
      }
