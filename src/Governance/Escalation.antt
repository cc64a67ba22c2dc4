-- ===== src/Governance/Escalation.antt =====
-- apps/backend/src/modules/governance/governance-escalation.service.ts: escalations of approval
-- cases that are still pending when their deadline comes. Deadlines are milliseconds, `none` for a
-- text that is no date. The advisory locks make each call one step.
pub mod Again
pub mod Rows
pub mod Governed
pub mod Consistent
mod Tests
use strat_align.Prelude.{
  ℕ, suc, Bool, true, false, not, Option, none, some, List, [], ◌∷◌, ◌==◌, ◌&&◌, if◌then◌else◌,
}
use strat_align.Machines.Approval.{pending_approval}
use strat_align.Governance.Types.{
  ApprovalCase, DomainEvent, raised, Error, Result, ok, err, Db, same_state,
}
use strat_align.Governance.{has_key, publish_within, nudged}

pub record EscalationCase : Type 0 where
  pub id : ℕ
  pub case_id : ℕ
  pub participant : ℕ
  pub deadline : ℕ
  pub acknowledged_at : Option ℕ
  pub acknowledged_by : Option ℕ

-- The tables of the governance service, and the escalations with the latest first.
pub record World (J : Type 0) : Type 0 where
  pub db : Db J
  pub escalations : List EscalationCase

pub record RaiseEscalationInput : Type 0 where
  pub approval_case_id : ℕ
  pub participant_user_id : ℕ
  pub deadline : Option ℕ

abbrev pub keyed : EscalationCase → ℕ → ℕ → ℕ → Bool
keyed e c p d = e.case_id == c && e.participant == p && e.deadline == d

-- The row with the unique key of a case, a participant and a deadline.
abbrev pub find_key : List EscalationCase → ℕ → ℕ → ℕ → Option EscalationCase
find_key [] c p d = none
find_key (e ∷ es) c p d = elim (keyed e c p d) [ true ↦ some e | false ↦ find_key es c p d ]

abbrev pub new_escalation : ℕ → ℕ → ℕ → ℕ → EscalationCase
new_escalation id c p d = record {
  id = id;
  case_id = c;
  participant = p;
  deadline = d;
  acknowledged_at = none;
  acknowledged_by = none;
}

abbrev pub found_or_new :
    ℕ
    → ℕ
    → ℕ
    → ℕ
    → List EscalationCase
    → Option EscalationCase
    → EscalationCase × List EscalationCase
found_or_new id c p d es (some e) = (e, es)
found_or_new id c p d es none = let e = new_escalation id c p d in (e, e ∷ es)

-- `escalationCase.upsert` with an empty update; `id` is the key of the row if it is created.
unfoldable pub upsert : ℕ → ℕ → ℕ → ℕ → List EscalationCase → EscalationCase × List EscalationCase
upsert id c p d es = found_or_new id c p d es (find_key es c p d)

module _ {J : Type 0} where
  -- The rest of the transaction in `raise` for a pending case: the row, then its event; the relay
  -- is nudged if the event is new.
  unfoldable pub escalate :
      ℕ → ℕ → ℕ → ℕ → ApprovalCase J → World J → Option EscalationCase × World J
  escalate id case_id p d c w =
      let (e, es) = upsert id case_id p d w.escalations in
      let event = raised e.id c.id p d in
      (
        some e,
        record {
          db = nudged (publish_within event w.db, not (has_key w.db.outbox event));
          escalations = es;
        },
      )

  -- A stale timer does nothing.
  abbrev pub raise_for :
      ℕ → ℕ → ℕ → ℕ → Option (ApprovalCase J) → World J → Option EscalationCase × World J
  raise_for id case_id p d none w = (none, w)
  raise_for id case_id p d (some c) w =
      if same_state c.current_state pending_approval then escalate id case_id p d c w else (none, w)

  abbrev raise_at : ℕ → ℕ → ℕ → Option ℕ → World J → Result (Option EscalationCase × World J)
  raise_at id case_id p none w = err Error.deadline_invalid
  raise_at id case_id p (some d) w = ok (raise_for id case_id p d (w.db.cases case_id) w)

  -- `raise`
  unfoldable pub raise :
      ℕ → RaiseEscalationInput → World J → Result (Option EscalationCase × World J)
  raise id input w = raise_at id input.approval_case_id input.participant_user_id input.deadline w

-- `findUnique` by the primary key
abbrev pub find_escalation : List EscalationCase → ℕ → Option EscalationCase
find_escalation [] id = none
find_escalation (e ∷ es) id = elim (e.id == id) [ true ↦ some e | false ↦ find_escalation es id ]

abbrev pub acknowledged : ℕ → ℕ → EscalationCase → EscalationCase
acknowledged actor now e = record e { acknowledged_at = some now; acknowledged_by = some actor }

-- `escalationCase.update` of the row with the key
abbrev pub update_escalation : ℕ → ℕ → ℕ → List EscalationCase → List EscalationCase
update_escalation id actor now [] = []
update_escalation id actor now (e ∷ es) =
    let rest = update_escalation id actor now es in
    if e.id == id then acknowledged actor now e ∷ es else e ∷ rest

abbrev pub acknowledge_row :
    ℕ → ℕ → ℕ → List EscalationCase → Option EscalationCase → Result (List EscalationCase)
acknowledge_row id actor now es none = err Error.escalation_not_found
acknowledge_row id actor now es (some e) =
    if e.participant == actor
    then elim e.acknowledged_at [ none ↦ ok (update_escalation id actor now es) | some at ↦ ok es ]
    else err Error.participant_mismatch

-- `acknowledge`, on the table of escalations
unfoldable pub acknowledge : ℕ → ℕ → ℕ → List EscalationCase → Result (List EscalationCase)
acknowledge id actor now es = acknowledge_row id actor now es (find_escalation es id)
