-- ===== src/Governance/Settled.antt =====
-- What the part of a transition after the machine's move does to the tables.
use strat_align.Prelude.{
  ℕ, ◌+◌, ◌==◌, ◌&&◌, [], ◌∷◌, Bool, true, false, not, Option, none, some, List, ◌≡◌, refl, ap, ◌∙◌,
  inl, inr, arith, In, ◌⊎◌, Bool-cases, if◌then◌else◌,
}
use strat_align.Machines.Approval.{
  ApprovalState, ActionRef, record_decision, record_changes_requested, schedule_escalation,
  ApprovalMachineEvent, is_decision,
}
use strat_align.Governance.Types.{
  ApprovalCase, approval, rejection, changes, DecisionLogEntry, GovernanceEventType, DomainEvent,
  raised, Error, Result, ok, err, ◌>>=◌, throw_if, or_throw, Db,
}
use strat_align.Governance.{
  is_approve, is_request_changes, has_effect, publish_within, has_key, decision_event_type,
  publish_typed, put_case, log_decision, record_decision_log, record_changes_log, publish_pending,
  publish_decision, moved, settle,
}
use strat_align.Governance.Accepted.{bind-ok}

-- The value of a result.
abbrev value_or {ℓ} : {A : Type ℓ} → A → Result A → A
value_or d (ok a) = a
value_or d (err e) = d

pub ok-injective {ℓ} : {A : Type ℓ} {a b : A} → ◌≡◌ {A = Result A} (ok a) (ok b) → a ≡ b
ok-injective {a} h = ap (value_or a) h

-- An optional part that may throw before it writes.
part-ok :
    {A : Type 0} (b mismatch : Bool) (old new written : A)
    → (if b then (throw_if mismatch Error.decision_mismatch >>= λ _. ok new) else ok old)
      ≡ ok written
    → ((b ≡ true) × (written ≡ new)) ⊎ ((b ≡ false) × (written ≡ old))
part-ok true true old new written h = cc
part-ok true false old new written h = inl (refl, ground arith)
part-ok false mismatch old new written h = inr (refl, ground arith)

module _ {J : Type 0} where
  abbrev pub decision_entry : ApprovalMachineEvent → ApprovalCase J → DecisionLogEntry
  decision_entry e c = record {
    case_id = c.id;
    decision = if is_approve e.type then approval else rejection;
    decided_by = e.actor_user_id;
    rationale = e.rationale;
  }

  abbrev pub is_raised : DomainEvent J → ℕ → ℕ → ℕ → Bool
  is_raised (raised x c' p' d') c p d = c' == c && p' == p && d' == d
  is_raised _ c p d = false

  -- How many escalation events the outbox holds for a case, a participant and a deadline.
  abbrev pub raised_count : List (DomainEvent J) → ℕ → ℕ → ℕ → ℕ
  raised_count [] c p d = 0
  raised_count (x ∷ xs) c p d = (if is_raised x c p d then 1 else 0) + raised_count xs c p d

  abbrev pub SameRaised : Db J → Db J → Type 0
  SameRaised db db' = (c p d : ℕ) → raised_count db'.outbox c p d ≡ raised_count db.outbox c p d

  -- The cases are those of the first tables, no entry of the log is lost, and no escalation is new.
  pub record IsLater (db db' : Db J) : Type 0 where
    pub same_cases : db'.cases ≡ db.cases
    pub same_raised : SameRaised db db'
    pub log_kept : (x : DecisionLogEntry) → In x db.decision_log → In x db'.decision_log

  IsLater-refl : (db : Db J) → IsLater db db
  IsLater-refl db = record { same_cases = refl; same_raised = λ c p d. refl; log_kept = λ x i. i }

  IsLater-trans : {a b c : Db J} → IsLater a b → IsLater b c → IsLater a c
  IsLater-trans p q = record {
    same_cases = q.same_cases ∙ p.same_cases;
    same_raised = λ a b d. q.same_raised a b d ∙ p.same_raised a b d;
    log_kept = λ x i. q.log_kept x (p.log_kept x i);
  }

  publish_within-IsLater :
      (e : DomainEvent J) (db : Db J)
      → ((c p d : ℕ) → is_raised e c p d ≡ false)
      → IsLater db (publish_within e db)
  unfolding publish_within
  publish_within-IsLater e db other = elim (Bool-cases (has_key db.outbox e)) [
    | inl known ↦ rw known (IsLater-refl db)
    | inr new ↦ rw new (record {
      same_cases = refl;
      same_raised = λ c p d. rw (other c p d) (omega arith);
      log_kept = λ x i. i;
    })
  ]

  log_decision-IsLater : (x : DecisionLogEntry) (db : Db J) → IsLater db (log_decision x db)
  unfolding log_decision
  log_decision-IsLater x db = record {
    same_cases = refl;
    same_raised = λ c p d. refl;
    log_kept = λ y i. inr i;
  }

  log_decision-In : (x : DecisionLogEntry) (db : Db J) → In x (log_decision x db).decision_log
  unfolding log_decision
  log_decision-In x db = inl refl

  pub put_case-log :
      (c : ApprovalCase J) (db : Db J) (x : DecisionLogEntry)
      → In x db.decision_log
      → In x (put_case c db).decision_log
  unfolding put_case
  put_case-log c db x i = i

  pub put_case-raised : (c : ApprovalCase J) (db : Db J) → SameRaised db (put_case c db)
  unfolding put_case
  put_case-raised c db a b d = refl

  record_decision_log-IsLater :
      (effects : List ActionRef) (e : ApprovalMachineEvent) (c : ApprovalCase J) (db db' : Db J)
      → record_decision_log effects e c db ≡ ok db'
      → IsLater db db'
        × (has_effect effects record_decision ≡ true → In (decision_entry e c) db'.decision_log)
  unfolding record_decision_log
  record_decision_log-IsLater effects e c db db' h =
      elim (part-ok (has_effect effects record_decision) (not (is_decision e.type)) db
        (log_decision (decision_entry e c) db) db' h) [
          | inl (ran, same) ↦ rw same (
            log_decision-IsLater (decision_entry e c) db,
            λ r. log_decision-In (decision_entry e c) db,
          )
          | inr (idle, same) ↦ rw same (IsLater-refl db, λ r. absurd (cc))
        ]

  record_changes_log-IsLater :
      (effects : List ActionRef) (e : ApprovalMachineEvent) (c : ApprovalCase J) (db db' : Db J)
      → record_changes_log effects e c db ≡ ok db'
      → IsLater db db'
  unfolding record_changes_log
  record_changes_log-IsLater effects e c db db' h =
      elim (part-ok (has_effect effects record_changes_requested) (not (is_request_changes e.type))
        db (log_decision (record (decision_entry e c) { decision = changes }) db) db' h) [
          | inl (ran, same) ↦ rw same (log_decision-IsLater _ db)
          | inr (idle, same) ↦ rw same (IsLater-refl db)
        ]

  publish_pending-IsLater :
      (effects : List ActionRef) (now : ℕ) (c : ApprovalCase J) (db : Db J) (w : Db J × Bool)
      → publish_pending effects now c db ≡ ok w
      → IsLater db w.0
  unfolding publish_pending
  publish_pending-IsLater effects now c db w h =
      elim (Bool-cases (has_effect effects schedule_escalation)) [
        | inl ran ↦
            let (p, known, done) =
              bind-ok (or_throw c.approval_participant_id Error.no_participant) _ w (rw ran at h) in
            rw (← ok-injective done) (publish_within-IsLater _ db λ a b d. refl)
        | inr idle ↦ rw (← ok-injective (rw idle at h)) (IsLater-refl db)
      ]

  publish_typed-IsLater :
      (type : Option GovernanceEventType) (e : ApprovalMachineEvent) (c : ApprovalCase J)
      (w w' : Db J × Bool)
      → publish_typed type e c w ≡ ok w'
      → IsLater w.0 w'.0
  publish_typed-IsLater none e c w w' h = rw (← ok-injective h) (IsLater-refl w.0)
  publish_typed-IsLater (some type) e c (db, p) w' h =
      let (u, fits, done) = bind-ok (throw_if (not (is_decision e.type)) _) _ w' h in
      rw (← ok-injective done) (publish_within-IsLater _ db λ a b d. refl)

  publish_decision-IsLater :
      (effects : List ActionRef) (e : ApprovalMachineEvent) (c : ApprovalCase J)
      (w w' : Db J × Bool)
      → publish_decision effects e c w ≡ ok w'
      → IsLater w.0 w'.0
  unfolding publish_decision
  publish_decision-IsLater effects e c w w' h =
      publish_typed-IsLater (decision_event_type effects) e c w w' h

  -- The tables after a settled move: the row of the case is the moved one, every other row is as it
  -- was, no escalation is new, the log keeps its entries, and holds the decision if the machine
  -- recorded one.
  pub record Settled (after : ApprovalState) (effects : List ActionRef) (e : ApprovalMachineEvent)
      (c : ApprovalCase J) (db db' : Db J) : Type 0 where
    pub cases_moved : db'.cases ≡ (put_case (moved after c) db).cases
    pub same_raised : SameRaised db db'
    pub log_kept : (x : DecisionLogEntry) → In x db.decision_log → In x db'.decision_log
    pub decision_logged :
        has_effect effects record_decision ≡ true → In (decision_entry e c) db'.decision_log

  pub settle-Settled :
      (after : ApprovalState) (effects : List ActionRef) (e : ApprovalMachineEvent) (now : ℕ)
      (c : ApprovalCase J) (db : Db J) (w : Db J × Bool)
      → settle after effects e now c db ≡ ok w
      → Settled after effects e c db w.0
  unfolding settle
  settle-Settled after effects e now c db w h =
      let (a, p1, h1) =
        bind-ok (record_decision_log effects e c (put_case (moved after c) db)) _ w h in
      let (b, p2, h2) = bind-ok (record_changes_log effects e c a) _ w h1 in
      let (d, p3, h3) = bind-ok (publish_pending effects now c b) _ w h2 in
      let (first, logged) = record_decision_log-IsLater effects e c _ a p1 in
      let later : IsLater a w.0 = IsLater-trans (record_changes_log-IsLater effects e c a b p2) (
        IsLater-trans (publish_pending-IsLater effects now c b d p3)
          (publish_decision-IsLater effects e c d w h3)) in
      record {
        cases_moved = (IsLater-trans first later).same_cases;
        same_raised = λ a b d.
            (IsLater-trans first later).same_raised a b d
            ∙ put_case-raised (moved after c) db a b d;
        log_kept =
            λ x i. (IsLater-trans first later).log_kept x (put_case-log (moved after c) db x i);
        decision_logged = λ ran. later.log_kept (decision_entry e c) (logged ran);
      }
