-- ===== src/Governance/Escalation/Again.antt =====
-- A timer that fires again changes nothing.
use strat_align.Prelude.{
  ℕ, Bool, true, false, not, Option, none, some, List, ◌≡◌, ◌≢◌, refl, sym, ap, ◌∙◌, inl, inr,
  arith, Bool-cases, Option-cases, test_refl,
}
use strat_align.Governance.Types.{
  ApprovalCase, DomainEvent, raised, Error, Result, ok, err, Db, same_state,
}
use strat_align.Governance.{has_key, publish_within, nudged}
use strat_align.Machines.Approval.{pending_approval}
use strat_align.Governance.Settled.{ok-injective}
use strat_align.Governance.Escalation.{
  EscalationCase, World, RaiseEscalationInput, keyed, find_key, new_escalation, upsert, escalate,
  raise_for, raise,
}

keyed_refl : (id c p d : ℕ) → keyed (new_escalation id c p d) c p d ≡ true
keyed_refl id c p d = rw (test_refl c, test_refl p, test_refl d) refl

-- After an upsert its row is found.
upsert_found :
    (id c p d : ℕ) (es : List EscalationCase)
    → find_key (upsert id c p d es).1 c p d ≡ some (upsert id c p d es).0
unfolding upsert
upsert_found id c p d es = elim (Option-cases (find_key es c p d)) [
  | inl gone ↦ rw gone (rw (find_key, keyed_refl id c p d) refl)
  | inr (e, found) ↦ rw found found
]

pub upsert_of :
    (id c p d : ℕ) (es : List EscalationCase) (e : EscalationCase)
    → find_key es c p d ≡ some e
    → upsert id c p d es ≡ (e, es)
unfolding upsert
upsert_of id c p d es e found = rw found refl

upsert_again :
    (id id' c p d : ℕ) (es : List EscalationCase)
    → upsert id' c p d (upsert id c p d es).1 ≡ upsert id c p d es
upsert_again id id' c p d es =
    upsert_of id' c p d (upsert id c p d es).1 (upsert id c p d es).0 (upsert_found id c p d es)

module _ {J : Type 0} where
  published_key :
      (x c p d : ℕ) (db : Db J)
      → has_key (publish_within (raised x c p d) db).outbox (raised x c p d) ≡ true
  unfolding publish_within
  published_key x c p d db = elim (Bool-cases (has_key db.outbox (raised x c p d))) [
    | inl known ↦ rw known known
    | inr fresh ↦ rw fresh (rw (test_refl c, test_refl p, test_refl d) refl)
  ]

  pub publish_known :
      (e : DomainEvent J) (db : Db J)
      → has_key db.outbox e ≡ true
      → nudged (publish_within e db, not (has_key db.outbox e)) ≡ db
  unfolding publish_within
  publish_known e db known = rw known refl

  nudged_outbox : (db : Db J) (b : Bool) → (nudged (db, b)).outbox ≡ db.outbox
  nudged_outbox db true = refl
  nudged_outbox db false = refl

  nudged_cases : (db : Db J) (b : Bool) → (nudged (db, b)).cases ≡ db.cases
  nudged_cases db true = refl
  nudged_cases db false = refl

  publish_within-cases : (e : DomainEvent J) (db : Db J) → (publish_within e db).cases ≡ db.cases
  unfolding publish_within
  publish_within-cases e db = ground arith

  pub escalate-cases :
      (id case_id p d : ℕ) (c : ApprovalCase J) (w : World J)
      → (escalate id case_id p d c w).1.db.cases ≡ w.db.cases
  unfolding escalate
  escalate-cases id case_id p d c w = nudged_cases _ _ ∙ publish_within-cases _ w.db

  escalate_again :
      (id id' case_id p d : ℕ) (c : ApprovalCase J) (w : World J)
      → escalate id' case_id p d c (escalate id case_id p d c w).1 ≡ escalate id case_id p d c w
  unfolding escalate
  escalate_again id id' case_id p d c w =
      let x = (upsert id case_id p d w.escalations).0.id in
      let event : DomainEvent J = raised x c.id p d in
      let fresh = not (has_key w.db.outbox event) in
      let db' = nudged (publish_within event w.db, fresh) in
      let known : has_key db'.outbox event ≡ true =
        ap (λ o. has_key o event) (nudged_outbox (publish_within event w.db) fresh)
        ∙ published_key x c.id p d w.db in
      rw (upsert_again id id' case_id p d w.escalations) (rw (publish_known event db' known) refl)

  pub err_or_ok :
      (e : Error) (r : Option EscalationCase × World J)
      → ◌≢◌ {A = Result (Option EscalationCase × World J)} (err e) (ok r)
  err_or_ok e r h = cc

  raise_for_again :
      (id id' case_id p d : ℕ) (o : Option (ApprovalCase J)) (w : World J)
      → w.db.cases case_id ≡ o
      → raise_for id' case_id p d
          ((raise_for id case_id p d o w).1.db.cases case_id)
          (raise_for id case_id p d o w).1
        ≡ raise_for id case_id p d o w
  raise_for_again id id' case_id p d none w found = rw found refl
  raise_for_again id id' case_id p d (some c) w found =
      elim (Bool-cases (same_state c.current_state pending_approval)) [
        | inl waits ↦
            rw (waits, ap (λ f. f case_id) (escalate-cases id case_id p d c w), found)
              (rw waits (escalate_again id id' case_id p d c w))
        | inr settled ↦ rw (settled, found) (rw settled refl)
      ]

  pub raise_of :
      (id d : ℕ) (input : RaiseEscalationInput) (w : World J)
      → input.deadline ≡ some d
      → raise id input w
        ≡ ok (
            raise_for id input.approval_case_id input.participant_user_id d
              (w.db.cases input.approval_case_id)
              w)
  unfolding raise
  raise_of id d input w at = rw at refl

  pub raise_not :
      (id : ℕ) (input : RaiseEscalationInput) (w : World J)
      → input.deadline ≡ none
      → raise id input w ≡ err Error.deadline_invalid
  unfolding raise
  raise_not id input w at = rw at refl

  -- A timer that fires a second time, for the same case, participant and deadline and with no other
  -- call between, gives what the first gave and leaves all tables and the nudges of the relay as
  -- the first left them.
  pub raise_again :
      (id id' : ℕ) (input : RaiseEscalationInput) (w : World J)
      (r : Option EscalationCase × World J)
      → raise id input w ≡ ok r
      → raise id' input r.1 ≡ ok r
  raise_again id id' input w r h = elim (Option-cases input.deadline) [
    | inl invalid ↦ absurd (err_or_ok _ r (sym (raise_not id input w invalid) ∙ h))
    | inr (d, at) ↦
        let first = ok-injective (sym h ∙ raise_of id d input w at) in
        rw first (
          raise_of id' d input _ at
          ∙ ap ok (
              raise_for_again id id' input.approval_case_id input.participant_user_id d
                (w.db.cases input.approval_case_id) w refl))
  ]
