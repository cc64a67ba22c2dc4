-- ===== src/Governance/Escalation/Consistent.antt =====
-- The tables of escalations and events that any sequence of calls reaches.
use strat_align.Prelude.{
  ℕ, suc, ◌+◌, ◌≤◌, Bool, true, false, not, Option, none, some, List, [], ◌∷◌, ◌≡◌, refl, sym, ◌∙◌,
  inl, inr, arith, ltb, if◌then◌else◌, In, Bool-cases, Option-cases,
}
use strat_align.Machines.Approval.{pending_approval, WorkflowMachineDefinition}
use strat_align.Governance.Types.{
  ApprovalCase, DomainEvent, pending, decided, raised, ok, Db, same_state,
}
use strat_align.Governance.{ApprovalEngine, RuleOutcome, same_key, has_key, publish_within, nudged}
use strat_align.Governance.Settled.{ok-injective, is_raised, raised_count}
use strat_align.Governance.History.{empty_db, Call, AllSound, Call-AllSound}
use strat_align.Governance.Escalation.Governed.{Call-SameRaised}
use strat_align.Governance.Escalation.Rows.{
  escalation_count, ByParticipant, find_none, find_some_count, update-count, update-ByParticipant,
  upsert_new, new_unique, acknowledge-cases,
}
use strat_align.Governance.Escalation.Again.{
  upsert_of, raise_of, raise_not, err_or_ok, publish_known,
}
use strat_align.Governance.Escalation.{
  EscalationCase, World, RaiseEscalationInput, find_key, escalate, raise_for, raise, acknowledge,
}

positive : (n : ℕ) → 1 ≤ n → ltb 0 n ≡ true
positive n h = ground arith

or_count : (b : Bool) (n : ℕ) → (if b then true else ltb 0 n) ≡ ltb 0 ((if b then 1 else 0) + n)
or_count b n = ground arith

module _ {J : Type 0} where
  same_key-raised :
      (e : DomainEvent J) (x c p d : ℕ) → same_key e (raised x c p d) ≡ is_raised e c p d
  same_key-raised (pending _ _ _ _ _) x c p d = refl
  same_key-raised (decided _ _ _ _ _ _ _ _) x c p d = refl
  same_key-raised (raised _ _ _ _) x c p d = refl

  has_key-count :
      (outbox : List (DomainEvent J)) (x c p d : ℕ)
      → has_key outbox (raised x c p d) ≡ ltb 0 (raised_count outbox c p d)
  has_key-count [] x c p d = refl
  has_key-count (e ∷ es) x c p d =
      ground (arith, same_key-raised e x c p d, has_key-count es x c p d)

  publish_fresh :
      (e : DomainEvent J) (db : Db J)
      → has_key db.outbox e ≡ false
      → nudged (publish_within e db, not (has_key db.outbox e))
        ≡ record db { outbox = e ∷ db.outbox; nudges = suc db.nudges }
  unfolding publish_within
  publish_fresh e db fresh = rw fresh refl

module _ {J : Type 0} (engine : ApprovalEngine) (parse : J → Option WorkflowMachineDefinition)
    (rules : Option (ℕ → Option J → RuleOutcome)) where
  pub data WorldCall : World J → World J → Type 0 where
    raises :
        {w : World J} {r : Option EscalationCase × World J} (id : ℕ) (input : RaiseEscalationInput)
        → raise id input w ≡ ok r
        → WorldCall w r.1
    acknowledges :
        {w : World J} {es : List EscalationCase} (id actor now : ℕ)
        → acknowledge id actor now w.escalations ≡ ok es
        → WorldCall w (record w { escalations = es })
    -- A call that creates or moves an approval case.
    governs :
        {w : World J} {db : Db J}
        → Call engine parse rules w.db db
        → WorldCall w (record w { db = db })

  pub data ReachedWorld : World J → Type 0 where
    empty : ReachedWorld (record { db = empty_db; escalations = [] })
    further : {w w' : World J} → ReachedWorld w → WorldCall w w' → ReachedWorld w'

  pub record IsConsistent (w : World J) : Type 0 where
    pub cases_sound : AllSound engine parse rules w.db
    pub unique : (c p d : ℕ) → escalation_count w.escalations c p d ≤ 1
    pub announced :
        (c p d : ℕ) → raised_count w.db.outbox c p d ≡ escalation_count w.escalations c p d
    pub by_participant : (e : EscalationCase) → In e w.escalations → ByParticipant e

  no_case : (c : ApprovalCase J) → none ≡ some c → ⊥
  no_case c h = cc

  escalate_known :
      (id case_id p d : ℕ) (c : ApprovalCase J) (w : World J) (e : EscalationCase)
      → IsConsistent w
      → c.id ≡ case_id
      → find_key w.escalations case_id p d ≡ some e
      → (escalate id case_id p d c w).1 ≡ w
  unfolding escalate
  escalate_known id case_id p d c w e sound key found =
      let counted = find_some_count w.escalations case_id p d e found in
      let known : has_key w.db.outbox (raised e.id c.id p d) ≡ true =
        has_key-count w.db.outbox e.id c.id p d
        ∙ rw key (positive _ (omega (arith, sound.announced case_id p d, counted))) in
      rw (upsert_of id case_id p d w.escalations e found)
        (rw (publish_known (raised e.id c.id p d) w.db known) refl)

  escalate-kept :
      (id case_id p d : ℕ) (c : ApprovalCase J) (w : World J)
      → IsConsistent w
      → c.id ≡ case_id
      → IsConsistent (escalate id case_id p d c w).1
  unfolding escalate
  escalate-kept id case_id p d c w sound key =
      elim (Option-cases (find_key w.escalations case_id p d)) [
        | inr (e, found) ↦ rw (escalate_known id case_id p d c w e sound key found) sound
        | inl gone ↦
            let free = find_none w.escalations case_id p d gone in
            let fresh : has_key w.db.outbox (raised id c.id p d) ≡ false =
              has_key-count w.db.outbox id c.id p d
              ∙ rw key (rw (sound.announced case_id p d ∙ free) refl) in
            rw (upsert_new id case_id p d w.escalations gone) (
              rw (publish_fresh (raised id c.id p d) w.db fresh) (record {
                cases_sound = sound.cases_sound;
                unique = λ c' p' d'.
                    new_unique id case_id p d c' p' d' w.escalations free (sound.unique c' p' d');
                announced = λ c' p' d'. rw key (rw (sound.announced c' p' d') refl);
                by_participant = λ e at. elim at [
                  | inl here ↦ rw here (inl (refl, refl))
                  | inr later ↦ sound.by_participant e later
                ];
              }))
      ]

  raise_for-kept :
      (id case_id p d : ℕ) (o : Option (ApprovalCase J)) (w : World J)
      → IsConsistent w
      → w.db.cases case_id ≡ o
      → IsConsistent (raise_for id case_id p d o w).1
  raise_for-kept id case_id p d none w sound found = sound
  raise_for-kept id case_id p d (some c) w sound found =
      elim (Bool-cases (same_state c.current_state pending_approval)) [
        | inl waits ↦
            rw waits
              (escalate-kept id case_id p d c w sound (sound.cases_sound case_id c found).keyed)
        | inr settled ↦ rw settled sound
      ]

  raise-kept :
      (id : ℕ) (input : RaiseEscalationInput) (w : World J) (r : Option EscalationCase × World J)
      → IsConsistent w
      → raise id input w ≡ ok r
      → IsConsistent r.1
  raise-kept id input w r sound h = elim (Option-cases input.deadline) [
    | inl invalid ↦ absurd (err_or_ok _ r (sym (raise_not id input w invalid) ∙ h))
    | inr (d, at) ↦
        rw (ok-injective (sym h ∙ raise_of id d input w at))
          (raise_for-kept id input.approval_case_id input.participant_user_id d _ w sound refl)
  ]

  acknowledge-kept :
      (id actor now : ℕ) (w : World J) (es : List EscalationCase)
      → IsConsistent w
      → acknowledge id actor now w.escalations ≡ ok es
      → IsConsistent (record w { escalations = es })
  acknowledge-kept id actor now w es sound h =
      elim (acknowledge-cases id actor now w.escalations es h) [
        | inl same ↦ rw same sound
        | inr (e, found, own, becomes) ↦ rw becomes (record {
          cases_sound = sound.cases_sound;
          unique = λ c p d. rw (update-count id actor now w.escalations c p d) (sound.unique c p d);
          announced =
              λ c p d. sound.announced c p d ∙ sym (update-count id actor now w.escalations c p d);
          by_participant =
              update-ByParticipant id actor now w.escalations e found own sound.by_participant;
        })
      ]

  -- Whatever calls create and move approval cases and raise and acknowledge escalations: for a
  -- case, a participant and a deadline there is at most one escalation, the outbox has exactly one
  -- event for it and none where there is no escalation, an escalation is acknowledged by nobody but
  -- its participant, and the rows of the approval cases stay sound.
  pub escalations-IsConsistent : {w : World J} → ReachedWorld w → IsConsistent w
  escalations-IsConsistent empty = record {
    cases_sound = λ id c found. absurd (no_case c found);
    unique = λ c p d. omega arith;
    announced = λ c p d. refl;
    by_participant = λ e at. absurd at;
  }
  escalations-IsConsistent (further before (raises {w} {r} id input h)) =
      raise-kept id input w r (escalations-IsConsistent before) h
  escalations-IsConsistent (further before (acknowledges {w} {es} id actor now h)) =
      acknowledge-kept id actor now w es (escalations-IsConsistent before) h
  escalations-IsConsistent (further before (governs {w} call)) =
      let sound = escalations-IsConsistent before in
      record {
        cases_sound = Call-AllSound engine parse rules call sound.cases_sound;
        unique = sound.unique;
        announced = λ c p d. Call-SameRaised engine parse rules call c p d ∙ sound.announced c p d;
        by_participant = sound.by_participant;
      }
