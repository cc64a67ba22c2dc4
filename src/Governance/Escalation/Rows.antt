-- ===== src/Governance/Escalation/Rows.antt =====
-- The table of escalations: its unique keys, its lookups and its updates.
use strat_align.Prelude.{
  ℕ, ◌+◌, ◌≤◌, true, false, Option, none, some, List, [], ◌∷◌, ◌≡◌, ◌≢◌, refl, sym, ap, ◌∙◌, ◌⊎◌,
  inl, inr, arith, ◌==◌, ◌&&◌, if◌then◌else◌, In, Bool-cases, Option-cases, and_true, eq_of_test,
}
use mathlib.Core.Path.{subst}
use strat_align.Governance.Types.{Error, Result, ok, err}
use strat_align.Governance.Settled.{ok-injective}
use strat_align.Governance.Escalation.{
  EscalationCase, keyed, find_key, new_escalation, upsert, find_escalation, acknowledged,
  update_escalation, acknowledge_row, acknowledge,
}

-- How many rows there are for them.
abbrev pub escalation_count : List EscalationCase → ℕ → ℕ → ℕ → ℕ
escalation_count [] c p d = 0
escalation_count (e ∷ es) c p d = (if keyed e c p d then 1 else 0) + escalation_count es c p d

-- An escalation is not acknowledged, or it is by its participant.
abbrev pub ByParticipant : EscalationCase → Type 0
ByParticipant e =
    ((e.acknowledged_at ≡ none) × (e.acknowledged_by ≡ none))
    ⊎ ((now : ℕ) × (e.acknowledged_at ≡ some now) × (e.acknowledged_by ≡ some e.participant))

none_or_some : (e : EscalationCase) → none ≡ some e → ⊥
none_or_some e h = cc

some_injective : (a b : EscalationCase) → some a ≡ some b → a ≡ b
some_injective a b h = cc

pub find_none :
    (es : List EscalationCase) (c p d : ℕ)
    → find_key es c p d ≡ none
    → escalation_count es c p d ≡ 0
find_none [] c p d h = refl
find_none (e ∷ es) c p d h = ground (arith, find_none es c p d)

pub find_some_count :
    (es : List EscalationCase) (c p d : ℕ) (e : EscalationCase)
    → find_key es c p d ≡ some e
    → 1 ≤ escalation_count es c p d
find_some_count [] c p d e h = absurd (none_or_some e h)
find_some_count (x ∷ es) c p d e h = ground (arith, find_some_count es c p d e)

pub update-count :
    (id actor now : ℕ) (es : List EscalationCase) (c p d : ℕ)
    → escalation_count (update_escalation id actor now es) c p d ≡ escalation_count es c p d
update-count id actor now [] c p d = refl
update-count id actor now (e ∷ es) c p d = ground (arith, update-count id actor now es c p d)

update_here :
    (id actor now : ℕ) (y : EscalationCase) (es : List EscalationCase)
    → (y.id == id) ≡ true
    → update_escalation id actor now (y ∷ es) ≡ acknowledged actor now y ∷ es
update_here id actor now y es same = rw (update_escalation, same) refl

update_later :
    (id actor now : ℕ) (y : EscalationCase) (es : List EscalationCase)
    → (y.id == id) ≡ false
    → update_escalation id actor now (y ∷ es) ≡ y ∷ update_escalation id actor now es
update_later id actor now y es other = rw (update_escalation, other) refl

find_here :
    (id : ℕ) (y : EscalationCase) (es : List EscalationCase)
    → (y.id == id) ≡ true
    → find_escalation (y ∷ es) id ≡ some y
find_here id y es same = rw (find_escalation, same) refl

find_later :
    (id : ℕ) (y : EscalationCase) (es : List EscalationCase)
    → (y.id == id) ≡ false
    → find_escalation (y ∷ es) id ≡ find_escalation es id
find_later id y es other = rw (find_escalation, other) refl

pub update-ByParticipant :
    (id actor now : ℕ) (es : List EscalationCase) (x : EscalationCase)
    → find_escalation es id ≡ some x
    → x.participant ≡ actor
    → ((e : EscalationCase) → In e es → ByParticipant e)
    → (e : EscalationCase) → In e (update_escalation id actor now es)
    → ByParticipant e
update-ByParticipant id actor now [] x found own all e at = absurd at
update-ByParticipant id actor now (y ∷ es) x found own all e at =
    let rest = update-ByParticipant id actor now es x in
    elim (Bool-cases (y.id == id)) [
      | inl same ↦
          let is : y ≡ x = some_injective y x (sym (find_here id y es same) ∙ found) in
          elim (subst (In e) (update_here id actor now y es same) at) [
            | inl here ↦
                let mine : y.participant ≡ actor =
                  ap (λ (z : EscalationCase). z.participant) is ∙ own in
                rw here (inr (now, refl, ap some (sym mine)))
            | inr later ↦ all e (inr later)
          ]
      | inr other ↦ elim (subst (In e) (update_later id actor now y es other) at) [
        | inl here ↦ all e (inl here)
        | inr later ↦
            rest (sym (find_later id y es other) ∙ found) own (λ z in_es. all z (inr in_es)) e later
      ]
    ]

pub upsert_new :
    (id c p d : ℕ) (es : List EscalationCase)
    → find_key es c p d ≡ none
    → upsert id c p d es ≡ (new_escalation id c p d, new_escalation id c p d ∷ es)
unfolding upsert
upsert_new id c p d es gone = rw gone refl

same_keys :
    (c p d c' p' d' : ℕ) (es : List EscalationCase)
    → (c == c' && p == p' && d == d') ≡ true
    → escalation_count es c' p' d' ≡ escalation_count es c p d
same_keys c p d c' p' d' es h =
    let (rest, hd) = and_true (c == c' && p == p') (d == d') h in
    let (hc, hp) = and_true (c == c') (p == p') rest in
    rw (eq_of_test c c' hc, eq_of_test p p' hp, eq_of_test d d' hd) refl

pub new_unique :
    (id c p d c' p' d' : ℕ) (es : List EscalationCase)
    → escalation_count es c p d ≡ 0
    → escalation_count es c' p' d' ≤ 1
    → escalation_count (new_escalation id c p d ∷ es) c' p' d' ≤ 1
new_unique id c p d c' p' d' es free others = elim (Bool-cases (c == c' && p == p' && d == d')) [
  | inl same ↦ rw same (omega (arith, same_keys c p d c' p' d' es same))
  | inr other ↦ rw other (omega (arith, others))
]

acknowledge_of :
    (id actor now : ℕ) (es : List EscalationCase) (o : Option EscalationCase)
    → find_escalation es id ≡ o
    → acknowledge id actor now es ≡ acknowledge_row id actor now es o
unfolding acknowledge
acknowledge_of id actor now es o found = rw found refl

err_or_rows :
    (e : Error) (es : List EscalationCase) → ◌≢◌ {A = Result (List EscalationCase)} (err e) (ok es)
err_or_rows e es h = cc

row_cases :
    (id actor now : ℕ) (es es' : List EscalationCase) (e : EscalationCase)
    → find_escalation es id ≡ some e
    → acknowledge_row id actor now es (some e) ≡ ok es'
    → (es' ≡ es)
      ⊎ ((e : EscalationCase) × (find_escalation es id ≡ some e)
          × (e.participant ≡ actor)
          × (es' ≡ update_escalation id actor now es))
row_cases id actor now es es' e found h = elim (Bool-cases (e.participant == actor)) [
  | inl own ↦ elim (Option-cases e.acknowledged_at) [
    | inl open_still ↦ inr (
      e,
      found,
      eq_of_test e.participant actor own,
      ok-injective (sym h ∙ rw (own, open_still) refl),
    )
    | inr (at, done) ↦ inl (ok-injective (sym h ∙ rw (own, done) refl))
  ]
  | inr foreign ↦ absurd (err_or_rows Error.participant_mismatch es' (sym (rw foreign refl) ∙ h))
]

-- What an acknowledgement that goes through did.
pub acknowledge-cases :
    (id actor now : ℕ) (es es' : List EscalationCase)
    → acknowledge id actor now es ≡ ok es'
    → (es' ≡ es)
      ⊎ ((e : EscalationCase) × (find_escalation es id ≡ some e)
          × (e.participant ≡ actor)
          × (es' ≡ update_escalation id actor now es))
acknowledge-cases id actor now es es' h = elim (Option-cases (find_escalation es id)) [
  | inl gone ↦ absurd (err_or_rows _ es' (sym (acknowledge_of id actor now es none gone) ∙ h))
  | inr (e, found) ↦
      let done = sym (acknowledge_of id actor now es (some e) found) ∙ h in
      row_cases id actor now es es' e found done
]
