-- ===== src/Machines/ValueLifecycle/Milestones.antt =====
-- The order in which a benefit goes through its lifecycle, and how it is stopped.
use strat_align.Prelude.{
  ℕ, ◌<◌, true, some, List, [], ◌∷◌, ◌++◌, ◌≡◌, ◌≢◌, ◌⊎◌, inl, inr, refl, sym, ap, arith, map, In,
}
use mathlib.Core.Path.{subst, ◌∙◌}
use mathlib.Core.List.{append-nil, append_assoc}
use strat_align.Machines.Engine.{next, send-next}
use strat_align.Machines.ValueLifecycle.{
  ValueLifecycleState, identification, pending_approval, approved, validation, tracking, closure,
  ValueLifecycleContext, ActionRef, EventType, submit_for_approval, approval_granted,
  begin_validation, start_tracking, close, stop, ValueLifecycleEvent, stops, type_of, guards,
  run_actions, value_lifecycle_machine, LifecycleEngine, Actor, send, send_all, start,
}

-- The machine's step over the documented behaviour of the engine.
abbrev pub step : ValueLifecycleEvent → Actor → Actor
step e a =
    let (value, actions) = next value_lifecycle_machine (guards a.context) a.value (type_of e) in
    record { value = value; context = run_actions e actions a.context }

abbrev milestones : ValueLifecycleState → List EventType
milestones identification = []
milestones pending_approval = submit_for_approval ∷ []
milestones approved = submit_for_approval ∷ approval_granted ∷ []
milestones validation = submit_for_approval ∷ approval_granted ∷ begin_validation ∷ []
milestones tracking =
    submit_for_approval ∷ approval_granted ∷ begin_validation ∷ start_tracking ∷ []
milestones closure =
    submit_for_approval ∷ approval_granted ∷ begin_validation ∷ start_tracking ∷ close ∷ []

-- One event other than a stop leaves the state, or adds its type as the next milestone.
advance :
    (e : ValueLifecycleEvent) (a : Actor)
    → type_of e ≢ stop
    → ((step e a).value ≡ a.value)
      ⊎ (milestones (step e a).value ≡ milestones a.value ++ type_of e ∷ [])
unfolding next value_lifecycle_machine
advance e a h = ground arith

-- The first list, in its order, among the members of the second.
pub data Subsequence : List EventType → List EventType → Type 0 where
  none_left : {ys : List EventType} → Subsequence [] ys
  pass : {xs ys : List EventType} (y : EventType) → Subsequence xs ys → Subsequence xs (y ∷ ys)
  take :
      {xs ys : List EventType} (x : EventType) → Subsequence xs ys → Subsequence (x ∷ xs) (x ∷ ys)

send-step :
    (engine : LifecycleEngine) (e : ValueLifecycleEvent) (a : Actor) → send engine e a ≡ step e a
unfolding send
send-step engine e a =
    ap
      (λ (r : ValueLifecycleState × List ActionRef).
        let made : Actor = record { value = r.0; context = run_actions e r.1 a.context } in made)
      (send-next engine value_lifecycle_machine (guards a.context) a.value (type_of e))

to_validation :
    (e : ValueLifecycleEvent) (a : Actor)
    → (step e a).value ≡ validation
    → a.value ≢ validation
    → a.context.baseline_exists ≡ true
unfolding next value_lifecycle_machine
to_validation e a h k = ground arith

to_closure :
    (e : ValueLifecycleEvent) (a : Actor)
    → (step e a).value ≡ closure
    → a.value ≢ closure
    → type_of e ≢ stop
    → 0 < a.context.realized_entry_count
unfolding next value_lifecycle_machine
to_closure e a h k l = ground arith

stops_here : (r : ℕ) (a : Actor) → a.value ≢ closure → (step (stops r) a).value ≡ closure
unfolding next value_lifecycle_machine
stops_here r a h = ground arith

stop_keeps :
    (r : ℕ) (a : Actor)
    → a.value ≢ closure
    → (step (stops r) a).context ≡ record a.context { stop_reason = some r }
unfolding next value_lifecycle_machine run_actions
stop_keeps r a h = ground arith

closed_stays : (e : ValueLifecycleEvent) (a : Actor) → a.value ≡ closure → step e a ≡ a
unfolding next value_lifecycle_machine run_actions
closed_stays e a h = ground arith

module _ (engine : LifecycleEngine) where
  Reaches : List EventType → List ValueLifecycleEvent → Actor → Type 0
  Reaches before es a =
      (rest : List EventType) × (milestones (send_all engine es a).value ≡ before ++ rest)
      × Subsequence rest (map type_of es)

  send_all_milestones :
      (es : List ValueLifecycleEvent) (a : Actor)
      → ((e : ValueLifecycleEvent) → In e es → type_of e ≢ stop)
      → Reaches (milestones a.value) es a
  unfolding send_all Reaches
  send_all_milestones [] a h = ([], sym (append-nil (milestones a.value)), none_left)
  send_all_milestones (e ∷ es) a h =
      let (rest, p, q) = send_all_milestones es (send engine e a) (λ d i. h d (inr i)) in
      elim (advance e a (h e (inl refl))) [
        | inl same ↦ (
          rest,
          p
              ∙ ap (λ s. milestones s ++ rest)
                  (ap (λ (b : Actor). b.value) (send-step engine e a) ∙ same),
          pass (type_of e) q,
        )
        | inr more ↦ (
          type_of e ∷ rest,
          p
              ∙ ap (λ m. m ++ rest)
                  (ap (λ (b : Actor). milestones b.value) (send-step engine e a) ∙ more)
              ∙ append_assoc (milestones a.value) (type_of e ∷ []) rest,
          take (type_of e) q,
        )
      ]

  -- A benefit that was never stopped is closed only after it was submitted for approval, granted
  -- the approval, began validation, started tracking and was closed, by events in that order.
  pub closed_in_order :
      (input : ValueLifecycleContext) (es : List ValueLifecycleEvent)
      → ((e : ValueLifecycleEvent) → In e es → type_of e ≢ stop)
      → (send_all engine es (start engine input)).value ≡ closure
      → Subsequence
          (submit_for_approval ∷ approval_granted ∷ begin_validation ∷ start_tracking ∷ close ∷ [])
          (map type_of es)
  unfolding Reaches start value_lifecycle_machine
  closed_in_order input es h closed =
      let (rest, p, q) = send_all_milestones es (start engine input) h in
      let all : milestones closure ≡ rest =
        ap milestones (sym closed)
        ∙ p
        ∙ ap (λ s. milestones s ++ rest) (engine.start_lem value_lifecycle_machine) in
      subst (λ m. Subsequence m (map type_of es)) (sym all) q

  -- Validation is entered only with a baseline, and tracking is closed only with a realized value;
  -- a stop closes every benefit that is not closed and keeps its reason, and then nothing changes
  -- it.
  pub gates_and_stop :
      (e : ValueLifecycleEvent) (a : Actor) (r : ℕ)
      → (((send engine e a).value ≡ validation)
          → a.value ≢ validation
          → a.context.baseline_exists ≡ true)
        × (((send engine e a).value ≡ closure)
            → a.value ≢ closure
            → type_of e ≢ stop
            → 0 < a.context.realized_entry_count)
        × (a.value ≢ closure → (send engine (stops r) a).value ≡ closure)
        × (a.value ≢ closure
            → (send engine (stops r) a).context ≡ record a.context { stop_reason = some r })
        × (a.value ≡ closure → send engine e a ≡ a)
  gates_and_stop e a r =
      rw (send-step engine e a, send-step engine (stops r) a)
        (to_validation e a, to_closure e a, stops_here r a, stop_keeps r a, closed_stays e a)
