-- ===== src/Machines/ValueLifecycle/Tests.antt =====
-- A benefit from its start to its closing, over the reference engine.
use strat_align.Prelude.{
  ◌<◌, true, false, none, some, List, [], ◌∷◌, ◌≡◌, ◌≢◌, refl, map, In, arith,
}
use strat_align.Machines.Engine.{reference_engine, next}
use strat_align.Machines.ValueLifecycle.{
  validation, closure, tracking, ValueLifecycleContext, submit_for_approval, approval_granted,
  begin_validation, start_tracking, close, stop, ValueLifecycleEvent, submits, is_granted,
  begins_validation, starts_tracking, refreshes, closes, stops, type_of, value_lifecycle_machine,
  run_actions, Actor, send, send_all, start,
}
use strat_align.Machines.ValueLifecycle.Milestones.{Subsequence, closed_in_order, gates_and_stop}

abbrev fresh : ValueLifecycleContext
fresh = record {
  benefit_id = 1;
  approval_case_id = none;
  baseline_exists = false;
  realized_entry_count = 0;
  stop_reason = none;
}

abbrev life : List ValueLifecycleEvent
life =
    submits 9
    ∷ is_granted
    ∷ begins_validation
    ∷ refreshes true 2
    ∷ begins_validation
    ∷ starts_tracking
    ∷ closes none
    ∷ []

life_closes : (send_all reference_engine life (start reference_engine fresh)).value ≡ closure
unfolding send_all send start next value_lifecycle_machine run_actions
life_closes = refl

not_stopped : (e : ValueLifecycleEvent) → In e life → type_of e ≢ stop
not_stopped e i = ground arith

closed_in_order_example :
    Subsequence
      (submit_for_approval ∷ approval_granted ∷ begin_validation ∷ start_tracking ∷ close ∷ [])
      (map type_of life)
closed_in_order_example = closed_in_order reference_engine fresh life not_stopped life_closes

abbrev tracked : Actor
tracked = record { value = tracking; context = record fresh { realized_entry_count = 3 } }

gates_and_stop_example :
    (((send reference_engine (closes none) tracked).value ≡ validation)
      → tracked.value ≢ validation
      → tracked.context.baseline_exists ≡ true)
    × (((send reference_engine (closes none) tracked).value ≡ closure)
        → tracked.value ≢ closure
        → type_of (closes none) ≢ stop
        → 0 < tracked.context.realized_entry_count)
    × (tracked.value ≢ closure → (send reference_engine (stops 4) tracked).value ≡ closure)
    × (tracked.value ≢ closure
        → (send reference_engine (stops 4) tracked).context
          ≡ record (tracked.context) { stop_reason = some 4 })
    × (tracked.value ≡ closure → send reference_engine (closes none) tracked ≡ tracked)
gates_and_stop_example = gates_and_stop reference_engine (closes none) tracked 4
