-- ===== src/Machines/ValueLifecycle.antt =====
-- packages/machines/src/value-lifecycle.ts: the lifecycle of a benefit. Identifiers and reasons are
-- only stored, so they are numbers. The machine's actions assign to its context: `run_actions`
-- applies those that the engine says ran, in their order.
pub mod Milestones
mod Tests
use strat_align.Prelude.{ℕ, Bool, true, false, Option, none, some, List, [], ◌∷◌, ltb}
use strat_align.Machines.Engine.{Transition, StateNode, Machine, Engine}

pub data ValueLifecycleState : Type 0 where
  identification pending_approval approved validation tracking closure : ValueLifecycleState

pub record ValueLifecycleContext : Type 0 where
  pub benefit_id : ℕ
  pub approval_case_id : Option ℕ
  pub baseline_exists : Bool
  pub realized_entry_count : ℕ
  pub stop_reason : Option ℕ

pub data EventType : Type 0 where
  submit_for_approval approval_granted begin_validation start_tracking : EventType
  refresh_facts close stop : EventType

pub data ValueLifecycleEvent : Type 0 where
  submits : (approval_case_id : ℕ) → ValueLifecycleEvent
  is_granted begins_validation starts_tracking : ValueLifecycleEvent
  refreshes : (baseline_exists : Bool) (realized_entry_count : ℕ) → ValueLifecycleEvent
  closes : (stop_reason : Option ℕ) → ValueLifecycleEvent
  stops : (stop_reason : ℕ) → ValueLifecycleEvent

abbrev pub type_of : ValueLifecycleEvent → EventType
type_of (submits case) = submit_for_approval
type_of is_granted = approval_granted
type_of begins_validation = begin_validation
type_of starts_tracking = start_tracking
type_of (refreshes baseline count) = refresh_facts
type_of (closes reason) = close
type_of (stops reason) = stop

pub data GuardRef : Type 0 where
  baseline_exists realized_value_exists : GuardRef

pub data ActionRef : Type 0 where
  attach_approval_case refresh record_stop_reason : ActionRef

abbrev pub guards : ValueLifecycleContext → GuardRef → Bool
guards c GuardRef.baseline_exists = c.baseline_exists
guards c realized_value_exists = ltb 0 c.realized_entry_count

abbrev submitted_case : ValueLifecycleEvent → Option ℕ
submitted_case (submits case) = some case
submitted_case _ = none

abbrev refreshed : ValueLifecycleEvent → ValueLifecycleContext → ValueLifecycleContext
refreshed (refreshes baseline count) c = record c {
  baseline_exists = baseline;
  realized_entry_count = count;
}
refreshed _ c = c

abbrev reason : ValueLifecycleEvent → ValueLifecycleContext → Option ℕ
reason (closes r) c = r
reason (stops r) c = some r
reason _ c = c.stop_reason

abbrev pub run_action :
    ValueLifecycleEvent → ActionRef → ValueLifecycleContext → ValueLifecycleContext
run_action e attach_approval_case c = record c { approval_case_id = submitted_case e }
run_action e refresh c = refreshed e c
run_action e record_stop_reason c = record c { stop_reason = reason e c }

pub run_actions :
    ValueLifecycleEvent → List ActionRef → ValueLifecycleContext → ValueLifecycleContext
run_actions e [] c = c
run_actions e (a ∷ as') c = run_actions e as' (run_action e a c)

abbrev LifecycleTransition : Type 0
LifecycleTransition = Transition ValueLifecycleState GuardRef ActionRef

abbrev go : ValueLifecycleState → Option GuardRef → List ActionRef → Option LifecycleTransition
go target guard actions = some (record { target = some target; guard = guard; actions = actions })

abbrev stop_transition : Option LifecycleTransition
stop_transition = go closure none (record_stop_reason ∷ [])

abbrev root_on : EventType → Option LifecycleTransition
root_on refresh_facts = some (record { target = none; guard = none; actions = refresh ∷ [] })
root_on _ = none

abbrev identification_on : EventType → Option LifecycleTransition
identification_on submit_for_approval = go pending_approval none (attach_approval_case ∷ [])
identification_on stop = stop_transition
identification_on _ = none

abbrev pending_approval_on : EventType → Option LifecycleTransition
pending_approval_on approval_granted = go approved none []
pending_approval_on stop = stop_transition
pending_approval_on _ = none

abbrev approved_on : EventType → Option LifecycleTransition
approved_on begin_validation = go validation (some GuardRef.baseline_exists) []
approved_on stop = stop_transition
approved_on _ = none

abbrev validation_on : EventType → Option LifecycleTransition
validation_on start_tracking = go tracking none []
validation_on stop = stop_transition
validation_on _ = none

abbrev tracking_on : EventType → Option LifecycleTransition
tracking_on close = go closure (some realized_value_exists) (record_stop_reason ∷ [])
tracking_on stop = stop_transition
tracking_on _ = none

abbrev LifecycleNode : Type 0
LifecycleNode = StateNode ValueLifecycleState EventType GuardRef ActionRef

abbrev live : (EventType → Option LifecycleTransition) → LifecycleNode
live on = record { is_final = false; on = on }

abbrev nodes : ValueLifecycleState → LifecycleNode
nodes identification = live identification_on
nodes pending_approval = live pending_approval_on
nodes approved = live approved_on
nodes validation = live validation_on
nodes tracking = live tracking_on
nodes closure = record { is_final = true; on = λ e. none }

abbrev pub LifecycleMachine : Type 0
LifecycleMachine = Machine ValueLifecycleState EventType GuardRef ActionRef

unfoldable pub value_lifecycle_machine : LifecycleMachine
value_lifecycle_machine = record { initial = identification; root = root_on; node = nodes }

abbrev pub LifecycleEngine : Type 0
LifecycleEngine = Engine ValueLifecycleState EventType GuardRef ActionRef

-- What `getSnapshot` shows of an actor.
pub record Actor : Type 0 where
  pub value : ValueLifecycleState
  pub context : ValueLifecycleContext

module _ (engine : LifecycleEngine) where
  -- `actor.send`
  pub send : ValueLifecycleEvent → Actor → Actor
  send e a =
      let (value, actions) =
        engine.send value_lifecycle_machine (guards a.context) a.value (type_of e) in
      record { value = value; context = run_actions e actions a.context }

  -- Events in their order.
  pub send_all : List ValueLifecycleEvent → Actor → Actor
  send_all [] a = a
  send_all (e ∷ es) a = send_all es (send e a)

  -- `createActor(machine, { input }).start()`
  pub start : ValueLifecycleContext → Actor
  start input = record { value = engine.start value_lifecycle_machine; context = input }
