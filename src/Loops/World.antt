-- ===== src/Loops/World.antt =====
-- What `loop_run` is given and what it carries. What happens outside (clocks, the callables, the store,
-- the event sink) is a change of a state `S`; a store and a sink that raise are left out.
pub mod Kept
use hermes_plugin_dynamic_wo.Prelude.{
  ℕ, suc, ◌-◌, String, Bool, true, false, Option, none, some, List, [], ◌∷◌, ◌++◌, length, last?,
}
use hermes_plugin_dynamic_wo.Python.Float.{Float, Rounding, fle, fadd, fsub, fmax, zero_float}
use hermes_plugin_dynamic_wo.Python.Value.{Value, Fields}
use hermes_plugin_dynamic_wo.Grants.Records.{GrantRequest, SessionGrant}
use hermes_plugin_dynamic_wo.Grants.Resolve as Resolve
use hermes_plugin_dynamic_wo.Resources.Finalize.{Runner}
use hermes_plugin_dynamic_wo.Resources.Keys.{has_required_failure}
use hermes_plugin_dynamic_wo.Loops.Records.{
  LoopState, LoopSensorResult, Message, Detail, LoopEvent, Report, LoopRunStatus, planned,
  nothing_more, said,
}
use hermes_plugin_dynamic_wo.Loops.Spec.{Brakes}

-- The context of a sensor or an actuator. `_context` builds it as a dict; the constant texts of its
-- `handoff.expected_return` are left out.
pub record LoopContext : Type 0 where
  pub run_id : String
  pub loop_name : Value
  pub setpoint : Value
  pub inputs : Fields
  pub iteration : ℕ
  pub latest_sensor : Option LoopSensorResult
  pub max_actions : ℕ
  pub action_count : ℕ
  pub remaining_actions : ℕ
  pub max_wall_seconds : Option Float
  pub remaining_wall_seconds : Option Float
  pub deadline_monotonic : Option Float
  pub max_cost : Option Float
  pub total_cost : Float
  pub remaining_cost : Option Float
  pub sensor_history : List LoopSensorResult
  pub actuator_history : List Fields
  pub event_history : List LoopEvent
  pub grants : List Fields
  pub resources : List Fields
  pub finalizer_results : List Fields
  pub prompt : Option String

-- How a call of the sensor ends: an exception, a LoopSensorResult, or another value.
pub data SensorAnswer : Type 0 where
  raised : String → SensorAnswer
  sensed : LoopSensorResult → SensorAnswer
  returned : Value → SensorAnswer

pub data ActuatorAnswer : Type 0 where
  raised : String → ActuatorAnswer
  returned : Value → ActuatorAnswer

pub record World (S : Type 0) : Type 0 where
  -- time.monotonic(), _utc_now_iso(), time.time() and the digits of uuid4()
  pub clock : S → Float × S
  pub now : S → String × S
  pub wall : S → Float
  pub fresh : S → String
  pub sensor : LoopContext → S → SensorAnswer × S
  pub actuator : Option (LoopContext → S → ActuatorAnswer × S)
  -- `save_status` of the store, and `on_event`; the identity where there is none
  pub save : LoopRunStatus → S → S
  pub sink : LoopEvent → LoopRunStatus → S → S
  -- the broker, whose answers depend on the state, and `save_grant`
  pub broker : S → Option (GrantRequest → Resolve.Answer)
  pub grant_save : Resolve.Save S
  pub finalizer : Runner S

-- The validated spec and the arguments of `loop_run` that are data.
pub record Setup : Type 0 where
  pub name : Value
  pub setpoint : Value
  pub inputs : Fields
  pub brakes : Brakes
  pub def_hash : String

-- What every step carries on.
pub record Run (S : Type 0) : Type 0 where
  pub status : LoopRunStatus
  pub outside : S

-- `_report`
unfoldable pub report_of : LoopRunStatus → String → Report
unfolding has_required_failure
report_of status convergence_risk = record {
  final_state = status.state;
  iterations = status.iterations;
  latest_sensor = last? status.sensor_results;
  actuator_count = length status.actuator_results;
  resource_count = length status.resources;
  finalizer_count = length status.finalizer_results;
  required_finalizer_failed = has_required_failure status.finalizer_results;
  halted_reason = status.halted_reason;
  convergence_risk = convergence_risk;
}

module _ {S : Type 0} (w : World S) (setup : Setup) where
  abbrev pub event_of :
      LoopRunStatus → String → LoopState → ℕ → Message → Detail → String → LoopEvent
  event_of status kind state iteration summary detail at = record {
    kind = kind;
    state = state;
    iteration = iteration;
    summary = summary;
    at = at;
    detail = detail;
    run_id = status.run_id;
    def_hash = status.def_hash;
    loop_name = setup.name;
    event_index = length status.events;
  }

  -- `_record_event`
  unfoldable pub record_event : String → LoopState → ℕ → Message → Detail → Run S → Run S
  record_event kind state iteration summary detail r =
      let (at, s) = w.now r.outside in
      let event = event_of r.status kind state iteration summary detail at in
      let status = record r.status { events = r.status.events ++ event ∷ [] } in
      record { status = status; outside = w.sink event status (w.save status s) }

  -- `_halt`
  unfoldable pub halt : LoopState → Message → Run S → Run S
  unfolding record_event
  halt state reason r =
      record_event "halted" state r.status.iterations reason nothing_more
        (record r { status = record r.status { state = state; halted_reason = some reason } })

  module _ (rounding : Rounding) (started : Float) where
    -- `_deadline_monotonic`
    abbrev pub deadline : Option Float
    deadline = elim setup.brakes.max_wall_seconds [
      | none ↦ none
      | some seconds ↦ some (fadd rounding started seconds)
    ]

    abbrev remaining_until : Option Float → S → Option Float × S
    remaining_until none s = (none, s)
    remaining_until (some d) s =
        let (t, s') = w.clock s in (some (fmax zero_float (fsub rounding d t)), s')

    -- `_remaining_wall_seconds`: the clock is read where there is a deadline
    unfoldable pub remaining : S → Option Float × S
    unfolding fadd fsub
    remaining s = remaining_until deadline s

    abbrev is_over : Option Float → Bool
    is_over none = false
    is_over (some t) = fle t zero_float

    -- `_time_exceeded`
    unfoldable pub time_exceeded : Run S → Bool × Run S
    unfolding remaining
    time_exceeded r =
        let (left, s) = remaining r.outside in (is_over left, record r { outside = s })

    abbrev prompt_of : Option LoopSensorResult → Option String
    prompt_of none = none
    prompt_of (some latest) = latest.next_hint

    abbrev remaining_cost : Float → Option Float
    remaining_cost total = elim setup.brakes.max_cost [
      | none ↦ none
      | some most ↦ some (fmax zero_float (fsub rounding most total))
    ]

    -- `_context`
    unfoldable pub context_of : Option LoopSensorResult → ℕ → Float → Run S → LoopContext × Run S
    unfolding remaining fsub
    context_of latest action_count total_cost r =
        let (left, s) = remaining r.outside in
        let status = r.status in
        (
          record {
            run_id = status.run_id;
            loop_name = setup.name;
            setpoint = setup.setpoint;
            inputs = setup.inputs;
            iteration = status.iterations;
            latest_sensor = latest;
            max_actions = setup.brakes.max_steps;
            action_count = action_count;
            remaining_actions = setup.brakes.max_steps - action_count;
            max_wall_seconds = setup.brakes.max_wall_seconds;
            remaining_wall_seconds = left;
            deadline_monotonic = deadline;
            max_cost = setup.brakes.max_cost;
            total_cost = total_cost;
            remaining_cost = remaining_cost total_cost;
            sensor_history = status.sensor_results;
            actuator_history = status.actuator_results;
            event_history = status.events;
            grants = status.grants;
            resources = status.resources;
            finalizer_results = status.finalizer_results;
            prompt = prompt_of latest;
          },
          record r { outside = s },
        )
