-- ===== src/Loops/Round.antt =====
-- One round of the loop of `loop_run`: sense, decide, act. Each step is named for what it does next.
pub mod Outcome
pub mod Acting
pub mod Stages
use hermes_plugin_dynamic_wo.Prelude.{
  ℕ, suc, String, Bool, true, false, ◌&&◌, Option, none, some, List, [], ◌∷◌, ◌++◌, ◌==◌, ltb, leb,
  last?, if◌then◌else◌,
}
use Prim.Native.String.{◌++◌ as str_append}
use hermes_plugin_dynamic_wo.Python.Float.{Float, flt, fadd}
use hermes_plugin_dynamic_wo.Python.Value.{
  Value, Fields, str, get_field, get_or_null, or_else, str_of, truthy,
}
use hermes_plugin_dynamic_wo.Grants.Records.{Platform, Raised}
use hermes_plugin_dynamic_wo.Resources.Records.{WorkflowResource}
use hermes_plugin_dynamic_wo.Loops.Records.{
  Except, ok, err, ◌>>=◌, LoopState, LoopSensorResult, SensorError, ActuatorError, Denial, Message,
  sensing, acting, verifying, converged, halted_step_cap, halted_budget_cap, halted_time_cap,
  halted_stalled, halted_sensor_error, halted_actuator_error, halted_grant_denied, said,
  sensor_failed, actuator_failed, stalled, steps_exhausted, cost_exceeded, denied, nothing_more,
  signal, result, request,
}
use hermes_plugin_dynamic_wo.Loops.World.{
  World, Setup, Run, LoopContext, ActuatorAnswer, report_of, record_event, halt, time_exceeded,
  context_of,
}
use hermes_plugin_dynamic_wo.Loops.Sensor.{read_sensor}
use hermes_plugin_dynamic_wo.Loops.Action.{
  Action, Waiting, Suspension, waiting_state, waiting_name, read_action, redact_grant_envelopes,
}
use hermes_plugin_dynamic_wo.Loops.Ownership.{register_resources}
use hermes_plugin_dynamic_wo.Loops.Authority.{handle_grant}

-- The variables of `loop_run` that a round changes.
pub record Loop (S : Type 0) : Type 0 where
  pub run : Run S
  pub action_count : ℕ
  pub total_cost : Float
  pub last_signal : Option String
  pub repeated : ℕ

-- How a round ends: a `break`, the next round, or an OverflowError.
pub data Round (S : Type 0) : Type 0 where
  finished : Run S → Round S
  again : Loop S → Round S
  crashed : Round S

module _ {S : Type 0} (p : Platform) (w : World S) (setup : Setup) (started : Float) where
  abbrev stop : LoopState → Message → Run S → Round S
  stop state reason run = finished (halt w setup state reason run)

  -- `if _time_exceeded(...): halt(...); break`
  abbrev unless_late : String → (Run S → Round S) → Bool × Run S → Round S
  unless_late reason next (true, run) = stop halted_time_cap (said reason) run
  unless_late reason next (false, run) = next run

  abbrev in_time : String → (Run S → Round S) → Run S → Round S
  in_time reason next run = unless_late reason next (time_exceeded w setup p.rounding started run)

  -- A new state, and the event of that name.
  abbrev enter : LoopState → String → String → Run S → Run S
  enter state kind summary run =
      record_event w setup kind state run.status.iterations (said summary) nothing_more
        (record run { status = record run.status { state = state } })

  -- The suspension of an accepted action.
  abbrev suspend_run : Waiting → Fields → Fields → Run S → Run S
  suspend_run kind asked action run =
      let state = waiting_state kind in
      let status = record run.status { state = state; halted_reason = none } in
      record_event w setup (waiting_name kind) state run.status.iterations
        (said (
          str_of p.text (
            or_else (or_else (get_or_null "summary" asked) (get_or_null "summary" action))
              (str (waiting_name kind)))))
        (request asked)
        (record run {
          status = record status { report = some (report_of status (waiting_name kind)) };
        })

  abbrev after_grant : Action → Loop S → Except Raised (Option Denial × Run S) → Round S
  after_grant action g (err e) = crashed
  after_grant action g (ok (some reason, run)) = stop halted_grant_denied (denied reason) run
  after_grant action g (ok (none, run)) = elim action.suspension [
    | none ↦ again (record g { run = run })
    | some (kind, asked) ↦ finished (suspend_run kind asked action.body run)
  ]

  abbrev check_grant : Action → Loop S → Round S
  check_grant action g =
      after_grant action g
        (handle_grant p w setup action.suspension action.body g.run.status.iterations g.run)

  abbrev is_over_budget : Option Float → Float → Bool
  is_over_budget none total = false
  is_over_budget (some most) total = flt most total

  abbrev budget_reason : Option Float → Float → Message
  budget_reason none total = cost_exceeded total total
  budget_reason (some most) total = cost_exceeded total most

  abbrev check_budget : Action → Loop S → Round S
  check_budget action g =
      if is_over_budget setup.brakes.max_cost g.total_cost
      then stop halted_budget_cap (budget_reason setup.brakes.max_cost g.total_cost) g.run
      else check_grant action g

  abbrev charge : Action → Loop S → Run S → Round S
  charge action g run =
      check_budget action
        (record g { run = run; total_cost = fadd p.rounding g.total_cost action.cost })

  abbrev note_action : Action → Run S → Run S
  note_action action run =
      let recorded = redact_grant_envelopes p action.body in
      record_event w setup "actuator_result" verifying run.status.iterations
        (said "actuator completed") (result recorded)
        (record run {
          status = record run.status {
            actuator_results = run.status.actuator_results ++ recorded ∷ [];
          };
        })

  abbrev own : List WorkflowResource → Run S → Run S
  own [] run = run
  own (r ∷ rs) run = register_resources w setup run.status.iterations (r ∷ rs) run

  abbrev after_action : Except ActuatorError Action → Loop S → Round S
  after_action (err e) g = stop halted_actuator_error (actuator_failed e) g.run
  after_action (ok action) g =
      in_time "max_wall_seconds exceeded during acting"
        (charge action (record g { action_count = suc g.action_count }))
        (own action.declared (note_action action g.run))

  -- The context is built, then the actuator is called.
  abbrev call_actuator :
      (LoopContext → S → ActuatorAnswer × S) → LoopSensorResult → Loop S → Round S
  call_actuator actuator sensed g =
      let (context, run) =
        context_of w setup p.rounding started (some sensed) g.action_count g.total_cost g.run in
      let (answer, s) = actuator context run.outside in
      after_action (read_action p run.status.run_id setup.name run.status.iterations answer)
        (record g { run = record run { outside = s } })

  abbrev act : (LoopContext → S → ActuatorAnswer × S) → LoopSensorResult → Loop S → Run S → Round S
  act actuator sensed g run =
      call_actuator actuator sensed
        (record g { run = enter acting "acting" "actuator started" run })

  abbrev check_steps : (LoopContext → S → ActuatorAnswer × S) → LoopSensorResult → Loop S → Round S
  check_steps actuator sensed g =
      if leb setup.brakes.max_steps g.action_count
      then stop halted_step_cap (steps_exhausted setup.brakes.max_steps) g.run
      else in_time "max_wall_seconds exceeded before acting" (act actuator sensed g) g.run

  abbrev check_actuator :
      Option (LoopContext → S → ActuatorAnswer × S) → LoopSensorResult → Loop S → Round S
  check_actuator none sensed g =
      stop halted_actuator_error (said "non-converged loop has no actuator") g.run
  check_actuator (some actuator) sensed g = check_steps actuator sensed g

  abbrev check_stalled : LoopSensorResult → Loop S → Round S
  check_stalled sensed g =
      if ltb 1 g.run.status.iterations && leb setup.brakes.max_repeated_signal g.repeated
      then stop halted_stalled (stalled sensed.signal_key g.repeated) g.run
      else check_actuator w.actuator sensed g

  abbrev is_last_signal : String → Option String → Bool
  is_last_signal key none = false
  is_last_signal key (some k) = key == k

  abbrev count_signal : LoopSensorResult → Loop S → Loop S
  count_signal sensed g =
      if is_last_signal sensed.signal_key g.last_signal
      then record g { repeated = suc g.repeated }
      else record g { last_signal = some sensed.signal_key; repeated = 1 }

  abbrev converge : LoopSensorResult → Run S → Run S
  converge sensed run =
      let status = record run.status { state = converged; halted_reason = none } in
      record_event w setup "converged" converged run.status.iterations (said sensed.summary)
        nothing_more
        (record run {
          status = record status { report = some (report_of status "converged_by_sensor") };
        })

  abbrev judge_sensed : LoopSensorResult → Loop S → Run S → Round S
  judge_sensed sensed g run =
      if sensed.is_converged
      then finished (converge sensed run)
      else check_stalled sensed (count_signal sensed (record g { run = run }))

  abbrev note_sensed : LoopSensorResult → Run S → Run S
  note_sensed sensed run =
      record_event w setup "sensor_result" verifying run.status.iterations (said sensed.summary)
        (signal sensed.signal_key sensed.is_converged)
        (record run {
          status = record run.status { sensor_results = run.status.sensor_results ++ sensed ∷ [] };
        })

  abbrev after_sensor : Loop S → Except SensorError LoopSensorResult × Run S → Round S
  after_sensor g (err e, run) = stop halted_sensor_error (sensor_failed e) run
  after_sensor g (ok sensed, run) =
      in_time "max_wall_seconds exceeded during sensing" (judge_sensed sensed g)
        (note_sensed sensed run)

  abbrev start_sensing : Run S → Run S
  start_sensing run =
      enter sensing "sensing" "sensor started"
        (record run { status = record run.status { iterations = suc run.status.iterations } })

  abbrev sense : Loop S → Run S → Round S
  sense g run =
      let ready = start_sensing run in
      let (context, run') =
        context_of w setup p.rounding started (last? ready.status.sensor_results) g.action_count
          g.total_cost ready in
      after_sensor g (read_sensor p w setup setup.brakes.max_sensor_retries 0 context run')

  -- The body of the `while`.
  unfoldable pub round : Loop S → Round S
  unfolding record_event halt report_of time_exceeded context_of read_sensor read_action
      redact_grant_envelopes register_resources handle_grant fadd get_field truthy
  round g = in_time "max_wall_seconds exceeded before sensing" (sense g) g.run
