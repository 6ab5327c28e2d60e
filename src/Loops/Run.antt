-- ===== src/Loops/Run.antt =====
-- `loop_run` of loops.py: the rounds, the closing of the resources, and the report.
pub mod Enough
pub mod Done
use hermes_plugin_dynamic_wo.Prelude.{
  ℕ, zero, suc, String, Bool, true, false, Option, none, some, List, [], ◌∷◌, take, if◌then◌else◌,
  ◌==◌,
}
use Prim.Native.String.{◌++◌ as str_append}
use hermes_plugin_dynamic_wo.Python.Float.{Float, zero_float}
use hermes_plugin_dynamic_wo.Python.Value.{Value, Fields, end, obj, get_field, get_or_null, get_or}
use hermes_plugin_dynamic_wo.Grants.Records.{Platform}
use hermes_plugin_dynamic_wo.Loops.Records.{
  Except, ok, err, ◌>>=◌, LoopState, LoopRunStatus, Report, planned, halted_finalizer_error, said,
  nothing_more,
}
use hermes_plugin_dynamic_wo.Loops.Spec.{
  Brakes, LoopError, Pointer, invalid_spec, overflow, loop_validate,
}
use hermes_plugin_dynamic_wo.Loops.Spec.Read.{brakes_of}
use hermes_plugin_dynamic_wo.Loops.World.{World, Setup, Run, report_of, record_event}
use hermes_plugin_dynamic_wo.Loops.Ownership.{closeout_resources}
use hermes_plugin_dynamic_wo.Loops.Round.{Loop, Round, finished, again, crashed, round}

-- The status before the first event.
abbrev pub new_status : String → String → String → LoopRunStatus
new_status run_id now def_hash = record {
  run_id = run_id;
  state = planned;
  iterations = 0;
  created_at = now;
  updated_at = now;
  def_hash = def_hash;
  sensor_results = [];
  actuator_results = [];
  events = [];
  grants = [];
  resources = [];
  finalizer_results = [];
  halted_reason = none;
  report = none;
}

-- How the `while` ends; `out_of_fuel` is no end of it.
pub data Ended (S : Type 0) : Type 0 where
  ended : Run S → Ended S
  raised out_of_fuel : Ended S

module _ {S : Type 0} (p : Platform) (mask : String → String) (w : World S) (setup : Setup) where
  abbrev go_on : (Loop S → Ended S) → Round S → Ended S
  go_on next (finished run) = ended run
  go_on next crashed = raised
  go_on next (again g) = next g

  module _ (started : Float) where
    -- The `while`, with fuel for its rounds.
    unfoldable pub rounds : ℕ → Loop S → Ended S
    unfolding round
    rounds zero g = out_of_fuel
    rounds (suc fuel) g = go_on (λ g'. rounds fuel g') (round p w setup started g)

  abbrev pub risk_of : LoopRunStatus → String
  risk_of status = elim status.report [
    | none ↦ "not_converged"
    | some r ↦ if r.convergence_risk == "" then "not_converged" else r.convergence_risk
  ]

  abbrev final_risk : String → LoopState → String
  final_risk risk halted_finalizer_error = "required_finalizer_failed"
  final_risk risk state = risk

  -- The end of `loop_run`: the time, the report, and the last save.
  unfoldable pub finish : String → Run S → LoopRunStatus × S
  unfolding report_of
  finish risk run =
      let (now, s) = w.now run.outside in
      let status = record run.status { updated_at = now } in
      let reported = record status {
        report = some (report_of status (final_risk risk run.status.state));
      } in
      (reported, w.save reported s)

  abbrev finished_with : String → Except LoopError (Run S) → Except LoopError (LoopRunStatus × S)
  finished_with risk (err e) = err e
  finished_with risk (ok run) = ok (finish risk run)

  abbrev after_rounds : Ended S → Except LoopError (LoopRunStatus × S)
  after_rounds (ended run) =
      finished_with (risk_of run.status) (closeout_resources w setup p mask run)
  after_rounds raised = err overflow
  after_rounds out_of_fuel = err overflow

  abbrev pub first_loop : Run S → Loop S
  first_loop run = record {
    run = run;
    action_count = 0;
    total_cost = zero_float;
    last_signal = none;
    repeated = 0;
  }

  abbrev start_clock : Run S → Float × Run S
  start_clock run = let (started, s) = w.clock run.outside in (started, record run { outside = s })

  -- When the run started, and the run with its first event.
  unfoldable pub first_run : String → String → S → Float × Run S
  unfolding record_event
  first_run run_id now s = start_clock (
      record_event w setup "planned" planned 0 (said "loop planned") nothing_more
        (record { status = new_status run_id now setup.def_hash; outside = s }))

  -- From the first event on, of a validated spec.
  unfoldable pub run_validated : String → String → S → Except LoopError (LoopRunStatus × S)
  unfolding rounds closeout_resources finish first_run
  run_validated run_id now s =
      let (started, run) = first_run run_id now s in
      after_rounds (rounds started (suc setup.brakes.max_steps) (first_loop run))

abbrev setup_of : Fields → Fields → String → Brakes → Setup
setup_of spec inputs def_hash brakes = record {
  name = get_or_null "name" spec;
  setpoint = get_or "setpoint" (obj end) spec;
  inputs = inputs;
  brakes = brakes;
  def_hash = def_hash;
}

-- `run_id or f"loop_..."`, where `made` is the other text
abbrev choose_id : Option String → String → String
choose_id none made = made
choose_id (some run_id) made = if run_id == "" then made else run_id

module _ {S : Type 0} (p : Platform) (mask : String → String) (w : World S) where
  abbrev run_on : Setup → String → String × S → Except LoopError (LoopRunStatus × S)
  run_on setup run_id (now, s) = run_validated p mask w setup run_id now s

  abbrev run_with :
      Option Brakes → Fields → Fields → String → String → S → Except LoopError (LoopRunStatus × S)
  run_with none spec inputs def_hash run_id s = err (invalid_spec [])
  run_with (some brakes) spec inputs def_hash run_id s =
      run_on (setup_of spec inputs def_hash brakes) run_id (w.now s)

  abbrev run_checked :
      List Pointer → Fields → Fields → String → String → S → Except LoopError (LoopRunStatus × S)
  run_checked (at ∷ ats) spec inputs def_hash run_id s = err (invalid_spec (at ∷ ats))
  run_checked [] spec inputs def_hash run_id s =
      run_with (brakes_of p spec) spec inputs def_hash run_id s

  -- `loop_run` of a parsed spec, whose hash and, where none is given, whose run id come from outside
  unfoldable pub loop_run :
      Fields → Fields → String → Option String → String → S → Except LoopError (LoopRunStatus × S)
  unfolding loop_validate brakes_of run_validated get_field
  loop_run spec inputs def_hash run_id made s = do
    diagnostics ← loop_validate p spec
    run_checked diagnostics spec inputs def_hash (choose_id run_id made) s
