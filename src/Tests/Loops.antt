-- ===== src/Tests/Loops.antt =====
-- A run of the loop of loops.py, and the theorems about it.
use hermes_plugin_dynamic_wo.Prelude.{
  ℕ, suc, ◌≤◌, String, ◌≡◌, refl, Bool, true, false, none, some, [], length, last?, All, arith, ltb,
}
use hermes_plugin_dynamic_wo.Python.Int.{pos}
use hermes_plugin_dynamic_wo.Python.Float.{fin}
use hermes_plugin_dynamic_wo.Python.Value.{Fields, bool, int, str, arr, obj, nil, cons, end, field}
use hermes_plugin_dynamic_wo.Grants.Codec.{to_dict}
use hermes_plugin_dynamic_wo.Grants.Credentials.{is_credential_key}
use hermes_plugin_dynamic_wo.Resources.Redact.{depth}
use hermes_plugin_dynamic_wo.Resources.Finalize as Finalize
use hermes_plugin_dynamic_wo.Resources.Keys.{has_required_failure}
use hermes_plugin_dynamic_wo.Loops.Records.{ok, err, LoopSensorResult, LoopRunStatus, converged}
use hermes_plugin_dynamic_wo.Loops.Spec.{Brakes, validate_structure}
use hermes_plugin_dynamic_wo.Loops.Spec.Read.{brakes_of}
use hermes_plugin_dynamic_wo.Loops.Spec.Valid.{Usable, validate-Usable}
use hermes_plugin_dynamic_wo.Loops.World.{World, Setup, ActuatorAnswer, report_of, sensed}
use hermes_plugin_dynamic_wo.Loops.World.Kept.{IsLive, Numbered}
use hermes_plugin_dynamic_wo.Loops.Round.Outcome.{Terminal}
use hermes_plugin_dynamic_wo.Loops.Round.{Loop}
use hermes_plugin_dynamic_wo.Loops.Run.{loop_run, rounds, first_run, first_loop, new_status}
use hermes_plugin_dynamic_wo.Loops.Run.Enough.{Ends, rounds_enough}
use hermes_plugin_dynamic_wo.Loops.Run.Done.{
  loop_run_bounds, loop_run_converged, loop_run-Terminal, loop_run-Numbered, loop_run-IsLive,
}
use hermes_plugin_dynamic_wo.Tests.Samples.{platform}
use hermes_plugin_dynamic_wo.Tests.Grants.{grant}

-- One sensor, and two steps at most.
abbrev spec : Fields
spec = field "version" (str "1") (
    field "name" (str "demo") (
      field "setpoint" (obj (field "target" (str "green") end)) (
        field "sensors"
          (arr (cons (obj (field "id" (str "tests") (field "primary" (bool true) end))) nil))
          (field "brakes" (obj (field "max_steps" (int (pos 2)) end)) end))))

-- The action shows a grant and declares a resource with a required finalizer.
abbrev action : Fields
action = field "grant" (obj (to_dict grant)) (
    field "resource"
      (obj (
        field "id" (str "pod-1") (
          field "kind" (str "pod") (
            field "finalizers"
              (arr (
                cons
                  (obj (
                    field "id" (str "f") (
                      field "action" (str "stop") (
                        field "when" (arr (cons (str "success") nil))
                          (field "policy" (str "required") end)))))
                  nil))
              end))))
      end)

abbrev reading : Bool → LoopSensorResult
reading b = record {
  is_converged = b;
  signal_key = "k";
  summary = "s";
  evidence = [];
  retryable_noise = false;
  next_hint = none;
}

-- The state counts the actions; the sensor converges after the first.
abbrev world : World ℕ
world = record {
  clock = λ s. (fin (pos 0), s);
  now = λ s. ("now", s);
  wall = λ s. fin (pos 0);
  fresh = λ s. "0123456789ab";
  sensor = λ c s. (sensed (reading (ltb 0 s)), s);
  actuator = some (λ c s. (ActuatorAnswer.returned (obj action), suc s));
  save = λ status s. s;
  sink = λ e status s. s;
  broker = λ s. none;
  grant_save = none;
  finalizer = some (λ c s. (Finalize.Answer.returned (obj end), s));
}

unfoldable final : LoopRunStatus × ℕ
unfolding loop_run to_dict
final = elim (loop_run platform (λ s. s) world spec end "hash" (some "run-1") "made" 0) [
  | ok r ↦ r
  | err e ↦ (new_status "" "" "", 0)
]

final-eq-ok :
    loop_run platform (λ s. s) world spec end "hash" (some "run-1") "made" 0 ≡ ok (final.0, final.1)
unfolding loop_run final is_credential_key
final-eq-ok = refl

final_facts :
    (final.0.state ≡ converged)
    × (final.0.iterations ≡ 2)
    × (length final.0.grants ≡ 1)
    × (length final.0.finalizer_results ≡ 1)
    × (length final.0.events ≡ 11)
unfolding loop_run final is_credential_key depth
final_facts = (refl, refl, refl, refl, refl)

spec_is_valid : validate_structure platform spec ≡ []
unfolding validate_structure
spec_is_valid = refl

validate-Usable_example : Usable platform (brakes_of platform spec)
validate-Usable_example = validate-Usable platform spec spec_is_valid

abbrev setup : Setup
setup = record {
  name = str "demo";
  setpoint = obj end;
  inputs = end;
  brakes = record {
    max_steps = 2;
    max_repeated_signal = 3;
    max_sensor_retries = 1;
    max_wall_seconds = none;
    max_cost = none;
  };
  def_hash = "hash";
}

abbrev first : Loop ℕ
first =
    first_loop platform (λ s. s) world setup
      (first_run platform (λ s. s) world setup "run-1" "now" 0).1

rounds_enough_example :
    Ends platform setup (rounds platform (λ s. s) world setup (fin (pos 0)) 3 first)
    × (rounds platform (λ s. s) world setup (fin (pos 0)) 5 first
        ≡ rounds platform (λ s. s) world setup (fin (pos 0)) 3 first)
rounds_enough_example =
    rounds_enough platform (λ s. s) world setup (fin (pos 0)) "run-1" "now" 0 5 (omega arith)

loop_run_bounds_example :
    (b : Brakes) × (brakes_of platform spec ≡ some b)
    × (final.0.iterations ≤ suc b.max_steps)
    × (length final.0.actuator_results ≤ b.max_steps)
loop_run_bounds_example =
    loop_run_bounds platform (λ s. s) world spec end "hash" (some "run-1") "made" 0 final.1 final.0
      final-eq-ok

final_converged : final.0.state ≡ converged
final_converged = final_facts.0

loop_run_converged_example :
    ((r : LoopSensorResult) × (last? final.0.sensor_results ≡ some r) × (r.is_converged ≡ true))
    × (has_required_failure final.0.finalizer_results ≡ false)
loop_run_converged_example =
    loop_run_converged platform (λ s. s) world spec end "hash" (some "run-1") "made" 0 final.1
      final.0 final-eq-ok final_converged

loop_run-Terminal_example :
    Terminal final.0 × ((risk : String) × (final.0.report ≡ some (report_of final.0 risk)))
loop_run-Terminal_example =
    loop_run-Terminal platform (λ s. s) world spec end "hash" (some "run-1") "made" 0 final.1
      final.0 final-eq-ok

loop_run-Numbered_example : Numbered final.0.run_id 0 final.0.events
loop_run-Numbered_example =
    loop_run-Numbered platform (λ s. s) world spec end "hash" (some "run-1") "made" 0 final.1
      final.0 final-eq-ok

loop_run-IsLive_example : All (IsLive platform) final.0.grants
loop_run-IsLive_example =
    loop_run-IsLive platform (λ s. s) world spec end "hash" (some "run-1") "made" 0 final.1 final.0
      final-eq-ok
