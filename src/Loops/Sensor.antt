-- ===== src/Loops/Sensor.antt =====
-- The sensor of loops.py: `_normalize_sensor_result`, `_validate_sensor_result` and
-- `_read_sensor_with_noise_retry`.
pub mod Kept
use Prim.Native.String.{◌++◌ as str_append}
use hermes_plugin_dynamic_wo.Prelude.{
  ℕ, zero, suc, String, Bool, true, false, Option, none, some, ◌==◌, if◌then◌else◌,
}
use hermes_plugin_dynamic_wo.Python.Value.{
  Value, Items, Fields, null, bool, str, arr, obj, nil, get_field, get_or_null, get_or, str_of,
  dicts_of,
}
use hermes_plugin_dynamic_wo.Grants.Records.{Platform}
use hermes_plugin_dynamic_wo.Resources.Finalize.{type_name}
use hermes_plugin_dynamic_wo.Loops.Records.{
  Except, ok, err, guard, ◌>>=◌, ◌>>◌, LoopSensorResult, SensorError, sensing, said, noise,
  sensor_raised, wrong_class, bad_signal_key, bad_evidence, bad_converged, bad_noise, still_noise,
}
use hermes_plugin_dynamic_wo.Loops.World.{
  World, Setup, Run, LoopContext, SensorAnswer, sensed, returned, raised, record_event,
}

abbrev need_key : Value → Except SensorError String
need_key (str s) = if s == "" then err bad_signal_key else ok s
need_key v = err bad_signal_key

abbrev need_items : Value → Except SensorError Items
need_items (arr xs) = ok xs
need_items v = err bad_evidence

abbrev need_bool : SensorError → Value → Except SensorError Bool
need_bool e (bool b) = ok b
need_bool e v = err e

-- `str(x) if x is not None else None`
abbrev text_unless_null : (Value → String) → Value → Option String
text_unless_null text null = none
text_unless_null text v = some (str_of text v)

abbrev text_or : String → Option String → String
text_or default none = default
text_or default (some s) = s

-- `_validate_sensor_result`; the classes of the fields are in the type
abbrev validate_sensor_result : LoopSensorResult → Except SensorError LoopSensorResult
validate_sensor_result r = if r.signal_key == "" then err bad_signal_key else ok r

module _ (p : Platform) where
  -- A dict as a sensor result.
  unfoldable pub read_result : Fields → Except SensorError LoopSensorResult
  unfolding get_field
  read_result d = do
    signal_key ← need_key (get_or_null "signal_key" d)
    evidence ← need_items (get_or "evidence" (arr nil) d)
    converged ← need_bool bad_converged (get_or "converged" (bool false) d)
    retryable_noise ← need_bool bad_noise (get_or "retryable_noise" (bool false) d)
    ok (record {
      is_converged = converged;
      signal_key = signal_key;
      summary = text_or signal_key (text_unless_null p.text (get_or_null "summary" d));
      evidence = dicts_of evidence;
      retryable_noise = retryable_noise;
      next_hint = text_unless_null p.text (get_or_null "next_hint" d);
    })

  -- `_normalize_sensor_result` of how the call ended
  unfoldable pub normalize_sensor_result : SensorAnswer → Except SensorError LoopSensorResult
  unfolding read_result
  normalize_sensor_result (raised e) = err (sensor_raised e)
  normalize_sensor_result (sensed r) = validate_sensor_result r
  normalize_sensor_result (returned (obj d)) = read_result d
  normalize_sensor_result (returned v) = err (wrong_class (type_name v))

  module _ {S : Type 0} (w : World S) (setup : Setup) where
    abbrev retried : ℕ → LoopContext → LoopSensorResult → Run S → Run S
    retried attempt context r run =
        record_event w setup "sensor_noise_retry" sensing context.iteration (said r.summary)
          (noise r.signal_key attempt) run

    -- One call of the sensor.
    abbrev pub call_sensor : LoopContext → Run S → Except SensorError LoopSensorResult × Run S
    call_sensor context run =
        let (answer, s) = w.sensor context run.outside in
        (normalize_sensor_result answer, record run { outside = s })

    -- What is read, and whether it asks for another try: nothing does where it is an error.
    abbrev pub is_noise : Except SensorError LoopSensorResult → Bool
    is_noise (err e) = false
    is_noise (ok r) = r.retryable_noise

    abbrev give_up : ℕ → Except SensorError LoopSensorResult → Except SensorError LoopSensorResult
    give_up attempts (err e) = err e
    give_up attempts (ok r) =
        if r.retryable_noise then err (still_noise attempts r.summary) else ok r

    abbrev note_retry : ℕ → LoopContext → Except SensorError LoopSensorResult → Run S → Run S
    note_retry attempt context (err e) run = run
    note_retry attempt context (ok r) run = retried attempt context r run

    -- `_read_sensor_with_noise_retry`, by the retries that are left; `attempts` were made
    unfoldable pub read_sensor :
        ℕ → ℕ → LoopContext → Run S → Except SensorError LoopSensorResult × Run S
    unfolding normalize_sensor_result record_event
    read_sensor zero attempts context run =
        let (result, run') = call_sensor context run in (give_up attempts result, run')
    read_sensor (suc left) attempts context run =
        let (result, run') = call_sensor context run in
        elim (is_noise result) [
          | false ↦ (result, run')
          | true ↦
              read_sensor left (suc attempts) context
                (note_retry (suc attempts) context result run')
        ]
