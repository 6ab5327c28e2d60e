-- ===== src/Loops/Spec/Read.antt =====
-- `_brakes` of loops.py, and the numbers that `loop_run` reads from its dict.
use hermes_plugin_dynamic_wo.Prelude.{ℕ, true, false, Option, none, some}
use hermes_plugin_dynamic_wo.Python.Int.{pos}
use hermes_plugin_dynamic_wo.Python.Float.{Float}
use hermes_plugin_dynamic_wo.Python.Value.{
  Value, Fields, null, bool, int, float, obj, get_field, get_or_null, get_or,
}
use hermes_plugin_dynamic_wo.Grants.Records.{Platform}
use hermes_plugin_dynamic_wo.Loops.Spec.{Brakes}

-- The dict that `_brakes` returns; `null` is `None`.
pub record RawBrakes : Type 0 where
  pub max_steps : Value
  pub max_repeated_signal : Value
  pub max_sensor_retries : Value
  pub max_wall_seconds : Value
  pub max_cost : Value

module _ (p : Platform) where
  -- The number under a key that may be missing.
  abbrev raw_with : Option Value → Fields → Option RawBrakes
  raw_with none d = none
  raw_with (some steps) d = some (record {
    max_steps = steps;
    max_repeated_signal = get_or "max_repeated_signal" (int (pos 3)) d;
    max_sensor_retries = get_or "max_sensor_retries" (int (pos 1)) d;
    max_wall_seconds = get_or_null "max_wall_seconds" d;
    max_cost = get_or_null "max_cost" d;
  })

  abbrev pub raw_in : Value → Option RawBrakes
  raw_in (obj d) = raw_with (get_field "max_steps" d) d
  raw_in v = none

  -- `_brakes`: the values as they stand; `none` where it raises, without `max_steps` or on brakes
  -- that are no dict
  unfoldable pub raw_brakes : Fields → Option RawBrakes
  unfolding get_field
  raw_brakes spec = raw_in (get_or_null "brakes" spec)

  -- `int(x)` of a bool or of an int that is not negative. There is no bound, and the rest, which the
  -- loop does not come to read, is `none`.
  abbrev pub int_value : Value → Option ℕ
  int_value (int (pos n)) = some n
  int_value (bool true) = some 1
  int_value (bool false) = some 0
  int_value v = none

  abbrev pub present : Option Float → Option (Option Float)
  present none = none
  present (some x) = some (some x)

  -- `None`, or `float(x)` of a number, which may be infinite, no number or negative; `none` where
  -- `float` raises
  unfoldable pub float_value : Value → Option (Option Float)
  float_value null = some none
  float_value (int n) = present (p.rounding.of_int n)
  float_value (bool true) = present (p.rounding.of_int (pos 1))
  float_value (bool false) = present (p.rounding.of_int (pos 0))
  float_value (float x) = some (some x)
  float_value v = none

  abbrev brakes_with :
      Option ℕ → Option ℕ → Option ℕ → Option (Option Float) → Option (Option Float) → Option Brakes
  brakes_with (some steps) (some repeated) (some retries) (some wall) (some cost) = some (record {
    max_steps = steps;
    max_repeated_signal = repeated;
    max_sensor_retries = retries;
    max_wall_seconds = wall;
    max_cost = cost;
  })
  brakes_with _ _ _ _ _ = none

  abbrev pub converted_brakes : Option RawBrakes → Option Brakes
  converted_brakes none = none
  converted_brakes (some b) =
      brakes_with (int_value b.max_steps) (int_value b.max_repeated_signal)
        (int_value b.max_sensor_retries) (float_value b.max_wall_seconds) (float_value b.max_cost)

  -- The brakes as `loop_run` and its helpers read them from `_brakes`, by `int` and `float`
  unfoldable pub brakes_of : Fields → Option Brakes
  unfolding raw_brakes float_value
  brakes_of spec = converted_brakes (raw_brakes spec)
