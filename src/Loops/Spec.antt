-- ===== src/Loops/Spec.antt =====
-- `loop_validate` of loops.py on a parsed spec.
pub mod Read
pub mod Valid
use Prim.Native.Char.{Char, code}
use hermes_plugin_dynamic_wo.Prelude.{
  ℕ, suc, String, Bool, true, false, not, ◌&&◌, ◌||◌, Option, none, some, List, [], ◌∷◌, ◌++◌, ◌==◌,
  nat_eq, leb, if◌then◌else◌,
}
use hermes_plugin_dynamic_wo.Python.Int.{ℤ, pos, negsuc, ltb_ℤ}
use hermes_plugin_dynamic_wo.Python.Float.{Float, Rounding, is_finite, flt, zero_float}
use hermes_plugin_dynamic_wo.Python.Value.{
  Value, Items, Fields, null, bool, int, float, str, arr, obj, nil, cons, end, field, get_field,
  get_or_null, get_or, or_else, truthy,
}
use hermes_plugin_dynamic_wo.Python.Text.{all_chars}
use hermes_plugin_dynamic_wo.Grants.Records.{Platform}
use hermes_plugin_dynamic_wo.Resources.Records.{Problem}
pub use hermes_plugin_dynamic_wo.Prelude.Except.{Except, ok, err, ◌>>=◌, ◌>>◌}

-- Where a diagnostic points.
pub data Pointer : Type 0 where
  at_version at_name at_setpoint at_sensors at_actuators at_brakes : Pointer
  sensor actuator sensor_id actuator_id : ℕ → Pointer
  brake : String → Pointer

-- The numbers that the loop reads from the brakes.
pub record Brakes : Type 0 where
  pub max_steps : ℕ
  pub max_repeated_signal : ℕ
  pub max_sensor_retries : ℕ
  pub max_wall_seconds : Option Float
  pub max_cost : Option Float

-- What passes out of `loop_run`: WorkflowValidationError, the OverflowError of a number or a ttl, or
-- the ValueError of a stored resource that is read again.
pub data LoopError : Type 0 where
  invalid_spec : List Pointer → LoopError
  overflow : LoopError
  bad_resource : Problem → LoopError

module _ (p : Platform) where
  abbrev is_identifier_char : Char → Bool
  is_identifier_char c =
      p.unicode.is_alnum c || nat_eq (code c) b'.' || nat_eq (code c) b'_' || nat_eq (code c) b'-'

  -- `isinstance(x, str) and x and _identifier_safe(x)`
  unfoldable pub is_identifier : Value → Bool
  unfolding all_chars
  is_identifier (str s) = not (s == "") && all_chars is_identifier_char s
  is_identifier v = false

  abbrev unless : Bool → Pointer → List Pointer
  unless true at = []
  unless false at = at ∷ []

  abbrev is_version_1 : Value → Bool
  is_version_1 (str s) = s == "1"
  is_version_1 v = false

  -- `isinstance(x, str) and x`
  abbrev is_text : Value → Bool
  is_text (str s) = not (s == "")
  is_text v = false

  abbrev check_setpoint : Value → List Pointer
  check_setpoint (obj d) =
      unless
        (is_text (get_or_null "target" d)
          || is_text (get_or_null "description" d)
          || is_text (get_or_null "stop_condition" d))
        at_setpoint
  check_setpoint v = at_setpoint ∷ []

  abbrev is_true : Value → Bool
  is_true (bool b) = b
  is_true v = false

  abbrev is_primary : Value → Bool
  is_primary (obj d) = is_true (get_or_null "primary" d)
  is_primary v = false

  abbrev any_primary : Items → Bool
  any_primary nil = false
  any_primary (cons v xs) = is_primary v || any_primary xs

  -- `_validate_named_object`
  abbrev named_object : Pointer → Pointer → Value → List Pointer
  named_object whole ident (obj d) = unless (is_identifier (get_or_null "id" d)) ident
  named_object whole ident v = whole ∷ []

  abbrev named_objects : (ℕ → Pointer) → (ℕ → Pointer) → ℕ → Items → List Pointer
  named_objects whole ident i nil = []
  named_objects whole ident i (cons v xs) =
      named_object (whole i) (ident i) v ++ named_objects whole ident (suc i) xs

  abbrev check_sensors : Value → List Pointer
  check_sensors (arr nil) = at_sensors ∷ []
  check_sensors (arr (cons v xs)) =
      unless (any_primary (cons v xs)) at_sensors ++ named_objects sensor sensor_id 0 (cons v xs)
  check_sensors v = at_sensors ∷ []

  abbrev check_actuators : Value → List Pointer
  check_actuators (arr xs) = named_objects actuator actuator_id 0 xs
  check_actuators v = at_actuators ∷ []

  -- An int, not a bool, of at least the given bound.
  abbrev pub int_from : ℕ → Value → Option ℕ
  int_from low (int (pos n)) = if leb low n then some n else none
  int_from low v = none

  abbrev is_some_nat : Option ℕ → Bool
  is_some_nat none = false
  is_some_nat (some n) = true

  -- `_positive_int`, `_nonnegative_int`
  abbrev check_int : Bool → ℕ → String → Option Value → List Pointer
  check_int required low key none = unless (not required) (brake key)
  check_int required low key (some v) = unless (is_some_nat (int_from low v)) (brake key)

  -- `float(x)` of a number, where it is finite and not negative; an int beyond the doubles raises
  abbrev nonnegative : Float → Option Float
  nonnegative x = if is_finite x && not (flt x zero_float) then some x else none

  abbrev converted : Option Float → Option Float
  converted none = none
  converted (some x) = nonnegative x

  unfoldable pub number_of : Value → Option Float
  number_of (int n) = converted (p.rounding.of_int n)
  number_of (float x) = nonnegative x
  number_of v = none

  abbrev is_some_float : Option Float → Bool
  is_some_float none = false
  is_some_float (some x) = true

  -- `_nonnegative_number`
  abbrev check_number : String → Option Value → List Pointer
  check_number key none = []
  check_number key (some v) = unless (is_some_float (number_of v)) (brake key)

  abbrev check_brakes : Value → List Pointer
  check_brakes (obj d) =
      check_int true 1 "max_steps" (get_field "max_steps" d)
      ++ (check_int false 1 "max_repeated_signal" (get_field "max_repeated_signal" d)
          ++ (check_int false 0 "max_sensor_retries" (get_field "max_sensor_retries" d)
              ++ (check_number "max_wall_seconds" (get_field "max_wall_seconds" d)
                  ++ check_number "max_cost" (get_field "max_cost" d))))
  check_brakes v = at_brakes ∷ []

  abbrev check_version : Value → List Pointer
  check_version v = unless (is_version_1 v) at_version

  abbrev check_name : Value → List Pointer
  check_name v = unless (is_identifier v) at_name

  -- `_validate_loop_structure`: where the diagnostics of a spec point, in their order
  unfoldable pub validate_structure : Fields → List Pointer
  unfolding is_identifier number_of get_field
  validate_structure spec =
      check_version (get_or_null "version" spec)
      ++ (check_name (get_or_null "name" spec)
          ++ (check_setpoint (get_or_null "setpoint" spec)
              ++ (check_sensors (get_or_null "sensors" spec)
                  ++ (check_actuators (get_or "actuators" (arr nil) spec)
                      ++ check_brakes (get_or_null "brakes" spec)))))

  -- `float(x)` of an int beyond the doubles raises.
  abbrev overflows : Option Value → Bool
  overflows (some (int n)) = elim (p.rounding.of_int n) [ none ↦ true | some x ↦ false ]
  overflows _ = false

  abbrev brakes_overflow : Value → Bool
  brakes_overflow (obj d) =
      overflows (get_field "max_wall_seconds" d) || overflows (get_field "max_cost" d)
  brakes_overflow v = false

  -- `loop_validate` of a parsed spec
  unfoldable pub loop_validate : Fields → Except LoopError (List Pointer)
  unfolding validate_structure get_field
  loop_validate spec =
      if brakes_overflow (get_or_null "brakes" spec)
      then err overflow
      else ok (validate_structure spec)
