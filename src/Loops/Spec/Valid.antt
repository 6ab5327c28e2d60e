-- ===== src/Loops/Spec/Valid.antt =====
-- What a spec without a diagnostic gives the loop: its brakes.
use hermes_plugin_dynamic_wo.Prelude.{
  ℕ, ◌≤◌, String, ◌≡◌, refl, true, false, Option, none, some, List, [], ◌∷◌, ◌++◌, arith, leb,
  leb→le, Bool-cases, inl, inr,
}
use hermes_plugin_dynamic_wo.Python.Int.{pos, negsuc}
use hermes_plugin_dynamic_wo.Python.Float.{Float, is_finite, flt, zero_float}
use hermes_plugin_dynamic_wo.Python.Value.{
  Value, Fields, null, bool, int, float, str, arr, obj, cls, nil, get_field, get_or_null, get_or,
}
use hermes_plugin_dynamic_wo.Grants.Records.{Platform}
use hermes_plugin_dynamic_wo.Loops.Spec.{
  Pointer, Brakes, brake, check_int, check_brakes, check_version, check_name, check_setpoint,
  check_sensors, check_actuators, check_number, is_some_float, unless, nonnegative, converted,
  number_of, validate_structure,
}
use hermes_plugin_dynamic_wo.Loops.Spec.Read.{
  int_value, float_value, present, raw_in, raw_brakes, converted_brakes, brakes_of,
}

append_nil : (xs ys : List Pointer) → xs ++ ys ≡ [] → (xs ≡ []) × (ys ≡ [])
append_nil [] ys h = (refl, h)
append_nil (x ∷ xs) ys h = cc

module _ (p : Platform) where
  too_small :
      (low : ℕ) (key : String) (m : ℕ)
      → leb low m ≡ false
      → check_int p true low key (some (int (pos m))) ≡ brake key ∷ []
  too_small low key m e = rw e refl

  -- What passes as an int is one, of at least the bound.
  int_of :
      (low : ℕ) (key : String) (v : Value)
      → check_int p true low key (some v) ≡ []
      → (n : ℕ) × (int_value p v ≡ some n) × (low ≤ n)
  int_of low key (int (pos m)) h = elim (Bool-cases (leb low m)) [
    | inl e ↦ (m, refl, leb→le low m e)
    | inr e ↦ (let k = too_small low key m e in cc)
  ]
  int_of low key (int (negsuc m)) h = cc
  int_of low key null h = cc
  int_of low key (bool b) h = cc
  int_of low key (float x) h = cc
  int_of low key (str x) h = cc
  int_of low key (arr x) h = cc
  int_of low key (obj x) h = cc
  int_of low key (cls x) h = cc

  required_int :
      (low : ℕ) (key : String) (o : Option Value)
      → check_int p true low key o ≡ []
      → (v : Value) × (o ≡ some v) × ((n : ℕ) × (int_value p v ≡ some n) × (low ≤ n))
  required_int low key none h = cc
  required_int low key (some v) h = (v, refl, int_of low key v h)

  optional_int :
      (low default : ℕ) (key : String) (o : Option Value)
      → low ≤ default
      → check_int p false low key o ≡ []
      → (n : ℕ) × (int_value p (elim o [ none ↦ int (pos default) | some v ↦ v ]) ≡ some n)
        × (low ≤ n)
  optional_int low default key none k h = (default, refl, k)
  optional_int low default key (some v) k h = int_of low key v h

  -- A bound on the time or on the cost: none, or a finite number that is not negative.
  abbrev pub IsBound : Option Float → Type 0
  IsBound none = Unit
  IsBound (some x) = (is_finite x ≡ true) × (flt x zero_float ≡ false)

  -- A float that passes as finite and not negative.
  abbrev Passes : String → Option Float → Type 0
  Passes key o = unless p (is_some_float p o) (brake key) ≡ []

  float_of : (key : String) (x : Float) → Passes key (nonnegative p x) → IsBound (some x)
  float_of key x h = elim (Bool-cases (is_finite x)) [
    | inr e ↦ (let bad = rw e at h in cc)
    | inl e ↦ elim (Bool-cases (flt x zero_float)) [
      | inl k ↦ (let bad = rw (e, k) at h in cc)
      | inr k ↦ (e, k)
    ]
  ]

  int_float_of :
      (key : String) (o : Option Float)
      → Passes key (converted p o)
      → (x : Option Float) × (present p o ≡ some x) × IsBound x
  int_float_of key none h = cc
  int_float_of key (some x) h = (some x, refl, float_of key x h)

  number_of-IsBound :
      (key : String) (v : Value)
      → check_number p key (some v) ≡ []
      → (x : Option Float) × (float_value p v ≡ some x) × IsBound x
  unfolding number_of float_value
  number_of-IsBound key (int n) h = int_float_of key (p.rounding.of_int n) h
  number_of-IsBound key (float x) h = (some x, refl, float_of key x h)
  number_of-IsBound key null h = cc
  number_of-IsBound key (bool b) h = cc
  number_of-IsBound key (str x) h = cc
  number_of-IsBound key (arr x) h = cc
  number_of-IsBound key (obj x) h = cc
  number_of-IsBound key (cls x) h = cc

  optional_number :
      (key : String) (o : Option Value)
      → check_number p key o ≡ []
      → (x : Option Float) × (float_value p (elim o [ none ↦ null | some v ↦ v ]) ≡ some x)
        × IsBound x
  unfolding float_value
  optional_number key none h = (none, refl, tt)
  optional_number key (some v) h = number_of-IsBound key v h

  -- Brakes that a run can go on with.
  abbrev pub Usable : Option Brakes → Type 0
  Usable o =
      (b : Brakes) × (o ≡ some b)
      × (1 ≤ b.max_steps)
      × (1 ≤ b.max_repeated_signal)
      × IsBound b.max_wall_seconds
      × IsBound b.max_cost

  brakes-Usable : (v : Value) → check_brakes p v ≡ [] → Usable (converted_brakes p (raw_in p v))
  brakes-Usable (obj d) h =
      let three : 1 ≤ 3 = omega arith in
      let least : 0 ≤ 1 = omega arith in
      let (a, h1) = append_nil _ _ h in
      let (b, h2) = append_nil _ _ h1 in
      let (c, h3) = append_nil _ _ h2 in
      let (w, k) = append_nil _ _ h3 in
      let (v, found, (steps, e, le)) = required_int 1 "max_steps" (get_field "max_steps" d) a in
      let (repeated, e', le') =
        optional_int 1 3 "max_repeated_signal" (get_field "max_repeated_signal" d) three b in
      let (retries, e'', _) =
        optional_int 0 1 "max_sensor_retries" (get_field "max_sensor_retries" d) least c in
      let (wall, i, bound) =
        optional_number "max_wall_seconds" (get_field "max_wall_seconds" d) w in
      let (cost, j, bound') = optional_number "max_cost" (get_field "max_cost" d) k in
      rw found (rw (e, e', e'', i, j) (_, refl, le, le', bound, bound'))
  brakes-Usable null h = cc
  brakes-Usable (bool b) h = cc
  brakes-Usable (int n) h = cc
  brakes-Usable (float x) h = cc
  brakes-Usable (str x) h = cc
  brakes-Usable (arr x) h = cc
  brakes-Usable (cls x) h = cc

  -- A spec without a diagnostic has brakes that the loop reads with `int` and `float`: at least one
  -- step, at least one sight of a signal before it stalls the run, and a bound on the time and a bound
  -- on the cost that are each absent or finite and not negative.
  pub validate-Usable : (spec : Fields) → validate_structure p spec ≡ [] → Usable (brakes_of p spec)
  unfolding validate_structure brakes_of raw_brakes
  validate-Usable spec h =
      let (_, h1) = append_nil (check_version p (get_or_null "version" spec)) _ h in
      let (_, h2) = append_nil (check_name p (get_or_null "name" spec)) _ h1 in
      let (_, h3) = append_nil (check_setpoint p (get_or_null "setpoint" spec)) _ h2 in
      let (_, h4) = append_nil (check_sensors p (get_or_null "sensors" spec)) _ h3 in
      let (_, h5) = append_nil (check_actuators p (get_or "actuators" (arr nil) spec)) _ h4 in
      brakes-Usable (get_or_null "brakes" spec) h5
