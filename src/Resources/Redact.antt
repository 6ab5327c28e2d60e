-- ===== src/Resources/Redact.antt =====
-- `_redact_text` and `_redact_finalizer_payload` of resources.py.
pub mod Enough
use hermes_plugin_dynamic_wo.Prelude.{
  ℕ, zero, suc, ◌+◌, String, ◌≡◌, refl, Bool, true, false, not, ◌&&◌, ◌||◌, Option, none, some,
  List, [], ◌∷◌, ◌++◌, ◌==◌, member, if◌then◌else◌,
}
use Prim.Native.String.{◌++◌ as str_append}
use hermes_plugin_dynamic_wo.Python.Value.{
  Value, Items, Fields, null, bool, int, float, str, arr, obj, cls, nil, cons, end, field,
  get_field, get_or_null, get_or, or_else, str_of, dicts_of, truthy, value_eq,
}
use hermes_plugin_dynamic_wo.Grants.Records.{Platform}
use hermes_plugin_dynamic_wo.Grants.Credentials.{redact_credentials}
use hermes_plugin_dynamic_wo.Resources.Records.{
  ResourceFinalizer, WorkflowResource, FinalizerResult, Policy, Status, Result, ok, err, triggers,
  required, best_effort, preserve_only, manual_approval_required, succeeded, failed, skipped,
  preserved, approval_required, to_dict, finalizer_to_dict, result_to_dict, policy_name,
  unknown_trigger,
}

-- Larger than the depth of any value inside.
unfoldable mutual
  pub depth : Value → ℕ
  depth null = 1
  depth (bool b) = 1
  depth (int n) = 1
  depth (float x) = 1
  depth (str s) = 1
  depth (cls c) = 1
  depth (arr xs) = suc (depth_items xs)
  depth (obj d) = suc (depth_fields d)

  pub depth_items : Items → ℕ
  depth_items nil = 0
  depth_items (cons v xs) = depth v + depth_items xs

  pub depth_fields : Fields → ℕ
  depth_fields end = 0
  depth_fields (field k v d) = depth v + depth_fields d

infixl 5 ◌>>=◌
abbrev ◌>>=◌ : {A B : Type 0} → Option A → (A → Option B) → Option B
none >>= f = none
some x >>= f = f x

-- Every item, and every value, where all of them end.
abbrev map_items : (Value → Option Value) → Items → Option Items
map_items f nil = some nil
map_items f (cons v xs) = do w ← f v; ys ← map_items f xs; some (cons w ys)

abbrev map_values : (Value → Option Value) → Fields → Option Fields
map_values f end = some end
map_values f (field k v d) = do w ← f v; c ← map_values f d; some (field k w c)

-- `mask` is `_EMBEDDED_CREDENTIAL_RE.sub(REDACTED, ·)`.
module _ (p : Platform) (mask : String → String) where
  -- `_redact_text`
  abbrev pub redact_text : String → String
  redact_text s = mask (str_of p.text (redact_credentials p.unicode (str s)))

  -- One level of `_redact_finalizer_payload`, of a value that was just redacted.
  abbrev pub redact_inside : (Value → Option Value) → Value → Option Value
  redact_inside below (obj d) = do c ← map_values below d; some (obj c)
  redact_inside below (arr xs) = do ys ← map_items below xs; some (arr ys)
  redact_inside below (str s) = some (str (redact_text s))
  redact_inside below v = some v

  -- `_redact_finalizer_payload` in at most so many levels: `none` where they are not enough
  unfoldable pub redact_below : ℕ → Value → Option Value
  unfolding redact_credentials
  redact_below zero v = none
  redact_below (suc n) v = redact_inside (redact_below n) (redact_credentials p.unicode v)

  abbrev ended : Option Value → Value
  ended none = null
  ended (some v) = v

  -- `_redact_finalizer_payload`: the depth of a value is enough levels, so that the first case of
  -- `ended` is not met.
  abbrev pub redact_payload : Value → Value
  redact_payload v = ended (redact_below (depth v) v)
