-- ===== src/Resources/Redact/Enough.antt =====
-- The fuel of `_redact_finalizer_payload` of resources.py.
use hermes_plugin_dynamic_wo.Prelude.{
  ℕ, ◌≤◌, String, ◌≡◌, Option, some, arith, Bool-cases, inl, inr,
}
use hermes_plugin_dynamic_wo.Python.Value.{
  Value, Items, Fields, null, bool, int, float, str, arr, obj, cls, nil, cons, end, field,
}
use hermes_plugin_dynamic_wo.Python.Text.{Unicode}
use hermes_plugin_dynamic_wo.Grants.Records.{Platform}
use hermes_plugin_dynamic_wo.Grants.Credentials.{
  redact_credentials, redact_items, redact_fields, looks_like_credential, is_credential_key,
}
use hermes_plugin_dynamic_wo.Resources.Redact.{depth, depth_items, depth_fields}

depth_pos : (v : Value) → 1 ≤ depth v
unfolding depth
depth_pos null = omega arith
depth_pos (bool b) = omega arith
depth_pos (int n) = omega arith
depth_pos (float x) = omega arith
depth_pos (str s) = omega arith
depth_pos (cls c) = omega arith
depth_pos (arr xs) = omega arith
depth_pos (obj d) = omega arith

module _ (u : Unicode) where
  mutual
    unfolding depth redact_credentials

    depth-redact : (v : Value) → depth (redact_credentials u v) ≤ depth v
    depth-redact null = omega arith
    depth-redact (bool b) = omega arith
    depth-redact (int n) = omega arith
    depth-redact (float x) = omega arith
    depth-redact (cls c) = omega arith
    depth-redact (str s) = elim (Bool-cases (looks_like_credential u s)) [
      | inl e ↦ rw e (omega arith)
      | inr e ↦ rw e (omega arith)
    ]
    depth-redact (arr xs) = omega (arith, depth-redact_items xs)
    depth-redact (obj d) = omega (arith, depth-redact_fields d)

    depth-redact_items : (xs : Items) → depth_items (redact_items u xs) ≤ depth_items xs
    depth-redact_items nil = omega arith
    depth-redact_items (cons v xs) = omega (arith, depth-redact v, depth-redact_items xs)

    depth-redact_fields : (d : Fields) → depth_fields (redact_fields u d) ≤ depth_fields d
    depth-redact_fields end = omega arith
    depth-redact_fields (field k v d) = elim (Bool-cases (is_credential_key u k)) [
      | inl e ↦ rw e (omega (arith, depth_pos v, depth-redact_fields d))
      | inr e ↦ rw e (omega (arith, depth-redact v, depth-redact_fields d))
    ]

module _ (p : Platform) (mask : String → String) where
  -- Two ways to go on both end, in the same result, on values up to a depth.
  abbrev BothEnd : {A B : Type 0} → (A → Option B) → (A → Option B) → A → Type 0
  BothEnd {B = B} f g v = (w : B) × (f v ≡ some w) × (g v ≡ some w)

  abbrev EndTo : ℕ → (Value → Option Value) → (Value → Option Value) → Type 0
  EndTo n f g = (v : Value) → depth v ≤ n → BothEnd f g v
