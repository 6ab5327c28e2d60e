-- ===== src/Schema/Check/Errors.antt =====
-- Which errors `validate` raises: a schema that `check_schema` passes is never the cause.
pub mod Kinds
mod Schemas
mod Payloads
use hermes_plugin_dynamic_wo.Prelude.{
  ℕ, suc, not, ◌||◌, if◌then◌else◌, String, ◌≡◌, refl, ◌⊎◌, inl, inr, Bool, true, false, Option,
  none, some, List, [], ◌∷◌, arith, ◌==◌,
}
use hermes_plugin_dynamic_wo.Python.Value.{
  Value, Items, Fields, null, bool, int, float, str, arr, obj, nil, cons, cls, end, field,
  get_field, has_field, field_keys,
}
use hermes_plugin_dynamic_wo.Python.Text.{Unicode}
use hermes_plugin_dynamic_wo.Schema.Nodes.{
  Checked, TypeName, Node, Props, Sub, Entries, Step, Mismatch, SchemaError, Result, ok, err, ◌>>=◌,
  guard, node, no_properties, properties, no_items, items, no_more, entry, property, element,
  keyword, malformed, mismatch, got_bool, wrong_class, not_in_enum, missing_field, entries_of,
  names_of,
}
use hermes_plugin_dynamic_wo.Schema.Normalize.{
  need_supported, unsupported, read_type, read_required, read_enum, read_additional, normalize_node,
  normalize_properties, normalize_declared, normalize_entries, normalize_items, is_declared_subset,
  normalize_kind, normalize_schema, message_of, check_schema,
}
use hermes_plugin_dynamic_wo.Schema.Check.{
  is_instance, is_bool, is_boolean_name, check_type, is_among, check_enum, check_required,
  unexpected, check_none_left, check_additional, check_each, check_inside, reads_object,
  reads_array, required_of, check_value, check_properties, check_entries, check_items, checked,
  validate,
}
use hermes_plugin_dynamic_wo.Schema.Check.Errors.Kinds.{
  is_malformed, Only, Only-intro, Only-elim, Only->>=, elim-Only,
}
use hermes_plugin_dynamic_wo.Schema.Check.Errors.Schemas.{node-Only}
use hermes_plugin_dynamic_wo.Schema.Check.Errors.Payloads.{value-Only}

module _ (u : Unicode) where
  schema-Only : (v : Value) → Only true (normalize_schema u v)
  unfolding normalize_schema normalize_kind
  schema-Only (obj end) = tt
  schema-Only (obj (field k v d)) = by_kind (is_declared_subset (field k v d))
    where
      by_kind : (b : Bool) → Only true (normalize_kind u b (field k v d))
      by_kind true = Only->>= _ _ _ (node-Only (obj (field k v d)) []) (λ n. tt)
      by_kind false = tt
  schema-Only null = tt
  schema-Only (bool b) = tt
  schema-Only (int n) = tt
  schema-Only (float x) = tt
  schema-Only (str s) = tt
  schema-Only (arr xs) = tt
  schema-Only (cls c) = tt

  checked-Only : (o : Option Node) (payload : Value) → Only false (checked o payload)
  checked-Only none payload = tt
  checked-Only (some n) payload = value-Only n payload []

  -- Whatever the payload, `validate` raises the error that `check_schema` reports, and that error
  -- is about the schema; and where `check_schema` reports nothing, an error that `validate` raises
  -- is about the payload.
  pub check_schema-validate :
      (payload schema : Value)
      → ((e : SchemaError) × (check_schema u schema ≡ some e)
          × (is_malformed e ≡ true)
          × (validate u payload schema ≡ err e))
        ⊎ ((check_schema u schema ≡ none)
            × ((e : SchemaError) → validate u payload schema ≡ err e → is_malformed e ≡ false))
  unfolding check_schema validate
  check_schema-validate payload schema = by_result (normalize_schema u schema) (schema-Only schema)
    where
      by_result :
          (m : Result (Option Node))
          → Only true m
          → ((e : SchemaError) × (message_of m ≡ some e)
              × (is_malformed e ≡ true)
              × ((m >>= λ n. checked n payload) ≡ err e))
            ⊎ ((message_of m ≡ none)
                × ((e : SchemaError)
                    → (m >>= λ n. checked n payload) ≡ err e
                    → is_malformed e ≡ false))
      by_result (err e) o = inl (e, refl, o, refl)
      by_result (ok n) o = inr (refl, λ e h. Only-elim _ (checked-Only n payload) h)
