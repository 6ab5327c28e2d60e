-- ===== src/Tests/Schema.antt =====
-- The theorems on schema_subset.py at concrete schemas and payloads.
use hermes_plugin_dynamic_wo.Prelude.{◌≡◌, refl, ◌↔◌, ◌⊎◌, true, false, Option, none, some, [], ◌∷◌}
use hermes_plugin_dynamic_wo.Python.Int.{pos}
use hermes_plugin_dynamic_wo.Python.Value.{
  Value, Fields, get_field, null, bool, int, str, arr, obj, nil, cons, end, field,
}
use hermes_plugin_dynamic_wo.Schema.Nodes.{
  SchemaError, Node, ok, err, property, element, mismatch, wrong_class, string_name, got_bool,
  integer_name,
}
use hermes_plugin_dynamic_wo.Schema.Normalize.{normalize_schema, is_declared_subset, check_schema}
use hermes_plugin_dynamic_wo.Schema.Check.{validate, check_each}
use hermes_plugin_dynamic_wo.Schema.Check.Errors.Kinds.{is_malformed}
use hermes_plugin_dynamic_wo.Schema.Check.Errors.{check_schema-validate}
use hermes_plugin_dynamic_wo.Schema.Check.Verdicts.{
  Fits, HintsFit, validate-Conforms, validate_legacy,
}
use hermes_plugin_dynamic_wo.Tests.Samples.{ascii}

-- An object with a list of texts under "tags", and nothing else.
abbrev tags_schema : Value
tags_schema = obj (
    field "type" (str "object") (
      field "properties"
        (obj (
          field "tags"
            (obj (
              field "type" (str "array")
                (field "items" (obj (field "type" (str "string") end)) end)))
            end))
        (field "required" (arr (cons (str "tags") nil))
          (field "additionalProperties" (bool false) end))))

abbrev tagged : Value → Value
tagged v = obj (field "tags" (arr (cons (str "a") (cons v nil))) end)

accepts_tags : validate ascii (tagged (str "b")) tags_schema ≡ ok tt
unfolding validate get_field check_each
accepts_tags = refl

refuses_number :
    validate ascii (tagged (int (pos 1))) tags_schema
    ≡ err (mismatch (element 1 ∷ property "tags" ∷ []) (wrong_class string_name))
unfolding validate get_field check_each
refuses_number = refl

validate-Conforms_example :
    (validate ascii (tagged (str "b")) tags_schema ≡ ok tt)
    ↔ ((o : Option Node) × (normalize_schema ascii tags_schema ≡ ok o) × Fits o (tagged (str "b")))
validate-Conforms_example = validate-Conforms ascii (tagged (str "b")) tags_schema

-- A flat schema: a dict with an int under "count" and anything under "note".
abbrev flat : Fields
flat = field "count" (str "int") (field "note" (str "any") end)

abbrev counted : Value → Value
counted v = obj (field "note" null (field "count" v end))

refuses_bool :
    validate ascii (counted (bool true)) (obj flat)
    ≡ err (mismatch (property "count" ∷ []) (got_bool integer_name))
unfolding validate get_field check_each
refuses_bool = refl

validate_legacy_example :
    (validate ascii (counted (int (pos 3))) (obj flat) ≡ ok tt)
    ↔ ((d : Fields) × (counted (int (pos 3)) ≡ obj d) × HintsFit ascii flat d)
unfolding is_declared_subset get_field
validate_legacy_example =
    validate_legacy ascii "count" (str "int") (field "note" (str "any") end) (counted (int (pos 3)))
      refl

-- An object schema whose dicts are not looked into: `additionalProperties` alone is no condition.
ignores_additional :
    validate ascii (counted null) (obj (field "additionalProperties" (bool false) end)) ≡ ok tt
unfolding validate get_field check_each
ignores_additional = refl

check_schema-validate_example :
    ((e : SchemaError) × (check_schema ascii (obj (field "type" null end)) ≡ some e)
      × (is_malformed e ≡ true)
      × (validate ascii null (obj (field "type" null end)) ≡ err e))
    ⊎ ((check_schema ascii (obj (field "type" null end)) ≡ none)
        × ((e : SchemaError)
            → validate ascii null (obj (field "type" null end)) ≡ err e
            → is_malformed e ≡ false))
check_schema-validate_example = check_schema-validate ascii null (obj (field "type" null end))
