-- ===== src/Schema/Check/Verdicts.antt =====
-- What `validate` accepts, for every schema and for a flat legacy schema.
use hermes_plugin_dynamic_wo.Prelude.{
  String, ◌≡◌, refl, ap, ◌↔◌, true, false, Option, none, some, [], ◌⊎◌, inr,
}
use hermes_plugin_dynamic_wo.Prelude.Except.{>>=-eq-ok}
use hermes_plugin_dynamic_wo.Python.Value.{
  Value, Fields, null, bool, int, float, str, arr, obj, cls, end, field, get_field, has_field,
  field_keys,
}
use hermes_plugin_dynamic_wo.Python.Text.{Unicode}
use hermes_plugin_dynamic_wo.Schema.Nodes.{
  TypeName, Node, ok, object_name, node, no_properties, properties, no_items,
}
use hermes_plugin_dynamic_wo.Schema.Normalize.{
  normalize_schema, normalize_kind, normalize_legacy, legacy_entries, hint_type, is_declared_subset,
}
use hermes_plugin_dynamic_wo.Schema.Check.{checked, validate}
use hermes_plugin_dynamic_wo.Schema.Check.Decides.{value_iff}
use hermes_plugin_dynamic_wo.Schema.Check.Conforms.{
  Conforms, Inside, EntriesConform, Optionally, TypeFits, HasFields, HasType, IsObjectSchema,
}

abbrev pub Fits : Option Node → Value → Type 0
Fits none payload = Unit
Fits (some n) payload = Conforms n payload

checked_iff : (o : Option Node) (payload : Value) → (checked o payload ≡ ok tt) ↔ Fits o payload
checked_iff none payload = (λ h. tt, λ h. refl)
checked_iff (some n) payload = value_iff n payload []

-- A node with a type alone asks for the type alone.
abbrev typed : Option TypeName → Node
typed t = node t none no_properties no_items none none

typed_from : (t : Option TypeName) (v : Value) → TypeFits t v → Conforms (typed t) v
unfolding Conforms
typed_from t (obj d) h = (h, tt, (tt, tt, inr tt))
typed_from t (arr xs) h = (h, tt, tt)
typed_from t null h = (h, tt, tt)
typed_from t (bool b) h = (h, tt, tt)
typed_from t (int n) h = (h, tt, tt)
typed_from t (float x) h = (h, tt, tt)
typed_from t (str s) h = (h, tt, tt)
typed_from t (cls c) h = (h, tt, tt)

typed_to : (t : Option TypeName) (v : Value) → Conforms (typed t) v → TypeFits t v
unfolding Conforms
typed_to t v h = h.0

-- A value that is there and fits.
present_to :
    (t : Option TypeName) (o : Option Value)
    → elim o [ none ↦ false | some v ↦ true ] ≡ true
    → Optionally (λ v. Conforms (typed t) v) o
    → (v : Value) × (o ≡ some v) × TypeFits t v
present_to t none h k = cc
present_to t (some v) h k = (v, refl, typed_to t v k)

module _ (u : Unicode) where
  -- `validate` accepts a payload exactly where the schema normalizes and the payload conforms to the
  -- normalized schema, or the schema declares nothing. With `additionalProperties: false`, other keys
  -- are refused where the schema has the type object, or has `required` or `properties`; that keyword
  -- alone refuses nothing.
  pub validate-Conforms :
      (payload schema : Value)
      → (validate u payload schema ≡ ok tt)
        ↔ ((o : Option Node) × (normalize_schema u schema ≡ ok o) × Fits o payload)
  unfolding validate
  validate-Conforms payload schema = (
    λ h.
        let (o, e, k) = >>=-eq-ok (normalize_schema u schema) (λ n. checked n payload) h in
        (o, e, (checked_iff o payload).0 k),
    λ (o, e, k). rw e ((checked_iff o payload).1 k),
  )

  -- The fields of a flat schema: each is in the dict, with a value of the hinted type.
  abbrev pub HintsFit : Fields → Fields → Type 0
  HintsFit end d = Unit
  HintsFit (field k hint hints) d =
      ((v : Value) × (get_field k d ≡ some v) × TypeFits (hint_type u hint) v) × HintsFit hints d

  hints_to :
      (hints d : Fields)
      → HasFields (field_keys hints) d
      → EntriesConform (legacy_entries u hints) d
      → HintsFit hints d
  unfolding legacy_entries Conforms
  hints_to end d h k = tt
  hints_to (field j hint hints) d h k =
      (present_to (hint_type u hint) (get_field j d) h.0 k.0, hints_to hints d h.1 k.1)

  hints_from :
      (hints d : Fields)
      → HintsFit hints d
      → HasFields (field_keys hints) d × EntriesConform (legacy_entries u hints) d
  unfolding legacy_entries Conforms
  hints_from end d h = (tt, tt)
  hints_from (field j hint hints) d ((v, e, t), h) =
      let (p, q) = hints_from hints d h in
      ((rw (e, has_field) refl, p), (rw e (typed_from (hint_type u hint) v t), q))

  -- The dict that a flat schema asks for.
  legacy_iff :
      (hints : Fields) (payload : Value)
      → Conforms (normalize_legacy u hints) payload
        ↔ ((d : Fields) × (payload ≡ obj d) × HintsFit hints d)
  unfolding Conforms normalize_legacy
  legacy_iff hints payload = (λ h. to payload h.0 h.2, λ (d, e, h). rw e (from d h))
    where
      to :
          (v : Value)
          → HasType object_name v
          → Inside
              (λ d.
                HasFields (field_keys hints) d
                × EntriesConform (legacy_entries u hints) d
                × ((¬ IsObjectSchema
                      (some object_name)
                      (some (field_keys hints))
                      (properties (legacy_entries u hints)))
                    ⊎ Unit {0}))
              (λ xs. Unit {0})
              v
          → (d : Fields) × (v ≡ obj d) × HintsFit hints d
      to _ (HasType.of_object {d = d}) h = (d, refl, hints_to hints d h.0 h.1)

      from : (d : Fields) → HintsFit hints d → Conforms (normalize_legacy u hints) (obj d)
      from d h = let (p, q) = hints_from hints d h in (HasType.of_object, tt, (p, q, inr tt))

  -- A flat schema normalizes.
  normalize_flat :
      (k : String) (hint : Value) (hints : Fields)
      → is_declared_subset (field k hint hints) ≡ false
      → normalize_schema u (obj (field k hint hints))
        ≡ ok (some (normalize_legacy u (field k hint hints)))
  unfolding normalize_schema normalize_kind
  normalize_flat k hint hints h = ap (λ b. normalize_kind u b (field k hint hints)) h

  -- Under a flat schema, `validate` accepts exactly the dicts that have every field that the schema
  -- names, each with a value of the hinted type, if the hint is known.
  pub validate_legacy :
      (k : String) (hint : Value) (hints : Fields) (payload : Value)
      → is_declared_subset (field k hint hints) ≡ false
      → (validate u payload (obj (field k hint hints)) ≡ ok tt)
        ↔ ((d : Fields) × (payload ≡ obj d) × HintsFit (field k hint hints) d)
  unfolding validate
  validate_legacy k hint hints payload h =
      let (p, q) = value_iff (normalize_legacy u (field k hint hints)) payload [] in
      let (to, from) = legacy_iff (field k hint hints) payload in
      rw (normalize_flat k hint hints h) (λ e. to (p e), λ s. q (from s))
