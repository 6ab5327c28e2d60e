-- ===== src/Schema/Check.antt =====
-- `_check_value`, `_check_object`, `_check_array` and `validate` of schema_subset.py.
pub mod Conforms
pub mod Parts
pub mod Decides
pub mod Errors
pub mod Verdicts
use hermes_plugin_dynamic_wo.Prelude.{
  ℕ, suc, String, Bool, true, false, not, ◌&&◌, ◌||◌, Option, none, some, List, [], ◌∷◌, member,
  is_some, if◌then◌else◌,
}
use hermes_plugin_dynamic_wo.Python.Value.{
  Value, Items, Fields, null, bool, int, float, str, arr, obj, nil, cons, cls, get_field, has_field,
  field_keys, value_eq,
}
use hermes_plugin_dynamic_wo.Schema.Nodes.{
  Checked, TypeName, Node, Props, Sub, Entries, Step, Result, ok, err, ◌>>◌, ◌>>=◌, guard,
  object_name, array_name, string_name, number_name, integer_name, boolean_name, null_name, node,
  no_properties, properties, no_items, items, no_more, entry, property, element, mismatch, got_bool,
  wrong_class, not_in_enum, missing_field, unexpected_fields, entries_of, names_of,
}
use hermes_plugin_dynamic_wo.Python.Text.{Unicode}
use hermes_plugin_dynamic_wo.Schema.Normalize.{normalize_schema}

-- `isinstance(value, _PY_TYPES[name])`: a bool is an int.
abbrev pub is_instance : TypeName → Value → Bool
is_instance object_name (obj d) = true
is_instance array_name (arr xs) = true
is_instance string_name (str s) = true
is_instance number_name (int n) = true
is_instance number_name (float x) = true
is_instance number_name (bool b) = true
is_instance integer_name (int n) = true
is_instance integer_name (bool b) = true
is_instance boolean_name (bool b) = true
is_instance null_name null = true
is_instance _ _ = false

abbrev pub is_bool : Value → Bool
is_bool (bool b) = true
is_bool _ = false

abbrev pub is_boolean_name : TypeName → Bool
is_boolean_name boolean_name = true
is_boolean_name _ = false

abbrev pub check_type : Option TypeName → Value → List Step → Checked
check_type none v path = ok tt
check_type (some t) v path =
    guard (is_boolean_name t || not (is_bool v)) (mismatch path (got_bool t))
    >> guard (is_instance t v) (mismatch path (wrong_class t))

-- `value in values`
unfoldable pub is_among : Value → Items → Bool
is_among v nil = false
is_among v (cons w ws) = value_eq v w || is_among v ws

abbrev pub check_enum : Option Items → Value → List Step → Checked
check_enum none v path = ok tt
check_enum (some ws) v path = guard (is_among v ws) (mismatch path not_in_enum)

abbrev pub check_required : List String → Fields → List Step → Checked
check_required [] d path = ok tt
check_required (k ∷ ks) d path =
    guard (has_field k d) (mismatch path (missing_field k)) >> check_required ks d path

-- `set(value) - set(properties)`, up to order
abbrev pub unexpected : List String → List String → List String
unexpected ks [] = []
unexpected ks (j ∷ js) = let rest = unexpected ks js in if member j ks then rest else j ∷ rest

abbrev pub check_none_left : List String → List Step → Checked
check_none_left [] path = ok tt
check_none_left (k ∷ ks) path = err (mismatch path (unexpected_fields (k ∷ ks)))

abbrev pub check_additional : Option Bool → List String → Fields → List Step → Checked
check_additional (some false) ks d path = check_none_left (unexpected ks (field_keys d)) path
check_additional _ ks d path = ok tt

-- `for index, item in enumerate(value): _check_value(...)`
unfoldable pub check_each : (Value → ℕ → Checked) → ℕ → Items → Checked
check_each check i nil = ok tt
check_each check i (cons v xs) = check v i >> check_each check (suc i) xs

abbrev is_object_name : Option TypeName → Bool
is_object_name (some object_name) = true
is_object_name _ = false

abbrev is_array_name : Option TypeName → Bool
is_array_name (some array_name) = true
is_array_name _ = false

abbrev declares_properties : Props → Bool
declares_properties no_properties = false
declares_properties (properties es) = true

abbrev declares_items : Sub → Bool
declares_items no_items = false
declares_items (items n) = true

-- The conditions under which a dict, and a list, is looked into.
abbrev pub reads_object : Option TypeName → Option (List String) → Props → Bool
reads_object t required ps = is_object_name t || declares_properties ps || is_some required

abbrev pub reads_array : Option TypeName → Sub → Bool
reads_array t sub = is_array_name t || declares_items sub

abbrev pub required_of : Option (List String) → List String
required_of none = []
required_of (some ks) = ks

-- The last step of `_check_value`, given the checks of a dict and of a list.
abbrev pub check_inside : Bool → (Fields → Checked) → Bool → (Items → Checked) → Value → Checked
check_inside as_object object as_array array (obj d) = if as_object then object d else ok tt
check_inside as_object object as_array array (arr xs) = if as_array then array xs else ok tt
check_inside as_object object as_array array v = ok tt

unfoldable mutual
  pub check_value : Node → Value → List Step → Checked
  check_value (node t required ps sub enum extra) v path =
      check_type t v path
      >> check_enum enum v path
      >> check_inside (reads_object t required ps)
          (λ d.
            check_required (required_of required) d path
            >> check_properties ps d path
            >> check_additional extra (names_of (entries_of ps)) d path)
          (reads_array t sub) (λ xs. check_items sub xs path) v

  pub check_properties : Props → Fields → List Step → Checked
  check_properties no_properties d path = ok tt
  check_properties (properties es) d path = check_entries es d path

  pub check_entries : Entries → Fields → List Step → Checked
  check_entries no_more d path = ok tt
  check_entries (entry k n es) d path =
      elim (get_field k d) [ none ↦ ok tt | some v ↦ check_value n v (property k ∷ path) ]
      >> check_entries es d path

  pub check_items : Sub → Items → List Step → Checked
  check_items no_items xs path = ok tt
  check_items (items n) xs path = check_each (λ v i. check_value n v (element i ∷ path)) 0 xs

abbrev checked : Option Node → Value → Checked
checked none payload = ok tt
checked (some n) payload = check_value n payload []

-- `validate`
module _ (u : Unicode) where
  unfoldable pub validate : Value → Value → Checked
  unfolding normalize_schema check_value
  validate payload schema = normalize_schema u schema >>= λ n. checked n payload
