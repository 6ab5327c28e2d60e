-- ===== src/Schema/Normalize.antt =====
-- `normalize_schema` of schema_subset.py, its two kinds of schema, and `check_schema`.
use hermes_plugin_dynamic_wo.Prelude.{
  String, Bool, true, false, not, ◌&&◌, ◌||◌, Option, none, some, List, [], ◌∷◌, ◌==◌, member,
  if◌then◌else◌,
}
use hermes_plugin_dynamic_wo.Python.Value.{
  Value, Items, Fields, PyClass, null, bool, int, float, str, arr, obj, cls, nil, cons, end, field,
  str_class, int_class, float_class, bool_class, dict_class, list_class, other_class, get_field,
  has_field, field_keys,
}
use hermes_plugin_dynamic_wo.Python.Text.{Unicode, to_lower}
use hermes_plugin_dynamic_wo.Schema.Nodes.{
  Checked, TypeName, Node, Props, Sub, Entries, Step, SchemaError, Result, ok, err, ◌>>=◌, ◌>>◌,
  object_name, array_name, string_name, number_name, integer_name, boolean_name, null_name, node,
  no_properties, properties, no_items, items, no_more, entry, property, keyword, malformed,
  not_an_object, bad_type, bad_required, bad_properties, bad_enum, bad_additional,
  unsupported_keywords,
}

-- `ALLOWED_KEYWORDS`
abbrev pub allowed_keywords : List String
allowed_keywords =
    "type" ∷ "properties" ∷ "required" ∷ "items" ∷ "enum" ∷ "additionalProperties" ∷ []

-- The type of a name of `TYPE_NAMES`.
abbrev pub type_of : String → Option TypeName
type_of s =
    if s == "object"
    then some object_name
    else if s == "array"
    then some array_name
    else if s == "string"
    then some string_name
    else if s == "number"
    then some number_name
    else if s == "integer"
    then some integer_name
    else if s == "boolean"
    then some boolean_name
    else if s == "null"
    then some null_name
    else none

-- `set(node) - ALLOWED_KEYWORDS`, up to order
abbrev pub unsupported : List String → List String
unsupported [] = []
unsupported (k ∷ ks) =
    let rest = unsupported ks in if member k allowed_keywords then rest else k ∷ rest

abbrev pub need_supported : List String → List Step → Checked
need_supported [] path = ok tt
need_supported (k ∷ ks) path = err (malformed path (unsupported_keywords (k ∷ ks)))

abbrev pub read_type : Option Value → List Step → Result (Option TypeName)
read_type none path = ok none
read_type (some (str s)) path = elim (type_of s) [
  | none ↦ err (malformed (keyword "type" ∷ path) bad_type)
  | some t ↦ ok (some t)
]
read_type (some v) path = err (malformed (keyword "type" ∷ path) bad_type)

-- A list of texts, where every value is one.
abbrev pub texts_of : Items → Option (List String)
texts_of nil = some []
texts_of (cons (str s) xs) = elim (texts_of xs) [ none ↦ none | some ks ↦ some (s ∷ ks) ]
texts_of (cons v xs) = none

abbrev pub read_required : Option Value → List Step → Result (Option (List String))
read_required none path = ok none
read_required (some (arr xs)) path = elim (texts_of xs) [
  | none ↦ err (malformed (keyword "required" ∷ path) bad_required)
  | some ks ↦ ok (some ks)
]
read_required (some v) path = err (malformed (keyword "required" ∷ path) bad_required)

abbrev pub read_enum : Option Value → List Step → Result (Option Items)
read_enum none path = ok none
read_enum (some (arr (cons v xs))) path = ok (some (cons v xs))
read_enum (some v) path = err (malformed (keyword "enum" ∷ path) bad_enum)

abbrev pub read_additional : Option Value → List Step → Result (Option Bool)
read_additional none path = ok none
read_additional (some (bool b)) path = ok (some b)
read_additional (some v) path =
    err (malformed (keyword "additionalProperties" ∷ path) bad_additional)

-- `_normalize_subset_node`. A value under a key is normalized where the key is found.
unfoldable mutual
  pub normalize_node : Value → List Step → Result Node
  normalize_node (obj d) path = do
    need_supported (unsupported (field_keys d)) path
    type_name ← read_type (get_field "type" d) path
    required ← read_required (get_field "required" d) path
    props ← normalize_properties d path
    sub ← normalize_items d path
    enum ← read_enum (get_field "enum" d) path
    additional ← read_additional (get_field "additionalProperties" d) path
    ok (node type_name required props sub enum additional)
  normalize_node null path = err (malformed path not_an_object)
  normalize_node (bool b) path = err (malformed path not_an_object)
  normalize_node (int n) path = err (malformed path not_an_object)
  normalize_node (float x) path = err (malformed path not_an_object)
  normalize_node (str s) path = err (malformed path not_an_object)
  normalize_node (arr xs) path = err (malformed path not_an_object)
  normalize_node (cls c) path = err (malformed path not_an_object)

  -- The value under "properties", normalized.
  pub normalize_properties : Fields → List Step → Result Props
  normalize_properties end path = ok no_properties
  normalize_properties (field k v d) path = elim (k == "properties") [
    | true ↦ normalize_declared v path
    | false ↦ normalize_properties d path
  ]

  pub normalize_declared : Value → List Step → Result Props
  normalize_declared (obj d) path = normalize_entries d path >>= λ es. ok (properties es)
  normalize_declared null path = err (malformed (keyword "properties" ∷ path) bad_properties)
  normalize_declared (bool b) path = err (malformed (keyword "properties" ∷ path) bad_properties)
  normalize_declared (int n) path = err (malformed (keyword "properties" ∷ path) bad_properties)
  normalize_declared (float x) path = err (malformed (keyword "properties" ∷ path) bad_properties)
  normalize_declared (str s) path = err (malformed (keyword "properties" ∷ path) bad_properties)
  normalize_declared (arr xs) path = err (malformed (keyword "properties" ∷ path) bad_properties)
  normalize_declared (cls c) path = err (malformed (keyword "properties" ∷ path) bad_properties)

  pub normalize_entries : Fields → List Step → Result Entries
  normalize_entries end path = ok no_more
  normalize_entries (field k v d) path = do
    n ← normalize_node v (property k ∷ keyword "properties" ∷ path)
    es ← normalize_entries d path
    ok (entry k n es)

  -- The value under "items", normalized.
  pub normalize_items : Fields → List Step → Result Sub
  normalize_items end path = ok no_items
  normalize_items (field k v d) path = elim (k == "items") [
    | true ↦ normalize_node v (keyword "items" ∷ path) >>= λ n. ok (items n)
    | false ↦ normalize_items d path
  ]

abbrev pub is_list : Option Value → Bool
is_list (some (arr xs)) = true
is_list _ = false

abbrev pub all_allowed : List String → Bool
all_allowed [] = true
all_allowed (k ∷ ks) = member k allowed_keywords && all_allowed ks

-- `_is_declared_subset`
unfoldable pub is_declared_subset : Fields → Bool
is_declared_subset d =
    if has_field "type" d
    then true
    else if not (all_allowed (field_keys d))
    then false
    else if has_field "properties" d
        || has_field "items" d
        || has_field "enum" d
        || has_field "additionalProperties" d
    then true
    else is_list (get_field "required" d)

-- `is_declared_subset_schema`
unfoldable pub is_declared_subset_schema : Value → Bool
unfolding is_declared_subset
is_declared_subset_schema (obj end) = false
is_declared_subset_schema (obj (field k v d)) = is_declared_subset (field k v d)
is_declared_subset_schema _ = false

-- `_LEGACY_PY_TYPE_NAMES`
abbrev pub class_name : PyClass → Option TypeName
class_name str_class = some string_name
class_name int_class = some integer_name
class_name float_class = some number_name
class_name bool_class = some boolean_name
class_name dict_class = some object_name
class_name list_class = some array_name
class_name other_class = none

-- `_LEGACY_TYPE_ALIASES`
abbrev pub alias : String → Option TypeName
alias s =
    if s == "string" || s == "str"
    then some string_name
    else if s == "number" || s == "float"
    then some number_name
    else if s == "int" || s == "integer"
    then some integer_name
    else if s == "bool" || s == "boolean"
    then some boolean_name
    else if s == "object" || s == "dict"
    then some object_name
    else if s == "list" || s == "array"
    then some array_name
    else none

-- `except SchemaError as exc: return str(exc)`
abbrev pub message_of : Result (Option Node) → Option SchemaError
message_of (err e) = some e
message_of (ok n) = none

module _ (u : Unicode) where
  -- `_legacy_property_schema`: the type of the subschema, if it has one
  unfoldable pub hint_type : Value → Option TypeName
  unfolding to_lower
  hint_type (cls c) = class_name c
  hint_type (str s) = alias (to_lower u s)
  hint_type _ = none

  unfoldable pub legacy_entries : Fields → Entries
  unfolding hint_type
  legacy_entries end = no_more
  legacy_entries (field k hint d) =
      entry k (node (hint_type hint) none no_properties no_items none none) (legacy_entries d)

  -- `_normalize_legacy_flat`
  unfoldable pub normalize_legacy : Fields → Node
  unfolding legacy_entries
  normalize_legacy d =
      node (some object_name) (some (field_keys d)) (properties (legacy_entries d)) no_items none
        none

  -- `_normalize_subset_node` or `_normalize_legacy_flat`, as `_is_declared_subset` says
  unfoldable pub normalize_kind : Bool → Fields → Result (Option Node)
  unfolding normalize_node normalize_legacy
  normalize_kind true d = normalize_node (obj d) [] >>= λ n. ok (some n)
  normalize_kind false d = ok (some (normalize_legacy d))

  -- `normalize_schema`
  unfoldable pub normalize_schema : Value → Result (Option Node)
  unfolding is_declared_subset normalize_kind
  normalize_schema (obj end) = ok none
  normalize_schema (obj (field k v d)) =
      normalize_kind (is_declared_subset (field k v d)) (field k v d)
  normalize_schema _ = ok none

  -- `check_schema`
  unfoldable pub check_schema : Value → Option SchemaError
  unfolding normalize_schema
  check_schema schema = message_of (normalize_schema schema)
