-- ===== src/Schema/Check/Errors/Schemas.antt =====
-- `_normalize_subset_node` raises about the schema alone.
use hermes_plugin_dynamic_wo.Prelude.{
  String, refl, true, Option, none, some, List, [], ◌∷◌, arith, ◌==◌,
}
use hermes_plugin_dynamic_wo.Python.Value.{
  Value, Fields, null, bool, int, float, str, arr, obj, cls, end, field, get_field, field_keys,
}
use hermes_plugin_dynamic_wo.Schema.Nodes.{Step, property, keyword}
use hermes_plugin_dynamic_wo.Schema.Normalize.{
  need_supported, unsupported, read_type, read_required, read_enum, read_additional, normalize_node,
  normalize_properties, normalize_declared, normalize_entries, normalize_items,
}
use hermes_plugin_dynamic_wo.Schema.Check.Errors.Kinds.{Only, Only-intro, Only->>=, elim-Only}

-- The readers of a schema's keywords.
supported-Only : (ks : List String) (path : List Step) → Only true (need_supported ks path)
supported-Only [] path = tt
supported-Only (k ∷ ks) path = refl

type-Only : (o : Option Value) (path : List Step) → Only true (read_type o path)
type-Only none path = tt
type-Only (some v) path = Only-intro true _ (λ e h. ground arith)

required-Only : (o : Option Value) (path : List Step) → Only true (read_required o path)
required-Only none path = tt
required-Only (some v) path = Only-intro true _ (λ e h. ground arith)

enum-Only : (o : Option Value) (path : List Step) → Only true (read_enum o path)
enum-Only none path = tt
enum-Only (some v) path = Only-intro true _ (λ e h. ground arith)

additional-Only : (o : Option Value) (path : List Step) → Only true (read_additional o path)
additional-Only none path = tt
additional-Only (some v) path = Only-intro true _ (λ e h. ground arith)

mutual
  unfolding normalize_node

  pub node-Only : (v : Value) (path : List Step) → Only true (normalize_node v path)
  node-Only (obj d) path = Only->>= _ _ _ (supported-Only (unsupported (field_keys d)) path) (λ a.
      Only->>= _ _ _ (type-Only (get_field "type" d) path) (λ b.
        Only->>= _ _ _ (required-Only (get_field "required" d) path) (λ c.
          Only->>= _ _ _ (properties-Only d path) (λ ps. Only->>= _ _ _ (items-Only d path) (λ sub.
            Only->>= _ _ _ (enum-Only (get_field "enum" d) path) (λ e.
              Only->>= _ _ _ (additional-Only (get_field "additionalProperties" d) path)
                (λ x. tt)))))))
  node-Only null path = refl
  node-Only (bool b) path = refl
  node-Only (int n) path = refl
  node-Only (float x) path = refl
  node-Only (str s) path = refl
  node-Only (arr xs) path = refl
  node-Only (cls c) path = refl

  properties-Only : (d : Fields) (path : List Step) → Only true (normalize_properties d path)
  properties-Only end path = tt
  properties-Only (field k v d) path =
      elim-Only true (k == "properties") _ _ (declared-Only v path) (properties-Only d path)

  declared-Only : (v : Value) (path : List Step) → Only true (normalize_declared v path)
  declared-Only (obj d) path = Only->>= _ _ _ (entries-Only d path) (λ es. tt)
  declared-Only null path = refl
  declared-Only (bool b) path = refl
  declared-Only (int n) path = refl
  declared-Only (float x) path = refl
  declared-Only (str s) path = refl
  declared-Only (arr xs) path = refl
  declared-Only (cls c) path = refl

  entries-Only : (d : Fields) (path : List Step) → Only true (normalize_entries d path)
  entries-Only end path = tt
  entries-Only (field k v d) path =
      Only->>= _ _ _ (node-Only v (property k ∷ keyword "properties" ∷ path))
        (λ n. Only->>= _ _ _ (entries-Only d path) (λ es. tt))

  items-Only : (d : Fields) (path : List Step) → Only true (normalize_items d path)
  items-Only end path = tt
  items-Only (field k v d) path =
      elim-Only true (k == "items") _ _
        (Only->>= _ _ _ (node-Only v (keyword "items" ∷ path)) (λ n. tt)) (items-Only d path)
