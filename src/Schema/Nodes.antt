-- ===== src/Schema/Nodes.antt =====
-- The schemas of schema_subset.py once they are normalized, and what `SchemaError` says.
use hermes_plugin_dynamic_wo.Prelude.{ℕ, String, Bool, Option, List}
pub use hermes_plugin_dynamic_wo.Prelude.Except.{Except, ok, err, ◌>>=◌, ◌>>◌, guard}
use hermes_plugin_dynamic_wo.Python.Value.{Items}

-- `TYPE_NAMES`
pub data TypeName : Type 0 where
  object_name array_name string_name number_name integer_name boolean_name null_name : TypeName

-- The dict that `_normalize_subset_node` returns: a keyword that it may lack is optional here.
mutual
  pub data Node : Type 0 where
    -- type, required, properties, items, enum, additionalProperties
    node : Option TypeName → Option (List String) → Props → Sub → Option Items → Option Bool → Node

  pub data Props : Type 0 where
    no_properties : Props
    properties : Entries → Props

  pub data Sub : Type 0 where
    no_items : Sub
    items : Node → Sub

  pub data Entries : Type 0 where
    no_more : Entries
    entry : String → Node → Entries → Entries

-- Where an error is: the steps from the root, the last first.
pub data Step : Type 0 where
  property : String → Step
  element : ℕ → Step
  keyword : String → Step

pub data SchemaProblem : Type 0 where
  not_an_object bad_type bad_required bad_properties bad_enum bad_additional : SchemaProblem
  unsupported_keywords : List String → SchemaProblem

pub data Mismatch : Type 0 where
  got_bool wrong_class : TypeName → Mismatch
  not_in_enum : Mismatch
  missing_field : String → Mismatch
  unexpected_fields : List String → Mismatch

pub data SchemaError : Type 0 where
  malformed : List Step → SchemaProblem → SchemaError
  mismatch : List Step → Mismatch → SchemaError

abbrev pub Result : Type 0 → Type 0
Result A = Except SchemaError A

-- What a check returns.
abbrev pub Checked : Type 0
Checked = Result (Unit {0})

-- The properties that a node declares: `node.get("properties", {})`
abbrev pub entries_of : Props → Entries
entries_of no_properties = no_more
entries_of (properties es) = es

abbrev pub names_of : Entries → List String
names_of no_more = List.[]
names_of (entry k n es) = List.◌∷◌ k (names_of es)
