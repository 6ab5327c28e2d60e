-- ===== src/Resources/Keys.antt =====
-- Which finalizers ran, and whether a required one failed, of resources.py.
use hermes_plugin_dynamic_wo.Prelude.{String, Bool, false, ◌&&◌, ◌||◌, List, [], ◌∷◌}
use hermes_plugin_dynamic_wo.Python.Value.{Value, Fields, str, get_field, get_or_null, value_eq}
use hermes_plugin_dynamic_wo.Resources.Records.{ResourceFinalizer, WorkflowResource}

-- The key of a run finalizer: its resource, its id, and the trigger.
pub record Key : Type 0 where
  pub resource_id : Value
  pub finalizer_id : Value
  pub trigger : Value

abbrev pub key_of : WorkflowResource → ResourceFinalizer → String → Key
key_of r f trigger = record {
  resource_id = str r.resource_id;
  finalizer_id = str f.finalizer_id;
  trigger = str trigger;
}

abbrev pub same_key : Key → Key → Bool
same_key a b =
    value_eq a.resource_id b.resource_id
    && value_eq a.finalizer_id b.finalizer_id
    && value_eq a.trigger b.trigger

-- `key in completed`
unfoldable pub is_completed : Key → List Key → Bool
unfolding value_eq
is_completed k [] = false
is_completed k (j ∷ js) = same_key k j || is_completed k js

abbrev pub result_key : Fields → Key
result_key r = record {
  resource_id = get_or_null "resource_id" r;
  finalizer_id = get_or_null "finalizer_id" r;
  trigger = get_or_null "trigger" r;
}

-- The keys of the results that are there already.
unfoldable pub keys_of : List Fields → List Key
unfolding get_field
keys_of [] = []
keys_of (r ∷ rs) = result_key r ∷ keys_of rs

-- `has_required_finalizer_failure`
unfoldable pub has_required_failure : List Fields → Bool
unfolding value_eq get_field
has_required_failure [] = false
has_required_failure (r ∷ rs) =
    (value_eq (get_or_null "policy" r) (str "required")
      && value_eq (get_or_null "status" r) (str "failed"))
    || has_required_failure rs
