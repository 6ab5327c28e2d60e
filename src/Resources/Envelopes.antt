-- ===== src/Resources/Envelopes.antt =====
-- `normalize_resource_envelopes` of resources.py: the resources that an action declares.
pub mod Provenance
use hermes_plugin_dynamic_wo.Prelude.{
  ℕ, String, ◌≡◌, refl, Bool, true, false, Option, none, some, List, [], ◌∷◌, ◌++◌, ◌==◌, arith,
  member, All, if◌then◌else◌,
}
use hermes_plugin_dynamic_wo.Python.Int.{pos}
use hermes_plugin_dynamic_wo.Python.Value.{
  Value, Items, Fields, null, bool, int, float, str, arr, obj, cls, nil, cons, end, field,
  get_field, get_or_null, put_field, update, opt_text,
}
use hermes_plugin_dynamic_wo.Python.Text.{Unicode}
use hermes_plugin_dynamic_wo.Resources.Records.{
  WorkflowResource, Result, ok, err, ◌>>=◌, bad_resources,
}
use hermes_plugin_dynamic_wo.Resources.Codec.{from_dict}

-- The owner that the controller vouches for.
abbrev pub default_owner : String → Value → ℕ → Fields
default_owner run_id loop_name iteration =
    field "run_id" (str run_id)
      (field "loop_name" loop_name (field "iteration" (int (pos iteration)) end))

abbrev append_items : Items → Items → Items
append_items nil ys = ys
append_items (cons x xs) ys = cons x (append_items xs ys)

-- `action["resource"]`, if it is there, before `action["resources"]`
abbrev one_item : Value → Items
one_item null = nil
one_item v = cons v nil

abbrev more_items : Value → Result Items
more_items null = ok nil
more_items (arr xs) = ok xs
more_items v = err bad_resources

abbrev pub raw_items : Fields → Result Items
raw_items action = do
  more ← more_items (get_or_null "resources" action)
  ok (append_items (one_item (get_or_null "resource" action)) more)

abbrev pub resource_ids : List WorkflowResource → List String
resource_ids [] = []
resource_ids (r ∷ rs) = r.resource_id ∷ resource_ids rs

module _ (u : Unicode) where
  -- The loop over the declarations; the first of an id counts, but every one is parsed.
  unfoldable pub collect : Fields → List WorkflowResource → Items → Result (List WorkflowResource)
  unfolding from_dict
  collect owner kept nil = ok kept
  collect owner kept (cons v xs) = do
    r ← from_dict u v owner
    collect owner (if member r.resource_id (resource_ids kept) then kept else kept ++ r ∷ []) xs

  unfoldable pub normalize_resource_envelopes :
      Fields → String → Value → ℕ → Result (List WorkflowResource)
  unfolding collect get_field
  normalize_resource_envelopes action run_id loop_name iteration = do
    items ← raw_items action
    collect (default_owner run_id loop_name iteration) [] items
