-- ===== src/Loops/Ownership.antt =====
-- The resources of a loop run in loops.py: `_register_resources` and `_closeout_resources`.
pub mod Kept
pub mod Closed
use hermes_plugin_dynamic_wo.Prelude.{
  ℕ, suc, String, Bool, true, false, not, Option, none, some, List, [], ◌∷◌, ◌++◌, length,
  if◌then◌else◌,
}
use hermes_plugin_dynamic_wo.Python.Value.{
  Value, Items, Fields, str, arr, obj, nil, cons, end, field, get_field, get_or_null, get_or,
  put_field, value_eq,
}
use hermes_plugin_dynamic_wo.Grants.Records.{Platform}
use hermes_plugin_dynamic_wo.Resources.Records.{
  WorkflowResource, FinalizerResult, Result, to_dict, result_to_dict,
}
use hermes_plugin_dynamic_wo.Resources.Codec.{from_dict}
use hermes_plugin_dynamic_wo.Resources.Keys.{has_required_failure}
use hermes_plugin_dynamic_wo.Resources.Finalize.{run_resource_finalizers}
use hermes_plugin_dynamic_wo.Loops.Records.{
  Except, ok, err, ◌>>=◌, LoopState, LoopRunStatus, Listed, live, copied, planned, sensing, acting,
  verifying, waiting_for_event, waiting_for_approval, converged, halted_time_cap,
  halted_finalizer_error, said, registered, resource_list, result, prior,
}
use hermes_plugin_dynamic_wo.Loops.Spec.{LoopError, bad_resource}
use hermes_plugin_dynamic_wo.Loops.World.{World, Setup, Run, record_event}

abbrev has_id : String → Fields → Bool
has_id ident d = value_eq (get_or_null "id" d) (str ident)

-- `_find_resource`, and its position
unfoldable pub find_resource : String → ℕ → List Fields → Option (ℕ × Fields)
unfolding value_eq get_field
find_resource ident i [] = none
find_resource ident i (d ∷ ds) =
    if has_id ident d then some (i, d) else find_resource ident (suc i) ds

abbrev copy_value : String → Option Value → Fields → Fields
copy_value key none d = d
copy_value key (some v) d = put_field key v d

-- An entry with its id goes where an entry of that id stands already.
abbrev put_entry : Value → Fields → Fields → Fields
put_entry (str ident) item merged = put_field ident (obj item) merged
put_entry v item merged = merged

unfoldable pub merge_entries : Items → Fields → Fields
unfolding put_field get_field
merge_entries nil merged = merged
merge_entries (cons (obj d) xs) merged = merge_entries xs (put_entry (get_or_null "id" d) d merged)
merge_entries (cons v xs) merged = merge_entries xs merged

abbrev entries : Fields → Items
entries end = nil
entries (field ident v d) = cons v (entries d)

abbrev list_or_empty : Value → Items
list_or_empty (arr xs) = xs
list_or_empty v = nil

-- `_merge_finalizer_dicts`
unfoldable pub merge_finalizer_dicts : Value → Value → Items
unfolding merge_entries
merge_finalizer_dicts existing incoming =
    entries (merge_entries (list_or_empty incoming) (merge_entries (list_or_empty existing) end))

-- `_merge_resource_registration`
unfoldable pub merge_registration : Fields → Fields → Fields
unfolding put_field get_field merge_finalizer_dicts
merge_registration existing incoming =
    let kind = copy_value "kind" (get_field "kind" incoming) existing in
    let owner = copy_value "owner" (get_field "owner" incoming) kind in
    let handle = copy_value "handle" (get_field "handle" incoming) owner in
    let merged = copy_value "metadata" (get_field "metadata" incoming) handle in
    put_field "finalizers"
      (arr (
        merge_finalizer_dicts (get_or "finalizers" (arr nil) merged)
          (get_or "finalizers" (arr nil) incoming)))
      merged

-- The first resource of the id, replaced.
unfoldable pub replace_resource : String → Fields → List Fields → List Fields
unfolding value_eq get_field
replace_resource ident new [] = []
replace_resource ident new (d ∷ ds) =
    let rest = replace_resource ident new ds in if has_id ident d then new ∷ ds else d ∷ rest

-- What the loop of `_register_resources` carries: the resources of the status, and what changed.
pub record Registry : Type 0 where
  pub resources : List Fields
  pub changed : List Listed

abbrev register_found : String → Fields → Option (ℕ × Fields) → Registry → Registry
register_found ident incoming none g = record {
  resources = g.resources ++ incoming ∷ [];
  changed = g.changed ++ live (length g.resources) ∷ [];
}
register_found ident incoming (some (i, existing)) g =
    let merged = merge_registration existing incoming in
    if value_eq (obj merged) (obj existing) then g else record {
      resources = replace_resource ident merged g.resources;
      changed = g.changed ++ copied merged ∷ [];
    }

unfoldable pub register_all : List WorkflowResource → Registry → Registry
unfolding find_resource merge_registration replace_resource value_eq to_dict
register_all [] g = g
register_all (r ∷ rs) g =
    register_all rs
      (register_found r.resource_id (to_dict r) (find_resource r.resource_id 0 g.resources) g)

-- `_finalizer_trigger`
abbrev pub finalizer_trigger : LoopState → Option String
finalizer_trigger converged = some "success"
finalizer_trigger halted_time_cap = some "timeout"
finalizer_trigger halted_finalizer_error = none
finalizer_trigger planned = none
finalizer_trigger sensing = none
finalizer_trigger acting = none
finalizer_trigger verifying = none
finalizer_trigger waiting_for_event = none
finalizer_trigger waiting_for_approval = none
finalizer_trigger state = some "failure"

unfoldable pub parse_all : Platform → List Fields → Result (List WorkflowResource)
unfolding from_dict
parse_all p [] = ok []
parse_all p (d ∷ ds) = do r ← from_dict p.unicode (obj d) end; rs ← parse_all p ds; ok (r ∷ rs)

module _ {S : Type 0} (w : World S) (setup : Setup) where
  abbrev note_registered : ℕ → List Listed → Run S → Run S
  note_registered iteration [] run = run
  note_registered iteration (c ∷ cs) run =
      record_event w setup "resources_registered" acting iteration (registered (length (c ∷ cs)))
        (resource_list (c ∷ cs)) run

  -- `_register_resources`
  unfoldable pub register_resources : ℕ → List WorkflowResource → Run S → Run S
  unfolding register_all record_event
  register_resources iteration declared run =
      let g = register_all declared (record { resources = run.status.resources; changed = [] }) in
      note_registered iteration g.changed
        (record run { status = record run.status { resources = g.resources } })

  abbrev note_result : FinalizerResult → Run S → Run S
  note_result r run =
      let d = result_to_dict r in
      record_event w setup "finalizer_result" run.status.state run.status.iterations
        (said r.summary) (result d)
        (record run {
          status = record run.status { finalizer_results = run.status.finalizer_results ++ d ∷ [] };
        })

  unfoldable pub note_results : List FinalizerResult → Run S → Run S
  unfolding record_event result_to_dict
  note_results [] run = run
  note_results (r ∷ rs) run = note_results rs (note_result r run)

  abbrev fail_required : Run S → Run S
  fail_required run =
      record_event w setup "halted" halted_finalizer_error run.status.iterations
        (said "required resource finalizer failed")
        (prior run.status.state run.status.halted_reason)
        (record run {
          status = record run.status {
            state = halted_finalizer_error;
            halted_reason = some (said "required resource finalizer failed");
          };
        })

  abbrev check_required : Run S → Run S
  check_required run =
      if has_required_failure run.status.finalizer_results then fail_required run else run

  -- The results, none of which means that nothing was to do.
  abbrev close_with : Result (List FinalizerResult) → Run S → Except LoopError (Run S)
  close_with (err e) run = err (bad_resource e)
  close_with (ok []) run = ok run
  close_with (ok (r ∷ rs)) run = ok (check_required (note_results (r ∷ rs) run))

  module _ (p : Platform) (mask : String → String) where
    abbrev finalize : String → Result (List WorkflowResource) → Run S → Except LoopError (Run S)
    finalize trigger (err e) run = err (bad_resource e)
    finalize trigger (ok resources) run =
        let (results, s) =
          run_resource_finalizers p mask w.finalizer trigger run.status.run_id setup.name resources
            run.status.finalizer_results run.outside in
        close_with results (record run { outside = s })

    abbrev close_on : Option String → List Fields → Run S → Except LoopError (Run S)
    close_on none resources run = ok run
    close_on (some trigger) [] run = ok run
    close_on (some trigger) (d ∷ ds) run = finalize trigger (parse_all p (d ∷ ds)) run

    -- `_closeout_resources`
    unfoldable pub closeout_resources : Run S → Except LoopError (Run S)
    unfolding run_resource_finalizers parse_all note_results has_required_failure record_event
    closeout_resources run = close_on (finalizer_trigger run.status.state) run.status.resources run
