-- ===== src/Resources/Finalize.antt =====
-- `run_resource_finalizers` and `_run_one_finalizer` of resources.py. What a runner does outside is a
-- change of a state `S`.
pub mod Named
pub mod Once
use hermes_plugin_dynamic_wo.Prelude.{
  ℕ, zero, suc, ◌+◌, String, ◌≡◌, refl, Bool, true, false, not, ◌&&◌, ◌||◌, Option, none, some,
  List, [], ◌∷◌, ◌++◌, ◌==◌, member, if◌then◌else◌,
}
use Prim.Native.String.{◌++◌ as str_append}
use hermes_plugin_dynamic_wo.Python.Value.{
  Value, Items, Fields, null, bool, int, float, str, arr, obj, cls, nil, cons, end, field,
  get_field, get_or_null, get_or, or_else, str_of, dicts_of, truthy, value_eq,
}
use hermes_plugin_dynamic_wo.Grants.Records.{Platform}
use hermes_plugin_dynamic_wo.Grants.Credentials.{redact_credentials}
use hermes_plugin_dynamic_wo.Resources.Records.{
  ResourceFinalizer, WorkflowResource, FinalizerResult, Policy, Status, Result, ok, err, triggers,
  required, best_effort, preserve_only, manual_approval_required, succeeded, failed, skipped,
  preserved, approval_required, to_dict, finalizer_to_dict, result_to_dict, policy_name,
  unknown_trigger,
}
use hermes_plugin_dynamic_wo.Resources.Redact.{redact_text, redact_payload, redact_below}
use hermes_plugin_dynamic_wo.Resources.Keys.{Key, key_of, is_completed, keys_of}

-- How a call of the runner ends: an exception's text, or a value.
pub data Answer : Type 0 where
  raised : String → Answer
  returned : Value → Answer

abbrev pub Runner : Type 0 → Type 0
Runner S = Option (Fields → S → Answer × S)

-- What the loops carry: the keys that are completed, the results, and the state outside.
pub record Progress (S : Type 0) : Type 0 where
  pub completed : List Key
  pub results : List FinalizerResult
  pub outside : S

-- type(x).__name__
abbrev pub type_name : Value → String
type_name null = "NoneType"
type_name (bool b) = "bool"
type_name (int n) = "int"
type_name (float x) = "float"
type_name (str s) = "str"
type_name (arr xs) = "list"
type_name (obj d) = "dict"
type_name (cls c) = "type"

abbrev fields_in : Value → Fields
fields_in (obj d) = d
fields_in v = end

abbrev pub is_required : Policy → Bool
is_required required = true
is_required _ = false

-- `mask` is `_EMBEDDED_CREDENTIAL_RE.sub(REDACTED, ·)`.
module _ (p : Platform) (mask : String → String) where
  -- The outcome of one finalizer, but for its status, summary, evidence and error.
  abbrev pub outcome :
      WorkflowResource
      → ResourceFinalizer
      → String
      → Status
      → String
      → List Fields
      → Option String
      → FinalizerResult
  outcome r f trigger status summary evidence error = record {
    resource_id = r.resource_id;
    finalizer_id = f.finalizer_id;
    action = f.action;
    trigger = trigger;
    policy = f.policy;
    status = status;
    summary = summary;
    evidence = evidence;
    error = error;
  }

  -- The context of a runner.
  abbrev pub context_of : WorkflowResource → ResourceFinalizer → String → String → Value → Fields
  context_of r f trigger run_id loop_name = field "run_id" (str run_id) (
      field "loop_name" loop_name (
        field "trigger" (str trigger)
          (field "resource" (obj (to_dict r)) (field "finalizer" (obj (finalizer_to_dict f)) end))))

  abbrev read_evidence : Value → List Fields
  read_evidence (arr xs) = dicts_of xs
  read_evidence v = []

  abbrev read_error : Value → Option String
  read_error null = none
  read_error v = some (str_of p.text v)

  abbrev pub done_or_failed : Bool → Status
  done_or_failed true = succeeded
  done_or_failed false = failed

  abbrev default_summary : Bool → String
  default_summary true = "cleanup succeeded"
  default_summary false = "cleanup failed"

  -- A result whose `ok` is a bool, or not.
  abbrev read_result :
      WorkflowResource → ResourceFinalizer → String → Value → Fields → FinalizerResult
  read_result r f trigger (bool b) d =
      outcome r f trigger (done_or_failed b)
        (str_of p.text (or_else (get_or_null "summary" d) (str (default_summary b))))
        (read_evidence (get_or "evidence" (arr nil) d)) (read_error (get_or_null "error" d))
  read_result r f trigger v d =
      outcome r f trigger failed "finalizer result ok must be a boolean" []
        (some "malformed_result")

  -- What the runner's answer makes of the finalizer.
  unfoldable pub judge : WorkflowResource → ResourceFinalizer → String → Answer → FinalizerResult
  unfolding redact_below get_field truthy
  judge r f trigger (raised e) =
      let text = redact_text p mask e in outcome r f trigger failed text [] (some text)
  judge r f trigger (returned (obj d)) =
      let e = fields_in (redact_payload p mask (obj d)) in
      read_result r f trigger (get_or "ok" (bool true) e) e
  judge r f trigger (returned v) =
      outcome r f trigger failed
        (str_append "finalizer returned " (str_append (type_name v) ", expected dict")) []
        (some "malformed_result")

  module _ {S : Type 0} where
    -- `_run_one_finalizer` of a policy that runs something
    abbrev pub run_with :
        Runner S
        → WorkflowResource
        → ResourceFinalizer
        → String
        → String
        → Value
        → S
        → FinalizerResult × S
    run_with none r f trigger run_id loop_name s = (
      outcome r f trigger (if is_required f.policy then failed else skipped)
          "no resource finalizer runner configured" [] (some "no_runner"),
      s,
    )
    run_with (some runner) r f trigger run_id loop_name s =
        let (answer, s') = runner (context_of r f trigger run_id loop_name) s in
        (judge r f trigger answer, s')

    abbrev pub run_policy :
        Policy
        → Runner S
        → WorkflowResource
        → ResourceFinalizer
        → String
        → String
        → Value
        → S
        → FinalizerResult × S
    run_policy preserve_only runner r f trigger run_id loop_name s = (
      outcome r f trigger preserved
          (str_append "resource " (str_append r.resource_id " preserved by policy")) [] none,
      s,
    )
    run_policy manual_approval_required runner r f trigger run_id loop_name s = (
      outcome r f trigger approval_required
          (str_append "resource " (str_append r.resource_id " requires manual cleanup approval")) []
          none,
      s,
    )
    run_policy required runner r f trigger run_id loop_name s =
        run_with runner r f trigger run_id loop_name s
    run_policy best_effort runner r f trigger run_id loop_name s =
        run_with runner r f trigger run_id loop_name s

    -- `_run_one_finalizer`
    unfoldable pub run_one :
        Runner S
        → WorkflowResource
        → ResourceFinalizer
        → String
        → String
        → Value
        → S
        → FinalizerResult × S
    unfolding judge
    run_one runner r f trigger run_id loop_name s =
        run_policy f.policy runner r f trigger run_id loop_name s

    abbrev add_result : Key → FinalizerResult × S → Progress S → Progress S
    add_result key (result, s) g = record {
      completed = g.completed ++ key ∷ [];
      results = g.results ++ result ∷ [];
      outside = s;
    }

    -- The body of the inner loop.
    unfoldable pub visit :
        Runner S
        → String
        → String
        → Value
        → WorkflowResource
        → ResourceFinalizer
        → Progress S
        → Progress S
    unfolding run_one is_completed
    visit runner trigger run_id loop_name r f g =
        if is_completed (key_of r f trigger) g.completed || not (member trigger f.when)
        then g
        else add_result (key_of r f trigger) (run_one runner r f trigger run_id loop_name g.outside)
            g

    unfoldable pub visit_finalizers :
        Runner S
        → String
        → String
        → Value
        → WorkflowResource
        → List ResourceFinalizer
        → Progress S
        → Progress S
    unfolding visit
    visit_finalizers runner trigger run_id loop_name r [] g = g
    visit_finalizers runner trigger run_id loop_name r (f ∷ fs) g =
        visit_finalizers runner trigger run_id loop_name r fs
          (visit runner trigger run_id loop_name r f g)

    unfoldable pub visit_resources :
        Runner S → String → String → Value → List WorkflowResource → Progress S → Progress S
    unfolding visit_finalizers
    visit_resources runner trigger run_id loop_name [] g = g
    visit_resources runner trigger run_id loop_name (r ∷ rs) g =
        visit_resources runner trigger run_id loop_name rs
          (visit_finalizers runner trigger run_id loop_name r r.finalizers g)

    -- `run_resource_finalizers`: the new results, and the state outside
    unfoldable pub run_resource_finalizers :
        Runner S
        → String
        → String
        → Value
        → List WorkflowResource
        → List Fields
        → S
        → Result (List FinalizerResult) × S
    unfolding visit_resources keys_of
    run_resource_finalizers runner trigger run_id loop_name resources existing s =
        if member trigger triggers
        then (let g =
              visit_resources runner trigger run_id loop_name resources
                (record { completed = keys_of existing; results = []; outside = s }) in
            (ok g.results, g.outside))
        else (err unknown_trigger, s)
