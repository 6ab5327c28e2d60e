-- ===== src/Resources/Finalize/Named.antt =====
-- What the results of the finalizers of resources.py name, and their keys.
use hermes_plugin_dynamic_wo.Prelude.{
  String, ◌≡◌, refl, true, ◌||◌, none, some, List, [], ◌∷◌, ◌++◌, arith, eq_refl,
}
use hermes_plugin_dynamic_wo.Python.Value.{
  Value, Fields, null, bool, int, float, str, arr, obj, cls, get_field, value_eq,
}
use hermes_plugin_dynamic_wo.Grants.Records.{Platform}
use hermes_plugin_dynamic_wo.Resources.Records.{
  ResourceFinalizer, WorkflowResource, FinalizerResult, Policy, result_to_dict, required,
  best_effort, preserve_only, manual_approval_required,
}
use hermes_plugin_dynamic_wo.Resources.Keys.{
  Key, key_of, same_key, is_completed, keys_of, result_key,
}
use hermes_plugin_dynamic_wo.Resources.Finalize.{
  Answer, raised, returned, judge, read_result, context_of, Runner, run_one, run_policy, run_with,
}

pub is_completed-append :
    (k : Key) (xs ys : List Key)
    → is_completed k (xs ++ ys) ≡ (is_completed k xs || is_completed k ys)
unfolding is_completed
is_completed-append k [] ys = refl
is_completed-append k (x ∷ xs) ys = ground (arith, is_completed-append k xs ys)

pub same_key_refl :
    (r : WorkflowResource) (f : ResourceFinalizer) (trigger : String)
    → same_key (key_of r f trigger) (key_of r f trigger) ≡ true
unfolding value_eq
same_key_refl r f trigger = rw (eq_refl r.resource_id, eq_refl f.finalizer_id, eq_refl trigger) refl

pub keys_of-append : (xs ys : List Fields) → keys_of (xs ++ ys) ≡ keys_of xs ++ keys_of ys
unfolding keys_of
keys_of-append [] ys = refl
keys_of-append (x ∷ xs) ys = rw (keys_of-append xs ys)

-- A result names its resource, its finalizer and its trigger.
abbrev Names : WorkflowResource → ResourceFinalizer → String → FinalizerResult → Type 0
Names r f trigger x =
    (x.resource_id ≡ r.resource_id) × (x.finalizer_id ≡ f.finalizer_id) × (x.trigger ≡ trigger)

module _ (p : Platform) (mask : String → String) where
  read_result-Names :
      (r : WorkflowResource) (f : ResourceFinalizer) (trigger : String) (v : Value) (d : Fields)
      → Names r f trigger (read_result p mask r f trigger v d)
  read_result-Names r f trigger null d = (refl, refl, refl)
  read_result-Names r f trigger (bool b) d = (refl, refl, refl)
  read_result-Names r f trigger (int n) d = (refl, refl, refl)
  read_result-Names r f trigger (float x) d = (refl, refl, refl)
  read_result-Names r f trigger (str s) d = (refl, refl, refl)
  read_result-Names r f trigger (arr xs) d = (refl, refl, refl)
  read_result-Names r f trigger (obj e) d = (refl, refl, refl)
  read_result-Names r f trigger (cls c) d = (refl, refl, refl)

  judge-Names :
      (r : WorkflowResource) (f : ResourceFinalizer) (trigger : String) (a : Answer)
      → Names r f trigger (judge p mask r f trigger a)
  unfolding judge
  judge-Names r f trigger (raised e) = (refl, refl, refl)
  judge-Names r f trigger (returned (obj d)) = read_result-Names r f trigger _ _
  judge-Names r f trigger (returned null) = (refl, refl, refl)
  judge-Names r f trigger (returned (bool b)) = (refl, refl, refl)
  judge-Names r f trigger (returned (int n)) = (refl, refl, refl)
  judge-Names r f trigger (returned (float x)) = (refl, refl, refl)
  judge-Names r f trigger (returned (str s)) = (refl, refl, refl)
  judge-Names r f trigger (returned (arr xs)) = (refl, refl, refl)
  judge-Names r f trigger (returned (cls c)) = (refl, refl, refl)

  module _ {S : Type 0} (runner : Runner S) (trigger run_id : String) (name : Value) where
    run_with-Names :
        (o : Runner S) (r : WorkflowResource) (f : ResourceFinalizer) (s : S)
        → Names r f trigger (run_with p mask o r f trigger run_id name s).0
    run_with-Names none r f s = (refl, refl, refl)
    run_with-Names (some call) r f s =
        judge-Names r f trigger (call (context_of p mask r f trigger run_id name) s).0

    run_policy-Names :
        (q : Policy) (r : WorkflowResource) (f : ResourceFinalizer) (s : S)
        → Names r f trigger (run_policy p mask q runner r f trigger run_id name s).0
    run_policy-Names required r f s = run_with-Names runner r f s
    run_policy-Names best_effort r f s = run_with-Names runner r f s
    run_policy-Names preserve_only r f s = (refl, refl, refl)
    run_policy-Names manual_approval_required r f s = (refl, refl, refl)

    named_key :
        (r : WorkflowResource) (f : ResourceFinalizer) (x : FinalizerResult)
        → Names r f trigger x
        → result_key (result_to_dict x) ≡ key_of r f trigger
    unfolding result_to_dict get_field
    named_key r f x (a, b, c) = rw (a, b, c) refl

    pub run_one_key :
        (r : WorkflowResource) (f : ResourceFinalizer) (s : S)
        → result_key (result_to_dict (run_one p mask runner r f trigger run_id name s).0)
          ≡ key_of r f trigger
    unfolding run_one
    run_one_key r f s = named_key r f _ (run_policy-Names f.policy r f s)
