-- ===== src/Tests/Resources.antt =====
-- The theorems about resources.py at concrete inputs.
use hermes_plugin_dynamic_wo.Prelude.{
  ℕ, suc, ◌≡◌, refl, false, none, some, List, [], ◌∷◌, ◌++◌, All, map,
}
use hermes_plugin_dynamic_wo.Prelude.Dict.{Dict, get, put}
use hermes_plugin_dynamic_wo.Grants.Credentials.{is_credential_key, looks_like_credential}
use hermes_plugin_dynamic_wo.Python.Int.{pos}
use hermes_plugin_dynamic_wo.Python.Value.{Fields, int, str, obj, end, field}
use hermes_plugin_dynamic_wo.Python.Fields.{IsDistinct}
use hermes_plugin_dynamic_wo.Resources.Records.{
  ResourceFinalizer, WorkflowResource, FinalizerResult, ok, required, succeeded, result_to_dict,
}
use hermes_plugin_dynamic_wo.Resources.Envelopes.{normalize_resource_envelopes, resource_ids}
use hermes_plugin_dynamic_wo.Resources.Envelopes.Provenance.{IsOwned, normalize-IsOwned}
use hermes_plugin_dynamic_wo.Resources.Redact.{depth}
use hermes_plugin_dynamic_wo.Resources.Finalize.{Runner, run_resource_finalizers, returned}
use hermes_plugin_dynamic_wo.Resources.Finalize.Once.{run_resource_finalizers_again}
use hermes_plugin_dynamic_wo.Resources.Registry.{register}
use hermes_plugin_dynamic_wo.Tests.Samples.{ascii, platform}

-- An action that claims another run as the owner.
abbrev action : Fields
action =
    field "resource"
      (obj (
        field "id" (str "pod-1")
          (field "kind" (str "pod") (field "owner" (obj (field "run_id" (str "other") end)) end))))
      end

abbrev finalizer : ResourceFinalizer
finalizer = record {
  finalizer_id = "f";
  action = "stop";
  when = "success" ∷ [];
  policy = required;
  args = end;
  verification = end;
}

abbrev owned : List ResourceFinalizer → WorkflowResource
owned fs = record {
  resource_id = "pod-1";
  kind = "pod";
  owner =
      field "run_id" (str "run-1")
        (field "loop_name" (str "demo") (field "iteration" (int (pos 1)) end));
  handle = end;
  metadata = end;
  finalizers = fs;
}

declared : normalize_resource_envelopes ascii action "run-1" (str "demo") 1 ≡ ok (owned [] ∷ [])
unfolding normalize_resource_envelopes is_credential_key looks_like_credential
declared = refl

normalize-IsOwned_example :
    All (IsOwned "run-1" (str "demo") 1) (owned [] ∷ []) × IsDistinct (resource_ids (owned [] ∷ []))
normalize-IsOwned_example = normalize-IsOwned ascii "run-1" (str "demo") 1 action declared

-- The runner counts its calls.
abbrev runner : Runner ℕ
runner = some (λ context s. (returned (obj end), suc s))

abbrev done : FinalizerResult
done = record {
  resource_id = "pod-1";
  finalizer_id = "f";
  action = "stop";
  trigger = "success";
  policy = required;
  status = succeeded;
  summary = "cleanup succeeded";
  evidence = [];
  error = none;
}

ran_once :
    run_resource_finalizers platform
      (λ s. s)
      runner
      "success"
      "run-1"
      (str "demo")
      (owned (finalizer ∷ []) ∷ [])
      []
      0
    ≡ (ok (done ∷ []), 1)
unfolding run_resource_finalizers depth
ran_once = refl

run_resource_finalizers_again_example :
    run_resource_finalizers platform
      (λ s. s)
      runner
      "success"
      "run-1"
      (str "demo")
      (owned (finalizer ∷ []) ∷ [])
      ([] ++ map result_to_dict (done ∷ []))
      1
    ≡ (ok [], 1)
run_resource_finalizers_again_example =
    run_resource_finalizers_again platform (λ s. s) runner runner "success" "run-1" (str "demo")
      (owned (finalizer ∷ []) ∷ []) [] 0 1 (done ∷ []) ran_once

abbrev handlers : Dict ℕ
handlers = ("stop", 1) ∷ []

registered : register ascii "start" 2 false handlers ≡ ok (("stop", 1) ∷ ("start", 2) ∷ [])
unfolding register get put
registered = refl
