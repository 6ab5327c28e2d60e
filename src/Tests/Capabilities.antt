-- ===== src/Tests/Capabilities.antt =====
-- The theorems about capabilities.py at concrete inputs.
use hermes_plugin_dynamic_wo.Prelude.{
  ℕ, suc, ◌≡◌, ◌↔◌, refl, true, false, Option, none, some, [], ◌∷◌,
}
use hermes_plugin_dynamic_wo.Prelude.Dict.{Dict, get}
use hermes_plugin_dynamic_wo.Python.Value.{Value, Fields, str, end, field}
use hermes_plugin_dynamic_wo.Grants.Records.{SideEffect}
use hermes_plugin_dynamic_wo.Grants.Credentials.{is_credential_key, looks_like_credential}
use hermes_plugin_dynamic_wo.Capabilities.Records.{
  WorkflowCapability, CapabilityPolicy, ok, returned,
}
use hermes_plugin_dynamic_wo.Capabilities.Clip.{clip_string, clip_fields}
use hermes_plugin_dynamic_wo.Capabilities.Clip.Bound.{FieldsClipped, clip_fields-FieldsClipped}
use hermes_plugin_dynamic_wo.Capabilities.Requests.{enforce_policy}
use hermes_plugin_dynamic_wo.Capabilities.Requests.Permitted.{IsPermitted, enforce_policy_iff}
use hermes_plugin_dynamic_wo.Capabilities.Registry.{run_capability}
use hermes_plugin_dynamic_wo.Capabilities.Registry.Guarded.{Outcome, run-Outcome}
use hermes_plugin_dynamic_wo.Tests.Samples.{ascii}

-- A capability that writes outside, and counts its calls.
abbrev capability : WorkflowCapability ℕ
capability = record {
  name = "board:move";
  handler = λ context s. (returned (str "moved"), suc s);
  side_effect_class = SideEffect.external_write;
  description = "";
  replayable = false;
}

abbrev policy : CapabilityPolicy
policy = record {
  allowed_names = none;
  allowed_side_effect_classes = SideEffect.external_write ∷ [];
  approval_required_classes = SideEffect.external_write ∷ [];
  approved_approval_ids = "ok-1" ∷ [];
  interactive_approval = false;
  max_result_bytes = 256;
  max_stream_bytes = 4;
}

abbrev request : Fields
request = field "approval_id" (str "ok-1") end

abbrev capabilities : Dict (WorkflowCapability ℕ)
capabilities = ("board:move", capability) ∷ []

abbrev size : Value → Option ℕ
size v = some 10

-- The call that is approved is made, and the one that is not is refused.
call_counts :
    ((run_capability ascii size (str "board:move") request policy end capabilities 0).1 ≡ 1)
    × ((run_capability ascii size (str "board:move") end policy end capabilities 0).1 ≡ 0)
unfolding run_capability get is_credential_key looks_like_credential
call_counts = (refl, refl)

clip_string_cut : clip_string "a€b" 3 ≡ ("a", true)
unfolding clip_string
clip_string_cut = refl

run-Outcome_example :
    Outcome ascii size
      (str "board:move")
      request
      policy
      end
      capabilities
      0
      (run_capability ascii size (str "board:move") request policy end capabilities 0)
run-Outcome_example = run-Outcome ascii size (str "board:move") request policy end capabilities 0

enforce_policy_iff_example :
    (enforce_policy capability request policy ≡ ok tt) ↔ IsPermitted capability request policy
enforce_policy_iff_example = enforce_policy_iff capability request policy

clip_fields-FieldsClipped_example :
    FieldsClipped 4 (clip_fields 4 (field "stdout" (str "abcdef") end) end)
clip_fields-FieldsClipped_example = clip_fields-FieldsClipped 4 (field "stdout" (str "abcdef") end)
