-- ===== src/Capabilities/Registry.antt =====
-- `CapabilityRegistry` of capabilities.py, and what it makes of a handler's result. What a handler does
-- outside is a change of a state `S`; `size` is the length of `json.dumps(x).encode()`, if it has one.
pub mod Guarded
use hermes_plugin_dynamic_wo.Prelude.{
  ℕ, String, ◌≡◌, refl, Bool, true, false, not, Option, none, some, leb, if◌then◌else◌,
}
use hermes_plugin_dynamic_wo.Prelude.Dict.{Dict, get, put}
use hermes_plugin_dynamic_wo.Python.Value.{
  Value, Fields, null, bool, str, obj, end, field, get_field, get_or_null, has_field, put_field,
}
use hermes_plugin_dynamic_wo.Python.Text.{Unicode}
use hermes_plugin_dynamic_wo.Grants.Credentials.{redact_fields}
use hermes_plugin_dynamic_wo.Grants.Records.{SideEffect, side_effect_name}
use hermes_plugin_dynamic_wo.Capabilities.Records.{
  Refusal, Result, ok, err, ◌>>=◌, ◌>>◌, guard, Answer, denied, raised, returned,
  WorkflowCapability, CapabilityPolicy, normalize_name, make_capability, already_registered,
  unknown_capability, capability_credential, capability_handler_error, denied_by_handler,
  capability_result_too_large, capability_result_invalid,
}
use hermes_plugin_dynamic_wo.Capabilities.Clip.{clip_fields}
use hermes_plugin_dynamic_wo.Capabilities.Requests.{find_request_credential, enforce_policy}

-- `d.setdefault(k, v)`
abbrev set_default : String → Value → Fields → Fields
set_default k v d = if has_field k d then d else put_field k v d

-- `_normalize_result`
unfoldable pub normalize_result : Value → Fields
unfolding put_field get_field
normalize_result (obj d) = set_default "ok" (bool true) d
normalize_result v = field "output" v (field "ok" (bool true) end)

-- `request.get("input")`, where it is a dict
abbrev payload_of : Value → Fields
payload_of (obj d) = d
payload_of v = end

-- `{**request, "input": payload}`
abbrev pub with_input : Fields → Fields
with_input request = put_field "input" (obj (payload_of (get_or_null "input" request))) request

module _ (u : Unicode) (size : Value → Option ℕ) where
  abbrev check_size : Option ℕ → ℕ → Fields → Result Fields
  check_size none most d = err capability_result_invalid
  check_size (some n) most d = if leb n most then ok d else err capability_result_too_large

  -- `_bound_result`
  unfoldable pub bound_result : Fields → CapabilityPolicy → Result Fields
  unfolding clip_fields
  bound_result d policy =
      let bounded = clip_fields policy.max_stream_bytes d end in
      check_size (size (obj bounded)) policy.max_result_bytes bounded

  -- The result before it is bounded.
  unfoldable pub prepare : Value → SideEffect → Fields
  unfolding normalize_result redact_fields put_field get_field
  prepare v class' =
      redact_fields u
        (set_default "side_effect_class" (str (side_effect_name class')) (normalize_result v))

  -- `finalize_capability_result`
  unfoldable pub finalize_result : Value → SideEffect → CapabilityPolicy → Result Fields
  unfolding prepare bound_result
  finalize_result v class' policy = bound_result (prepare v class') policy

  module _ {S : Type 0} where
    abbrev add :
        Bool
        → Option (WorkflowCapability S)
        → WorkflowCapability S
        → Dict (WorkflowCapability S)
        → Result (Dict (WorkflowCapability S))
    add replace none c d = ok (put c.name c d)
    add true (some old) c d = ok (put c.name c d)
    add false (some old) c d = err already_registered

    -- `register`
    unfoldable pub register :
        Value
        → (Fields → S → Answer × S)
        → String
        → String
        → Bool
        → Bool
        → Dict (WorkflowCapability S)
        → Result (Dict (WorkflowCapability S))
    unfolding make_capability
    register name handler class' description replayable replace d = do
      c ← make_capability u name handler class' description replayable
      add replace (get c.name d) c d

    abbrev found : String → Option (WorkflowCapability S) → Result (WorkflowCapability S)
    found name none = err (unknown_capability name)
    found name (some c) = ok c

    -- `get`
    unfoldable pub get_capability :
        Value → Dict (WorkflowCapability S) → Result (WorkflowCapability S)
    unfolding normalize_name
    get_capability name d = do
      normalized ← normalize_name u name
      found normalized (get normalized d)

    abbrev context_of : WorkflowCapability S → Fields → Fields → Fields
    context_of c request run = field "name" (str c.name) (
        field "input" (obj (payload_of (get_or_null "input" request))) (
          field "label" (get_or_null "label" request) (
            field "approval_id" (get_or_null "approval_id" request) (
              field "side_effect_class" (str (side_effect_name c.side_effect_class))
                (field "run" (obj run) end)))))

    abbrev judge : WorkflowCapability S → CapabilityPolicy → Answer → Result Fields
    judge c policy (denied code) = err (denied_by_handler code)
    judge c policy (raised name) = err (capability_handler_error name)
    judge c policy (returned v) = finalize_result v c.side_effect_class policy

    abbrev call : WorkflowCapability S → Fields → Fields → CapabilityPolicy → S → Result Fields × S
    call c request run policy s =
        let (answer, s') = c.handler (context_of c request run) s in (judge c policy answer, s')

    abbrev enforced :
        Result (Unit {0})
        → WorkflowCapability S
        → Fields
        → Fields
        → CapabilityPolicy
        → S
        → Result Fields × S
    enforced (err e) c request run policy s = (err e, s)
    enforced (ok _) c request run policy s = call c request run policy s

    abbrev scanned :
        Option String
        → WorkflowCapability S
        → Fields
        → Fields
        → CapabilityPolicy
        → S
        → Result Fields × S
    scanned (some k) c request run policy s = (err (capability_credential k), s)
    scanned none c request run policy s =
        enforced (enforce_policy c request policy) c request run policy s

    abbrev run_found :
        Result (WorkflowCapability S) → Fields → Fields → CapabilityPolicy → S → Result Fields × S
    run_found (err e) request run policy s = (err e, s)
    run_found (ok c) request run policy s =
        scanned (find_request_credential u (with_input request)) c request run policy s

    -- `run`
    unfoldable pub run_capability :
        Value
        → Fields
        → CapabilityPolicy
        → Fields
        → Dict (WorkflowCapability S)
        → S
        → Result Fields × S
    unfolding get_capability find_request_credential enforce_policy finalize_result get_field
        put_field
    run_capability name request policy run d s =
        run_found (get_capability name d) request run policy s
