-- ===== src/Loops/Action.antt =====
-- What loops.py reads from an actuator's answer: its cost, a request to suspend, and what is journaled.
use hermes_plugin_dynamic_wo.Prelude.{
  ℕ, String, Bool, false, not, ◌&&◌, ◌||◌, Option, none, some, List, ◌==◌, if◌then◌else◌,
}
use hermes_plugin_dynamic_wo.Python.Float.{Float, is_finite, flt, zero_float}
use hermes_plugin_dynamic_wo.Python.Value.{
  Value, Fields, null, int, float, str, obj, get_field, get_or_null, has_field, or_else, truthy,
}
use hermes_plugin_dynamic_wo.Grants.Records.{Platform}
use hermes_plugin_dynamic_wo.Grants.Credentials.{redact_fields}
use hermes_plugin_dynamic_wo.Resources.Records as ResourceRecords
use hermes_plugin_dynamic_wo.Resources.Records.{WorkflowResource}
use hermes_plugin_dynamic_wo.Resources.Envelopes.{normalize_resource_envelopes}
use hermes_plugin_dynamic_wo.Resources.Finalize.{type_name}
use hermes_plugin_dynamic_wo.Loops.Records.{
  Except, ok, err, ◌>>=◌, LoopState, ActuatorError, waiting_for_event, waiting_for_approval,
  actuator_raised, wrong_result, bad_cost, cost_overflow, both_requests, bad_wait, bad_approval,
  no_identity, bad_resources,
}
use hermes_plugin_dynamic_wo.Loops.World.{ActuatorAnswer, raised, returned}

abbrev need_cost : Float → Except ActuatorError Float
need_cost x = if is_finite x && not (flt x zero_float) then ok x else err bad_cost

abbrev converted_cost : Option Float → Except ActuatorError Float
converted_cost none = err cost_overflow
converted_cost (some x) = need_cost x

abbrev cost_value : Platform → Value → Except ActuatorError Float
cost_value p null = ok zero_float
cost_value p (int n) = converted_cost (p.rounding.of_int n)
cost_value p (float x) = need_cost x
cost_value p v = err bad_cost

-- `_action_cost`
unfoldable pub action_cost : Platform → Fields → Except ActuatorError Float
unfolding get_field
action_cost p action = cost_value p (get_or_null "cost" action)

-- Where a suspended loop waits, and for what.
pub data Waiting : Type 0 where
  for_event for_approval : Waiting

abbrev pub waiting_state : Waiting → LoopState
waiting_state for_event = waiting_for_event
waiting_state for_approval = waiting_for_approval

abbrev pub waiting_name : Waiting → String
waiting_name for_event = "waiting_for_event"
waiting_name for_approval = "waiting_for_approval"

abbrev is_text : Value → Bool
is_text (str s) = not (s == "")
is_text v = false

-- `_validate_request_identity`
abbrev has_identity : Fields → Bool
has_identity d =
    is_text (or_else (or_else (get_or_null "id" d) (get_or_null "token" d)) (get_or_null "kind" d))

abbrev pub Suspension : Type 0
Suspension = Option (Waiting × Fields)

abbrev wait_for : Waiting → ActuatorError → Value → Except ActuatorError Suspension
wait_for kind e (obj d) = if has_identity d then ok (some (kind, d)) else err no_identity
wait_for kind e v = err e

abbrev suspend : Value → Value → Except ActuatorError Suspension
suspend null null = ok none
suspend null approval = wait_for for_approval bad_approval approval
suspend wait null = wait_for for_event bad_wait wait
suspend wait approval = err both_requests

-- `_actuator_suspension`
unfoldable pub suspension_of : Fields → Except ActuatorError Suspension
unfolding get_field truthy
suspension_of action = suspend (get_or_null "wait" action) (get_or_null "approval_request" action)

-- `_redact_grant_envelopes`
unfoldable pub redact_grant_envelopes : Platform → Fields → Fields
unfolding get_field redact_fields
redact_grant_envelopes p action =
    if has_field "grant_request" action || has_field "grant" action
    then redact_fields p.unicode action
    else action

-- An action that is accepted, as the round goes on with it.
pub record Action : Type 0 where
  pub body : Fields
  pub cost : Float
  pub suspension : Suspension
  pub declared : List WorkflowResource

abbrev resources_or_error :
    ResourceRecords.Result (List WorkflowResource) → Except ActuatorError (List WorkflowResource)
resources_or_error (err e) = err (bad_resources e)
resources_or_error (ok rs) = ok rs

-- The `try` around the actuator.
unfoldable pub read_action :
    Platform → String → Value → ℕ → ActuatorAnswer → Except ActuatorError Action
unfolding action_cost suspension_of normalize_resource_envelopes
read_action p run_id loop_name iteration (raised e) = err (actuator_raised e)
read_action p run_id loop_name iteration (returned (obj action)) = do
  cost ← action_cost p action
  suspension ← suspension_of action
  declared ←
      resources_or_error (normalize_resource_envelopes p.unicode action run_id loop_name iteration)
  ok (record { body = action; cost = cost; suspension = suspension; declared = declared })
read_action p run_id loop_name iteration (returned v) = err (wrong_result (type_name v))
