-- ===== src/Resources/Registry.antt =====
-- `ResourceFinalizerRegistry` of resources.py: handlers by the action that they perform.
use hermes_plugin_dynamic_wo.Prelude.{String, Bool, Option, none, some, if◌then◌else◌}
use hermes_plugin_dynamic_wo.Prelude.Dict.{Dict, get, put, remove}
use hermes_plugin_dynamic_wo.Python.Value.{Value, Fields, str, obj, get_or_null, get_field}
use hermes_plugin_dynamic_wo.Python.Text.{Unicode}
use hermes_plugin_dynamic_wo.Resources.Records.{
  Result, ok, err, bad_action, already_registered, missing_action, unknown_action,
}
use hermes_plugin_dynamic_wo.Resources.Codec.{is_identifier}

-- `context["finalizer"]["action"]`, where it is a text
abbrev action_in : Value → Option String
action_in (str s) = some s
action_in v = none

abbrev finalizer_action : Value → Option String
finalizer_action (obj d) = action_in (get_or_null "action" d)
finalizer_action v = none

unfoldable pub context_action : Fields → Option String
unfolding get_field
context_action context = finalizer_action (get_or_null "finalizer" context)

module _ {H : Type 0} (u : Unicode) where
  abbrev pub register_new : Option H → String → H → Bool → Dict H → Result (Dict H)
  register_new none action handler replace s = ok (put action handler s)
  register_new (some old) action handler replace s =
      if replace then ok (put action handler s) else err already_registered

  -- `register` of a text and a callable
  unfoldable pub register : String → H → Bool → Dict H → Result (Dict H)
  unfolding is_identifier
  register action handler replace s =
      if is_identifier u action
      then register_new (get action s) action handler replace s
      else err bad_action

module _ {H : Type 0} where
  -- `unregister`
  abbrev pub unregister : String → Dict H → Dict H
  unregister action s = remove action s

  -- `handler_for`
  abbrev pub handler_for : String → Dict H → Option H
  handler_for action s = get action s

  abbrev handler_of : Option String → Dict H → Result H
  handler_of none s = err missing_action
  handler_of (some action) s = elim (get action s) [ none ↦ err unknown_action | some h ↦ ok h ]

  -- `__call__`: the handler that is called with the context, or the LookupError
  unfoldable pub dispatch : Fields → Dict H → Result H
  unfolding context_action
  dispatch context s = handler_of (context_action context) s
