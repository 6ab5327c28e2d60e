-- ===== src/Controls/Verbs.antt =====
-- The verbs of controls.py over any store: `record_control`, the run verbs, `retry`, `decide_call`.
pub mod Retries
pub mod Attempts
use Prim.Native.String.{◌++◌ as str_append}
use hermes_plugin_dynamic_wo.Prelude.{
  ℕ, String, ◌≡◌, Bool, true, false, not, ◌&&◌, Option, none, some, List, [], ◌∷◌, ◌==◌, is_some,
  last?, if◌then◌else◌,
}
use hermes_plugin_dynamic_wo.Python.Int.{ℤ, pos, ltb_ℤ, ◌+ℤ◌}
use hermes_plugin_dynamic_wo.Python.Value.{Value, Fields, obj, end, field}
use hermes_plugin_dynamic_wo.Controls.Records.{
  Action, DecisionKind, ControlError, WorkflowControl, Result, ok, err, guard, ◌>>=◌, ◌>>◌, pause,
  resume, stop, task_stop, retry, decide_call, edit, respond, action_of, decision_of, needs_target,
  opt_str, unknown_action, empty_run_id, missing_target, bad_decision, missing_input,
  unexpected_input, missing_value, unexpected_value, is_decide_call,
}
use hermes_plugin_dynamic_wo.Controls.Store.Interface.{ControlStore}
use hermes_plugin_dynamic_wo.Controls.Options.{
  Options, Ambient, parse_decision, id_or_fresh, mint, no_options, Note, with_note, attempt_or_zero,
  max_ℤ, max_attempt, is_retry, names_target, is_retry_of, retries_of, next_attempt,
  replacement_or_default, retry_options, reused, decision_metadata,
}

module _ (store : ControlStore) (w : Ambient) where
  open store use {Store, append, list_for}

  abbrev append_minted : Result WorkflowControl → Store → Result WorkflowControl × Store
  append_minted (ok c) s = append s c
  append_minted (err e) s = (err e, s)

  unfoldable pub record_control : Store → String → String → Options → Result WorkflowControl × Store
  unfolding mint
  record_control s run_id action o = append_minted (mint w run_id action o) s

  unfoldable pub pause_run : Store → String → Note → Result WorkflowControl × Store
  unfolding record_control
  pause_run s run_id n = record_control s run_id "pause" (with_note n)

  unfoldable pub resume_run : Store → String → Note → Result WorkflowControl × Store
  unfolding record_control
  resume_run s run_id n = record_control s run_id "resume" (with_note n)

  unfoldable pub stop_run : Store → String → Note → Result WorkflowControl × Store
  unfolding record_control
  stop_run s run_id n = record_control s run_id "stop" (with_note n)

  unfoldable pub stop_task : Store → String → String → Note → Result WorkflowControl × Store
  unfolding record_control
  stop_task s run_id target n =
      record_control s run_id "task_stop" (record (with_note n) { target_ref = some target })

  retry_with :
      Store
      → String
      → String
      → Option String
      → Bool
      → Note
      → Result (List WorkflowControl)
      → Result WorkflowControl × Store
  unfolding record_control
  retry_with s run_id target replacement force n (err e) = (err e, s)
  retry_with s run_id target replacement force n (ok controls) =
      let prior = retries_of target controls in
      elim (reused force prior) [
        | some c ↦ (ok c, s)
        | none ↦
            record_control s run_id "retry"
              (retry_options w run_id target replacement n (next_attempt prior))
      ]

  unfoldable pub retry_call :
      Store → String → String → Option String → Bool → Note → Result WorkflowControl × Store
  unfolding retry_with retries_of
  retry_call s run_id target replacement force n =
      if run_id == ""
      then (err empty_run_id, s)
      else if target == ""
      then (err missing_target, s)
      else retry_with s run_id target replacement force n (list_for s run_id)

  decide_with :
      Store
      → String
      → String
      → String
      → Option String
      → Option String
      → Option String
      → Result Fields
      → Result WorkflowControl × Store
  unfolding record_control
  decide_with s run_id call_id decision actor reason control_id (err e) = (err e, s)
  decide_with s run_id call_id decision actor reason control_id (ok metadata) =
      record_control s run_id "decide_call" (record no_options {
        actor = actor;
        reason = reason;
        target_ref = some call_id;
        decision = some decision;
        control_id = control_id;
        metadata = metadata;
      })

  -- `input` is an object or missing; `value` is missing, or any value, `None` included.
  unfoldable pub decide :
      Store
      → String
      → String
      → String
      → Option Fields
      → Option Value
      → Option String
      → Option String
      → Option String
      → Result WorkflowControl × Store
  unfolding decide_with decision_metadata decision_of
  decide s run_id call_id decision input value actor reason control_id =
      elim (decision_of decision) [
        | none ↦ (err bad_decision, s)
        | some d ↦
            if run_id == ""
            then (err empty_run_id, s)
            else if call_id == ""
            then (err missing_target, s)
            else decide_with s run_id call_id decision actor reason control_id
                (decision_metadata d input value)
      ]
