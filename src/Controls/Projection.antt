-- ===== src/Controls/Projection.antt =====
-- `project_control_state` of controls.py: the fold of a run's controls into its desired state.
pub mod Terminal
pub mod Toggle
use hermes_plugin_dynamic_wo.Prelude.{
  ℕ, String, Bool, true, false, Option, none, some, List, [], ◌∷◌, ◌++◌, ◌==◌, length,
  if◌then◌else◌,
}
use hermes_plugin_dynamic_wo.Python.Int.{ℤ}
use hermes_plugin_dynamic_wo.Python.Value.{Value, Fields, get_or_null}
use hermes_plugin_dynamic_wo.Controls.Records.{
  Action, DecisionKind, WorkflowControl, pause, resume, stop, task_stop, retry, decide_call, edit,
  respond, approve, reject,
}

-- The rows are dicts with fixed keys; `input` and `value` are there only for an edit, a respond.
pub record TaskStop : Type 0 where
  pub target_ref : Option String
  pub control_id : String
  pub reason : Option String
  pub at : String

pub record RetryRow : Type 0 where
  pub target_ref : Option String
  pub replacement_ref : Option String
  pub attempt : Option ℤ
  pub control_id : String
  pub reason : Option String
  pub at : String

pub record DecisionRow : Type 0 where
  pub target_ref : Option String
  pub decision : Option DecisionKind
  pub control_id : String
  pub reason : Option String
  pub at : String
  pub input : Option Value
  pub value : Option Value

pub data DesiredState : Type 0 where
  running paused stopped : DesiredState

pub record RunControlState : Type 0 where
  pub run_id : String
  pub desired_state : DesiredState
  pub paused : Bool
  pub stopped : Bool
  pub stop_reason : Option String
  pub stopped_at : Option String
  pub stopped_by : Option String
  pub stopped_control_id : Option String
  pub stopped_tasks : List TaskStop
  pub retries : List RetryRow
  pub call_decisions : List DecisionRow
  pub last_control_id : Option String
  pub last_action : Option Action
  pub controls_total : ℕ

-- The loop's variables are those of the result but the headline and the total, which are set last.
abbrev pub initial : String → RunControlState
initial run_id = record {
  run_id = run_id;
  desired_state = DesiredState.running;
  paused = false;
  stopped = false;
  stop_reason = none;
  stopped_at = none;
  stopped_by = none;
  stopped_control_id = none;
  stopped_tasks = [];
  retries = [];
  call_decisions = [];
  last_control_id = none;
  last_action = none;
  controls_total = 0;
}

abbrev decision_row : WorkflowControl → Option DecisionKind → DecisionRow
decision_row c d =
    let row : DecisionRow = record {
      target_ref = c.target_ref;
      decision = d;
      control_id = c.control_id;
      reason = c.reason;
      at = c.created_at;
      input = none;
      value = none;
    } in
    elim d [
      | none ↦ row
      | some approve ↦ row
      | some edit ↦ record row { input = some (get_or_null "input" c.metadata) }
      | some reject ↦ row
      | some respond ↦ record row { value = some (get_or_null "value" c.metadata) }
    ]

first_stop : WorkflowControl → RunControlState → RunControlState
first_stop c s = if s.stopped then s else record s {
  stopped = true;
  stop_reason = c.reason;
  stopped_at = some c.created_at;
  stopped_by = c.actor;
  stopped_control_id = some c.control_id;
}

-- One round of the loop, by the action of its control.
apply_action : Action → WorkflowControl → RunControlState → RunControlState
unfolding first_stop
apply_action stop c s = let s' = first_stop c s in record s' { paused = false }
apply_action pause c s = if s.stopped then s else record s { paused = true }
apply_action resume c s = if s.stopped then s else record s { paused = false }
apply_action task_stop c s =
    let row : TaskStop = record {
      target_ref = c.target_ref;
      control_id = c.control_id;
      reason = c.reason;
      at = c.created_at;
    } in
    record s { stopped_tasks = s.stopped_tasks ++ row ∷ [] }
apply_action retry c s =
    let row : RetryRow = record {
      target_ref = c.target_ref;
      replacement_ref = c.replacement_ref;
      attempt = c.attempt;
      control_id = c.control_id;
      reason = c.reason;
      at = c.created_at;
    } in
    record s { retries = s.retries ++ row ∷ [] }
apply_action decide_call c s = record s {
  call_decisions = s.call_decisions ++ decision_row c c.decision ∷ [];
}

unfoldable pub apply : WorkflowControl → RunControlState → RunControlState
unfolding apply_action
apply c s =
    apply_action c.action c
      (record s { last_control_id = some c.control_id; last_action = some c.action })

unfoldable pub fold_controls : RunControlState → List WorkflowControl → RunControlState
unfolding apply
fold_controls s [] = s
fold_controls s (c ∷ cs) = fold_controls (apply c s) cs

abbrev pub headline : RunControlState → DesiredState
headline s =
    if s.stopped
    then DesiredState.stopped
    else if s.paused
    then DesiredState.paused
    else DesiredState.running

unfoldable pub project : String → List WorkflowControl → RunControlState
unfolding fold_controls
project run_id controls =
    let s = fold_controls (initial run_id) controls in
    record s { desired_state = headline s; controls_total = length controls }
