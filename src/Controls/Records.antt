-- ===== src/Controls/Records.antt =====
-- The value objects of controls.py, the errors that its functions raise, and `from_dict`.
pub use hermes_plugin_dynamic_wo.Prelude.Except.{ok, err, guard, ◌>>=◌, ◌>>◌}
use hermes_plugin_dynamic_wo.Prelude.Except.{Except}
use hermes_plugin_dynamic_wo.Prelude.{
  String, Bool, true, false, Option, none, some, ◌==◌, if◌then◌else◌,
}
use hermes_plugin_dynamic_wo.Python.Int.{ℤ}
use hermes_plugin_dynamic_wo.Python.Value.{Fields}

-- CONTROL_ACTIONS
pub data Action : Type 0 where
  pause resume stop task_stop retry decide_call : Action

-- APPROVAL_DECISION_KINDS
pub data DecisionKind : Type 0 where
  approve edit reject respond : DecisionKind

-- What a `ControlError` says, without its text.
pub data ControlError : Type 0 where
  not_an_object unknown_action missing_control_id missing_run_id bad_attempt : ControlError
  bad_decision unexpected_decision empty_run_id missing_target : ControlError
  unknown_operation unsafe_segment missing_input unexpected_input : ControlError
  missing_value unexpected_value : ControlError

abbrev pub Result {ℓ} : Type ℓ → Type ℓ
Result A = Except ControlError A

pub record WorkflowControl : Type 0 where
  pub control_id : String
  pub run_id : String
  pub action : Action
  pub created_at : String
  pub actor : Option String
  pub reason : Option String
  pub target_ref : Option String
  pub replacement_ref : Option String
  pub attempt : Option ℤ
  pub decision : Option DecisionKind
  pub metadata : Fields

abbrev pub action_name : Action → String
action_name pause = "pause"
action_name resume = "resume"
action_name stop = "stop"
action_name task_stop = "task_stop"
action_name retry = "retry"
action_name decide_call = "decide_call"

-- `action in CONTROL_ACTIONS`
unfoldable pub action_of : String → Option Action
action_of s =
    if s == "pause"
    then some pause
    else if s == "resume"
    then some resume
    else if s == "stop"
    then some stop
    else if s == "task_stop"
    then some task_stop
    else if s == "retry"
    then some retry
    else if s == "decide_call"
    then some decide_call
    else none

abbrev pub decision_name : DecisionKind → String
decision_name approve = "approve"
decision_name edit = "edit"
decision_name reject = "reject"
decision_name respond = "respond"

-- `decision in APPROVAL_DECISION_KINDS`
unfoldable pub decision_of : String → Option DecisionKind
decision_of s =
    if s == "approve"
    then some approve
    else if s == "edit"
    then some edit
    else if s == "reject"
    then some reject
    else if s == "respond"
    then some respond
    else none

abbrev pub is_decide_call : Action → Bool
is_decide_call decide_call = true
is_decide_call _ = false

-- task_stop, retry and decide_call name a child call or task.
abbrev pub needs_target : Action → Bool
needs_target task_stop = true
needs_target retry = true
needs_target decide_call = true
needs_target _ = false

-- `_opt_str` on an optional text: the empty text counts as missing.
abbrev pub opt_str : Option String → Option String
opt_str none = none
opt_str (some s) = if s == "" then none else some s
