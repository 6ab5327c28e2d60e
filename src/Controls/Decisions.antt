-- ===== src/Controls/Decisions.antt =====
-- `evaluate_control_state` of controls.py and its wrappers.
pub mod FromLog
use hermes_plugin_dynamic_wo.Prelude.{
  String, Bool, true, false, ◌&&◌, ◌||◌, not, Option, none, some, List, [], ◌∷◌, ◌==◌, is_some,
  if◌then◌else◌,
}
use hermes_plugin_dynamic_wo.Python.Int.{ℤ}
use hermes_plugin_dynamic_wo.Controls.Records.{
  Result, ok, err, guard, ◌>>=◌, ◌>>◌, opt_str, unknown_operation, missing_target,
}
use hermes_plugin_dynamic_wo.Controls.Projection.{
  RunControlState, DesiredState, TaskStop, RetryRow, DecisionRow,
}

-- CONTROL_OPERATIONS
pub data Operation : Type 0 where
  start_child continue_task retry check_run : Operation

-- CONTROL_DECISION_CODES
pub data DecisionCode : Type 0 where
  allowed run_stopped run_paused task_stopped retry_exists : DecisionCode

-- The gloss of a decision, with the values that its text shows.
pub data Gloss : Type 0 where
  nothing_blocks new_work_held : Gloss
  stop_gloss : Option String → Gloss
  task_gloss : String → Option String → Gloss
  retry_gloss : String → Option ℤ → Gloss

pub record ControlDecision : Type 0 where
  pub allowed : Bool
  pub code : DecisionCode
  pub reason : Gloss
  pub run_id : String
  pub operation : Operation
  pub target_ref : Option String
  pub desired_state : DesiredState
  pub control_id : Option String
  pub replacement_ref : Option String
  pub attempt : Option ℤ

unfoldable pub operation_of : String → Option Operation
operation_of s =
    if s == "start_child"
    then some start_child
    else if s == "continue_task"
    then some continue_task
    else if s == "retry"
    then some retry
    else if s == "check_run"
    then some check_run
    else none

abbrev pub names : String → Option String → Bool
names t none = false
names t (some s) = s == t

-- The loop of `_last_match`, over rows whose `target_ref` is `key`.
unfoldable pub last_from :
    {A : Type 0} → (A → Option String) → String → Option A → List A → Option A
last_from key t found [] = found
last_from key t found (r ∷ rows) = last_from key t (if names t (key r) then some r else found) rows

unfoldable pub last_match : {A : Type 0} → (A → Option String) → String → List A → Option A
unfolding last_from
last_match key t rows = last_from key t none rows

-- `latest_call_decision`
unfoldable pub latest_call_decision : RunControlState → String → Option DecisionRow
unfolding last_match
latest_call_decision s call_id = last_match (λ r. r.target_ref) call_id s.call_decisions

-- continue_task and retry are about one child.
abbrev pub on_target : Operation → Bool
on_target continue_task = true
on_target retry = true
on_target _ = false

-- start_child and retry launch new work.
abbrev pub launches : Operation → Bool
launches start_child = true
launches retry = true
launches _ = false

abbrev pub is_retry : Operation → Bool
is_retry retry = true
is_retry _ = false

-- The target that the per-target checks look for: `if target and operation in (...)`.
abbrev pub target_for : Bool → Option String → Option String
target_for true t = t
target_for false t = none

-- `continue_task` and `retry` need a target.
abbrev pub has_target : Operation → Option String → Bool
has_target op t = if on_target op then is_some t else true

module _ (s : RunControlState) (op : Operation) (target : Option String) where
  abbrev decide : Bool → DecisionCode → Gloss → Option String → ControlDecision
  decide yes_no code reason control_id = record {
    allowed = yes_no;
    code = code;
    reason = reason;
    run_id = s.run_id;
    operation = op;
    target_ref = target;
    desired_state = s.desired_state;
    control_id = control_id;
    replacement_ref = none;
    attempt = none;
  }

  abbrev pause_check : ControlDecision
  pause_check =
      if s.paused && launches op
      then decide false run_paused new_work_held none
      else decide true DecisionCode.allowed nothing_blocks none

  retry_check : Option String → ControlDecision
  retry_check none = pause_check
  retry_check (some t) = elim (last_match (λ r. r.target_ref) t s.retries) [
    | none ↦ pause_check
    | some row ↦
        let d = decide false retry_exists (retry_gloss t row.attempt) (some row.control_id) in
        record d { replacement_ref = row.replacement_ref; attempt = row.attempt }
  ]

  task_check : Option String → ControlDecision
  unfolding retry_check
  task_check none = retry_check (target_for (is_retry op) target)
  task_check (some t) = elim (last_match (λ r. r.target_ref) t s.stopped_tasks) [
    | none ↦ retry_check (target_for (is_retry op) target)
    | some row ↦ decide false task_stopped (task_gloss t (opt_str row.reason)) (some row.control_id)
  ]

  -- The decision once the arguments are checked.
  unfoldable pub verdict : ControlDecision
  unfolding task_check last_match
  verdict =
      if s.stopped
      then decide false run_stopped (stop_gloss (opt_str s.stop_reason)) s.stopped_control_id
      else task_check (target_for (on_target op) target)

-- `evaluate_control_state`
unfoldable pub evaluate : RunControlState → String → Option String → Result ControlDecision
unfolding verdict operation_of
evaluate s name target_ref = elim (operation_of name) [
  | none ↦ err unknown_operation
  | some op ↦ do
    guard (has_target op (opt_str target_ref)) missing_target
    ok (verdict s op (opt_str target_ref))
]

-- The wrappers.
unfoldable pub may_start_work : RunControlState → Result ControlDecision
unfolding evaluate
may_start_work s = evaluate s "start_child" none

unfoldable pub may_continue_task : RunControlState → String → Result ControlDecision
unfolding evaluate
may_continue_task s t = evaluate s "continue_task" (some t)

unfoldable pub may_retry : RunControlState → String → Result ControlDecision
unfolding evaluate
may_retry s t = evaluate s "retry" (some t)

unfoldable pub may_check_run : RunControlState → Result ControlDecision
unfolding evaluate
may_check_run s = evaluate s "check_run" none
