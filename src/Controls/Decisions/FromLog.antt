-- ===== src/Controls/Decisions/FromLog.antt =====
-- The decisions of controls.py against a description of the log of controls alone.
use hermes_plugin_dynamic_wo.Prelude.{
  String, ◌≡◌, Bool, true, false, not, ◌&&◌, ◌||◌, Option, none, some, List, [], ◌∷◌, ◌++◌, arith,
  is_some, if◌then◌else◌, ◌∙◌, refl, ◌⊎◌, inl, inr,
}
use hermes_plugin_dynamic_wo.Controls.Records.{
  Action, WorkflowControl, Result, ok, err, guard, ◌>>◌, opt_str, missing_target,
}
use hermes_plugin_dynamic_wo.Controls.Projection.{
  RunControlState, initial, apply, fold_controls, project, TaskStop, RetryRow,
}
use hermes_plugin_dynamic_wo.Controls.Projection.Toggle.{has_stop, last_toggle, project_toggle}
use hermes_plugin_dynamic_wo.Controls.Decisions.{
  Operation, start_child, continue_task, retry, check_run, ControlDecision, names, last_from,
  last_match, verdict, evaluate, operation_of, has_target,
}

abbrev is_task_stop : Action → Bool
is_task_stop Action.task_stop = true
is_task_stop _ = false

abbrev is_retry_action : Action → Bool
is_retry_action Action.retry = true
is_retry_action _ = false

-- Some control of the log stops, or retries, the task `t`.
pub stops_task : String → List WorkflowControl → Bool
stops_task t [] = false
stops_task t (c ∷ cs) = (is_task_stop c.action && names t c.target_ref) || stops_task t cs

pub retries_task : String → List WorkflowControl → Bool
retries_task t [] = false
retries_task t (c ∷ cs) = (is_retry_action c.action && names t c.target_ref) || retries_task t cs

any_named : {A : Type 0} → (A → Option String) → String → List A → Bool
any_named key t [] = false
any_named key t (r ∷ rows) = names t (key r) || any_named key t rows

any_named-snoc :
    {A : Type 0} (key : A → Option String) (t : String) (rows : List A) (r : A)
    → any_named key t (rows ++ r ∷ []) ≡ (any_named key t rows || names t (key r))
unfolding any_named
any_named-snoc key t [] r = ground arith
any_named-snoc key t (x ∷ rows) r = ground (arith, any_named-snoc key t rows r)

some-last_from :
    {A : Type 0} (key : A → Option String) (t : String) (found : Option A) (rows : List A)
    → is_some (last_from key t found rows) ≡ (is_some found || any_named key t rows)
unfolding last_from any_named
some-last_from key t found [] = ground arith
some-last_from key t found (r ∷ rows) =
    ground (arith, some-last_from key t (if names t (key r) then some r else found) rows)

some-last_match :
    {A : Type 0} (key : A → Option String) (t : String) (rows : List A)
    → is_some (last_match key t rows) ≡ any_named key t rows
unfolding last_match
some-last_match key t rows = some-last_from key t none rows

abbrev stop_key : TaskStop → Option String
stop_key r = r.target_ref

abbrev retry_key : RetryRow → Option String
retry_key r = r.target_ref

apply-stops_task :
    (t : String) (c : WorkflowControl) (s : RunControlState)
    → any_named stop_key t (apply c s).stopped_tasks
      ≡ (any_named stop_key t s.stopped_tasks || (is_task_stop c.action && names t c.target_ref))
unfolding apply
apply-stops_task t c s = ground (
  arith,
  any_named-snoc stop_key t s.stopped_tasks (record {
    target_ref = c.target_ref;
    control_id = c.control_id;
    reason = c.reason;
    at = c.created_at;
  }),
)

apply-retries_task :
    (t : String) (c : WorkflowControl) (s : RunControlState)
    → any_named retry_key t (apply c s).retries
      ≡ (any_named retry_key t s.retries || (is_retry_action c.action && names t c.target_ref))
unfolding apply
apply-retries_task t c s = ground (
  arith,
  any_named-snoc retry_key t s.retries (record {
    target_ref = c.target_ref;
    replacement_ref = c.replacement_ref;
    attempt = c.attempt;
    control_id = c.control_id;
    reason = c.reason;
    at = c.created_at;
  }),
)

fold-stops_task :
    (t : String) (cs : List WorkflowControl) (s : RunControlState)
    → any_named stop_key t (fold_controls s cs).stopped_tasks
      ≡ (any_named stop_key t s.stopped_tasks || stops_task t cs)
unfolding fold_controls stops_task
fold-stops_task t [] s = ground arith
fold-stops_task t (c ∷ cs) s =
    ground (arith, fold-stops_task t cs (apply c s), apply-stops_task t c s)

fold-retries_task :
    (t : String) (cs : List WorkflowControl) (s : RunControlState)
    → any_named retry_key t (fold_controls s cs).retries
      ≡ (any_named retry_key t s.retries || retries_task t cs)
unfolding fold_controls retries_task
fold-retries_task t [] s = ground arith
fold-retries_task t (c ∷ cs) s =
    ground (arith, fold-retries_task t cs (apply c s), apply-retries_task t c s)

project-stops_task :
    (r t : String) (cs : List WorkflowControl)
    → is_some (last_match stop_key t (project r cs).stopped_tasks) ≡ stops_task t cs
unfolding project any_named
project-stops_task r t cs =
    some-last_match stop_key t (fold_controls (initial r) cs).stopped_tasks
    ∙ fold-stops_task t cs (initial r)

project-retries_task :
    (r t : String) (cs : List WorkflowControl)
    → is_some (last_match retry_key t (project r cs).retries) ≡ retries_task t cs
unfolding project any_named
project-retries_task r t cs =
    some-last_match retry_key t (fold_controls (initial r) cs).retries
    ∙ fold-retries_task t cs (initial r)

-- What a log permits, said of the log alone: `none` for a task's operation that names no task.
pub permitted : List WorkflowControl → Operation → Option String → Option Bool
permitted log start_child t = some (not (has_stop log) && not (last_toggle false log))
permitted log continue_task none = none
permitted log continue_task (some t) = some (not (has_stop log) && not (stops_task t log))
permitted log retry none = none
permitted log retry (some t) = some (
    not (has_stop log)
    && not (stops_task t log)
    && not (retries_task t log)
    && not (last_toggle false log))
permitted log check_run t = some (not (has_stop log))

abbrev pub operation_name : Operation → String
operation_name start_child = "start_child"
operation_name continue_task = "continue_task"
operation_name retry = "retry"
operation_name check_run = "check_run"

-- The answer to an operation, against what the log permits.
abbrev pub Answers : Result ControlDecision → Option Bool → Type 0
Answers answer allowed =
    ((answer ≡ err missing_target) × (allowed ≡ none))
    ⊎ ((d : ControlDecision) × (answer ≡ ok d) × (allowed ≡ some d.allowed))

verdict-permitted :
    (run_id : String) (op : Operation) (t : Option String) (log : List WorkflowControl)
    → Answers
        (guard (has_target op t) missing_target >> ok (verdict (project run_id log) op t))
        (permitted log op t)
unfolding verdict permitted
verdict-permitted run_id start_child t log =
    inr
      (verdict (project run_id log) start_child t, refl, ground (arith, project_toggle run_id log))
verdict-permitted run_id continue_task none log = inl (refl, refl)
verdict-permitted run_id continue_task (some t) log = inr (
  verdict (project run_id log) continue_task (some t),
  refl,
  ground (arith, project_toggle run_id log, project-stops_task run_id t log),
)
verdict-permitted run_id retry none log = inl (refl, refl)
verdict-permitted run_id retry (some t) log = inr (
  verdict (project run_id log) retry (some t),
  refl,
  ground (
    arith,
    project_toggle run_id log,
    project-stops_task run_id t log,
    project-retries_task run_id t log,
  ),
)
verdict-permitted run_id check_run t log =
    inr (verdict (project run_id log) check_run t, refl, ground (arith, project_toggle run_id log))

evaluate_known :
    (s : RunControlState) (op : Operation) (t : Option String)
    → evaluate s (operation_name op) t
      ≡ (guard (has_target op (opt_str t)) missing_target >> ok (verdict s op (opt_str t)))
unfolding evaluate operation_of
evaluate_known s start_child t = refl
evaluate_known s continue_task t = refl
evaluate_known s retry t = refl
evaluate_known s check_run t = refl

-- For each of the four operations, on the projection of any log and with any target, given or not:
-- `evaluate_control_state` either fails for a missing target, and then the operation is about a
-- task (continue_task, retry) and the target is missing or empty, or it returns a decision, which
-- allows the operation exactly when the log has no stop and: for a launch (start_child, retry), no
-- pause in force; for a task's operation, no stop of the task; for a retry, no retry of it.
pub evaluate-permitted :
    (run_id : String) (op : Operation) (target_ref : Option String) (log : List WorkflowControl)
    → Answers
        (evaluate (project run_id log) (operation_name op) target_ref)
        (permitted log op (opt_str target_ref))
evaluate-permitted run_id op target_ref log =
    rw (evaluate_known (project run_id log) op target_ref)
      (verdict-permitted run_id op (opt_str target_ref) log)
