-- ===== src/Controls/Projection/Terminal.antt =====
-- A stop is terminal in the projection of controls.py.
use hermes_plugin_dynamic_wo.Prelude.{
  String, ◌≡◌, ◌≢◌, refl, true, false, some, List, [], ◌∷◌, ◌++◌, arith, All,
}
use hermes_plugin_dynamic_wo.Controls.Records.{WorkflowControl, stop}
use hermes_plugin_dynamic_wo.Controls.Projection.{
  RunControlState, DesiredState, initial, apply, fold_controls, project,
}

-- The state shows a run that `c` stopped.
pub record StoppedBy (c : WorkflowControl) (s : RunControlState) : Type 0 where
  pub stopped : s.stopped ≡ true
  pub paused : s.paused ≡ false
  pub stop_reason : s.stop_reason ≡ c.reason
  pub stopped_at : s.stopped_at ≡ some c.created_at
  pub stopped_by : s.stopped_by ≡ c.actor
  pub stopped_control_id : s.stopped_control_id ≡ some c.control_id

apply-StoppedBy :
    (c d : WorkflowControl) (s : RunControlState) → StoppedBy c s → StoppedBy c (apply d s)
unfolding apply
apply-StoppedBy c d s h = ground arith

fold-StoppedBy :
    (c : WorkflowControl) (s : RunControlState) (ds : List WorkflowControl)
    → StoppedBy c s
    → StoppedBy c (fold_controls s ds)
unfolding fold_controls
fold-StoppedBy c s [] h = h
fold-StoppedBy c s (d ∷ ds) h = fold-StoppedBy c (apply d s) ds (apply-StoppedBy c d s h)

-- A control that is no stop leaves a run that is not stopped so.
apply_unstopped :
    (d : WorkflowControl) (s : RunControlState)
    → d.action ≢ stop
    → s.stopped ≡ false
    → (apply d s).stopped ≡ false
unfolding apply
apply_unstopped d s h e = ground arith

apply_stops :
    (c : WorkflowControl) (s : RunControlState)
    → c.action ≡ stop
    → s.stopped ≡ false
    → StoppedBy c (apply c s)
unfolding apply
apply_stops c s h e = ground arith

fold_stops :
    (s : RunControlState) (before after : List WorkflowControl) (c : WorkflowControl)
    → All (λ d. d.action ≢ stop) before
    → c.action ≡ stop
    → s.stopped ≡ false
    → StoppedBy c (fold_controls s (before ++ c ∷ after))
unfolding fold_controls
fold_stops s [] after c h e u = fold-StoppedBy c (apply c s) after (apply_stops c s e u)
fold_stops s (d ∷ before) after c h e u =
    fold_stops (apply d s) before after c h.1 e (apply_unstopped d s h.0 u)

-- Where the first stop of a log is `c`, the projection shows the run as stopped by `c`, with its
-- reason, time, actor and id, and not paused, whatever controls follow.
pub project-StoppedBy :
    (run_id : String) (before after : List WorkflowControl) (c : WorkflowControl)
    → All (λ d. d.action ≢ stop) before
    → c.action ≡ stop
    → StoppedBy c (project run_id (before ++ c ∷ after))
      × ((project run_id (before ++ c ∷ after)).desired_state ≡ DesiredState.stopped)
unfolding project
project-StoppedBy run_id before after c h e =
    let s = fold_stops (initial run_id) before after c h e refl in
    (
      record {
        stopped = s.stopped;
        paused = s.paused;
        stop_reason = s.stop_reason;
        stopped_at = s.stopped_at;
        stopped_by = s.stopped_by;
        stopped_control_id = s.stopped_control_id;
      },
      rw s.stopped refl,
    )
