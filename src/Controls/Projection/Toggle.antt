-- ===== src/Controls/Projection/Toggle.antt =====
-- What pauses, resumes and stops make of the projection, against a description of the log.
use hermes_plugin_dynamic_wo.Prelude.{
  String, ◌≡◌, refl, Bool, true, false, ◌||◌, List, [], ◌∷◌, arith, if◌then◌else◌,
}
use hermes_plugin_dynamic_wo.Controls.Records.{Action, WorkflowControl, stop, pause, resume}
use hermes_plugin_dynamic_wo.Controls.Projection.{
  RunControlState, initial, apply, fold_controls, project,
}

abbrev is_stop : Action → Bool
is_stop stop = true
is_stop _ = false

-- Some control of the log is a stop.
pub has_stop : List WorkflowControl → Bool
has_stop [] = false
has_stop (c ∷ cs) = is_stop c.action || has_stop cs

-- The last pause or resume of the log is a pause; `b` if there is none.
abbrev toggled : Bool → Action → Bool
toggled b pause = true
toggled b resume = false
toggled b _ = b

pub last_toggle : Bool → List WorkflowControl → Bool
last_toggle b [] = b
last_toggle b (c ∷ cs) = last_toggle (toggled b c.action) cs

apply_toggle :
    (c : WorkflowControl) (s : RunControlState)
    → (s.stopped ≡ true → s.paused ≡ false)
    → ((apply c s).stopped ≡ (s.stopped || is_stop c.action))
      × ((apply c s).stopped ≡ false → (apply c s).paused ≡ toggled s.paused c.action)
      × ((apply c s).stopped ≡ true → (apply c s).paused ≡ false)
unfolding apply
apply_toggle c s h = ground arith

pub fold_toggle :
    (s : RunControlState) (cs : List WorkflowControl)
    → (s.stopped ≡ true → s.paused ≡ false)
    → ((fold_controls s cs).stopped ≡ (s.stopped || has_stop cs))
      × ((fold_controls s cs).paused
          ≡ (if s.stopped || has_stop cs then false else last_toggle s.paused cs))
unfolding fold_controls has_stop last_toggle
fold_toggle s [] h = ground arith
fold_toggle s (c ∷ cs) h =
    let (st, tg, inv) = apply_toggle c s h in
    let (a, b) = fold_toggle (apply c s) cs inv in ground arith

-- The projection is stopped exactly when the log has a stop; it is paused exactly when the log has
-- no stop and its last pause or resume is a pause.
pub project_toggle :
    (run_id : String) (cs : List WorkflowControl)
    → ((project run_id cs).stopped ≡ has_stop cs)
      × ((project run_id cs).paused ≡ (if has_stop cs then false else last_toggle false cs))
unfolding project
project_toggle run_id cs = fold_toggle (initial run_id) cs (λ e. refl)
