-- ===== src/Runs/Records.antt =====
-- `RunRecord` of registry.py, with its steps and their progress. A status is a text, which the code does
-- not check; `percent` is `round(100.0 * part / total, 2)`.
pub mod Steps
use Prim.Native.String
use hermes_plugin_dynamic_wo.Prelude.{
  ℕ, suc, ◌+◌, String, Bool, true, false, Option, none, some, List, [], ◌∷◌, ◌++◌, ◌==◌, length,
  nat_eq, if◌then◌else◌,
}
use hermes_plugin_dynamic_wo.Python.Float.{Float, zero_float}
use hermes_plugin_dynamic_wo.Python.Value.{Fields}

pub record StepStatus : Type 0 where
  pub step_id : String
  pub kind : String
  pub status : String
  pub agent : Option String
  pub started_at : Option String
  pub ended_at : Option String
  pub output : Option Fields
  pub error : Option Fields
  pub workflow_id : Option String
  pub workflow_node_id : Option String
  pub workflow_phase_id : Option String
  pub workflow_phase_title : Option String
  pub workflow_task_title : Option String

pub record Progress : Type 0 where
  pub total : ℕ
  pub completed : ℕ
  pub failed : ℕ
  pub running : ℕ
  pub queued : ℕ
  pub cancelled : ℕ
  pub pct : Float

pub record RunRecord : Type 0 where
  pub run_id : String
  pub def_hash : String
  pub status : String
  pub created_at : String
  pub updated_at : String
  pub steps : List StepStatus
  pub result : Option Fields
  pub error : Option Fields

pub record RunStatus : Type 0 where
  pub run_id : String
  pub status : String
  pub created_at : String
  pub updated_at : String
  pub progress : Progress
  pub steps : List StepStatus
  pub result : Option Fields
  pub error : Option Fields

-- sum(1 for s in steps if s.status == status)
unfoldable pub count : String → List StepStatus → ℕ
count status [] = 0
count status (s ∷ ss) = let rest = count status ss in if s.status == status then suc rest else rest

-- `_progress`
unfoldable pub progress_of : (ℕ → ℕ → Float) → List StepStatus → Progress
unfolding count
progress_of percent steps =
    let total = length steps in
    let completed = count "succeeded" steps in
    let failed = count "failed" steps in
    let cancelled = count "cancelled" steps in
    record {
      total = total;
      completed = completed;
      failed = failed;
      running = count "running" steps;
      queued = count "queued" steps;
      cancelled = cancelled;
      pct = if nat_eq total 0 then zero_float else percent (completed + failed + cancelled) total;
    }

-- `to_status`
unfoldable pub to_status : (ℕ → ℕ → Float) → Bool → RunRecord → RunStatus
unfolding progress_of
to_status percent include_steps r = record {
  run_id = r.run_id;
  status = r.status;
  created_at = r.created_at;
  updated_at = r.updated_at;
  progress = progress_of percent r.steps;
  steps = if include_steps then r.steps else [];
  result = r.result;
  error = r.error;
}

-- `x if x is not None else y`
abbrev over : Option Fields → Option Fields → Option Fields
over none old = old
over (some d) old = some d

-- `_apply_status`
unfoldable pub apply_status :
    String → String → Option Fields → Option Fields → RunRecord → RunRecord
apply_status now status result error r = record r {
  status = status;
  result = over result r.result;
  error = over error r.error;
  updated_at = now;
}

-- The steps after `_upsert_step`: the first of the id is replaced, or the step is added.
unfoldable pub put_step : StepStatus → List StepStatus → List StepStatus
put_step step [] = step ∷ []
put_step step (s ∷ ss) =
    let rest = put_step step ss in if s.step_id == step.step_id then step ∷ ss else s ∷ rest

-- `_upsert_step`
unfoldable pub upsert_step : String → StepStatus → RunRecord → RunRecord
unfolding put_step
upsert_step now step r = record r { steps = put_step step r.steps; updated_at = now }
