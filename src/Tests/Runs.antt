-- ===== src/Tests/Runs.antt =====
-- The theorems about registry.py at concrete inputs.
use hermes_plugin_dynamic_wo.Prelude.{
  String, ◌≡◌, ◌⊎◌, refl, true, false, none, some, [], ◌∷◌, ◌==◌, if◌then◌else◌,
}
use hermes_plugin_dynamic_wo.Prelude.Dict.{get}
use hermes_plugin_dynamic_wo.Prelude.Except.{ok, err}
use hermes_plugin_dynamic_wo.Runs.Records.{RunRecord, StepStatus}
use hermes_plugin_dynamic_wo.Runs.Records.Steps.{step_of}
use hermes_plugin_dynamic_wo.Runs.Memory.{
  RunStore, run_not_found, new_record, update_step, is_safe_id,
}
use hermes_plugin_dynamic_wo.Runs.Memory.Updates.{update_step-step_of}

abbrev step : String → String → StepStatus
step ident status = record {
  step_id = ident;
  kind = "agent";
  status = status;
  agent = none;
  started_at = none;
  ended_at = none;
  output = none;
  error = none;
  workflow_id = none;
  workflow_node_id = none;
  workflow_phase_id = none;
  workflow_phase_title = none;
  workflow_task_title = none;
}

abbrev store : RunStore
store = ("wf-1", new_record "wf-1" "hash" "t0") ∷ []

safe_ids : (is_safe_id "wf_1.a-b" ≡ true) × (is_safe_id "../x" ≡ false)
unfolding is_safe_id
safe_ids = (refl, refl)

update_step-step_of_example :
    ((get "wf-1" store ≡ none)
      × (update_step "wf-1" "t1" (step "a" "running") store ≡ err run_not_found))
    ⊎ ((r r' : RunRecord) × (s' : RunStore) × (get "wf-1" store ≡ some r)
        × (update_step "wf-1" "t1" (step "a" "running") store ≡ ok s')
        × (get "wf-1" s' ≡ (if "wf-1" == "wf-1" then some r' else get "wf-1" store))
        × (step_of "a" r'.steps
            ≡ (if "a" == "a" then some (step "a" "running") else step_of "a" r.steps)))
update_step-step_of_example = update_step-step_of "wf-1" "t1" (step "a" "running") "wf-1" "a" store
