-- ===== src/Runs/Memory/Updates.antt =====
-- What an operation of the store changes, and when it raises.
use hermes_plugin_dynamic_wo.Prelude.{
  String, ◌≡◌, refl, Option, none, some, ◌==◌, Option-cases, ◌⊎◌, inl, inr, if◌then◌else◌,
}
use hermes_plugin_dynamic_wo.Prelude.Dict.{get, put, get-put}
use hermes_plugin_dynamic_wo.Prelude.Except.{Except, ok, err}
use hermes_plugin_dynamic_wo.Python.Value.{Fields}
use hermes_plugin_dynamic_wo.Runs.Records.{RunRecord, StepStatus, apply_status, upsert_step}
use hermes_plugin_dynamic_wo.Runs.Records.Steps.{step_of, step_of-put_step}
use hermes_plugin_dynamic_wo.Runs.Memory.{
  Problem, RunStore, run_not_found, change, set_status, update_step,
}

-- A change of one run: its record is another, or there was none and nothing is done.
abbrev pub Changed :
    String → (RunRecord → RunRecord) → String → RunStore → Except Problem RunStore → Type 0
Changed run_id f j s o =
    ((get run_id s ≡ none) × (o ≡ err run_not_found))
    ⊎ ((r : RunRecord) × (s' : RunStore) × (get run_id s ≡ some r)
        × (o ≡ ok s')
        × (get j s' ≡ (if run_id == j then some (f r) else get j s)))

change-Changed :
    (run_id : String) (f : RunRecord → RunRecord) (j : String) (s : RunStore)
    → Changed run_id f j s (change run_id f (get run_id s) s)
change-Changed run_id f j s = elim (Option-cases (get run_id s)) [
  | inl e ↦ inl (e, rw e refl)
  | inr (r, e) ↦ inr (r, put run_id (f r) s, e, rw e refl, get-put run_id j (f r) s)
]

-- `set_status` raises RunNotFound where the run is absent, and else changes the record of that run
-- alone: its status, its time, and its result and error where they are given.
pub set_status-Changed :
    (run_id now status : String) (result error : Option Fields) (j : String) (s : RunStore)
    → Changed run_id
        (apply_status now status result error)
        j
        s
        (set_status run_id now status result error s)
unfolding set_status
set_status-Changed run_id now status result error j s = change-Changed run_id _ j s

-- `update_step` raises RunNotFound where the run is absent. Else the store takes it, and every run is
-- found as before but the one that is updated; there the step is found by its id, and the steps of
-- other ids are as before.
pub update_step-step_of :
    (run_id now : String) (step : StepStatus) (j ident : String) (s : RunStore)
    → ((get run_id s ≡ none) × (update_step run_id now step s ≡ err run_not_found))
      ⊎ ((r r' : RunRecord) × (s' : RunStore) × (get run_id s ≡ some r)
          × (update_step run_id now step s ≡ ok s')
          × (get j s' ≡ (if run_id == j then some r' else get j s))
          × (step_of ident r'.steps
              ≡ (if step.step_id == ident then some step else step_of ident r.steps)))
unfolding update_step upsert_step
update_step-step_of run_id now step j ident s =
    elim (change-Changed run_id (upsert_step now step) j s) [
      | inl h ↦ inl h
      | inr (r, s', e, k, found) ↦
          inr (r, upsert_step now step r, s', e, k, found, step_of-put_step step r.steps ident)
    ]
