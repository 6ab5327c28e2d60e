-- ===== src/Runs/Records/Steps.antt =====
-- The steps of a record.
use hermes_plugin_dynamic_wo.Prelude.{
  String, ◌≡◌, refl, Option, none, some, List, [], ◌∷◌, ◌==◌, ◌++◌, arith, eq_iff, member,
  if◌then◌else◌,
}
use hermes_plugin_dynamic_wo.Runs.Records.{StepStatus, put_step}

-- The step of an id, the first of several.
unfoldable pub step_of : String → List StepStatus → Option StepStatus
step_of ident [] = none
step_of ident (s ∷ ss) = if s.step_id == ident then some s else step_of ident ss

abbrev pub step_ids : List StepStatus → List String
step_ids [] = []
step_ids (s ∷ ss) = s.step_id ∷ step_ids ss

-- A step that is put is found by its id, and the steps of other ids are found as before.
pub step_of-put_step :
    (step : StepStatus) (ss : List StepStatus) (ident : String)
    → step_of ident (put_step step ss)
      ≡ (if step.step_id == ident then some step else step_of ident ss)
unfolding step_of put_step
step_of-put_step step [] ident = refl
step_of-put_step step (s ∷ ss) ident = ground (
  arith,
  eq_iff s.step_id step.step_id,
  eq_iff s.step_id ident,
  eq_iff step.step_id ident,
  step_of-put_step step ss ident,
)

step_ids-put_step :
    (step : StepStatus) (ss : List StepStatus)
    → step_ids (put_step step ss) ≡ (
        if member step.step_id (step_ids ss) then step_ids ss else step_ids ss ++ step.step_id ∷ [])
unfolding put_step
step_ids-put_step step [] = refl
step_ids-put_step step (s ∷ ss) =
    ground (arith, eq_iff s.step_id step.step_id, step_ids-put_step step ss)
