-- ===== src/Loops/Round/Acting.antt =====
-- The stages of a round from the actuator on, each with how it may end, the last one first.
use hermes_plugin_dynamic_wo.Prelude.{
  ℕ, suc, ◌≤◌, String, ◌≡◌, refl, ap, Option, none, some, List, [], ◌∷◌, ◌++◌, length,
  length-append, arith, leb, inl, inr,
}
use hermes_plugin_dynamic_wo.Python.Float.{Float}
use hermes_plugin_dynamic_wo.Python.Value.{Fields}
use hermes_plugin_dynamic_wo.Grants.Records.{Platform}
use hermes_plugin_dynamic_wo.Resources.Records.{WorkflowResource}
use hermes_plugin_dynamic_wo.Loops.Records.{
  Except, ok, err, LoopState, LoopSensorResult, ActuatorError, acting, verifying, halted_step_cap,
  halted_budget_cap, said, steps_exhausted, result, nothing_more,
}
use hermes_plugin_dynamic_wo.Loops.World.{
  World, Setup, Run, LoopContext, ActuatorAnswer, record_event, context_of,
}
use hermes_plugin_dynamic_wo.Loops.World.Kept.{Kept, Kept-refl, record_event-Kept}
use hermes_plugin_dynamic_wo.Loops.Action.{Action, Suspension}
use hermes_plugin_dynamic_wo.Loops.Ownership.Kept.{register-Kept}
use hermes_plugin_dynamic_wo.Loops.Authority.{Handled}
use hermes_plugin_dynamic_wo.Loops.Authority.Recorded.{Keeps, handle_grant-Keeps}
use hermes_plugin_dynamic_wo.Loops.Round.{
  Loop, finished, stop, in_time, enter, after_grant, check_grant, check_budget, note_action, own,
  after_action, act, check_steps, check_actuator, suspend_run, budget_reason, is_over_budget,
}
use hermes_plugin_dynamic_wo.Loops.Round.Outcome.{
  IsWithin, IsInside, Outcome, IsWithin-Kept, IsInside-Kept, stop-Outcome, in_time-Outcome,
  if-Outcome, IsWithin-state, IsWithin-event,
}
use hermes_plugin_dynamic_wo.Loops.Action.{redact_grant_envelopes, Waiting, for_event, for_approval}

module _ {S : Type 0} (p : Platform) (w : World S) (setup : Setup) (started : Float) where
  waiting-Outcome :
      (n : ℕ) (kind : Waiting) (asked action : Fields) (r : Run S)
      → IsWithin p setup r.status
      → Outcome p w setup started n (finished (suspend_run p w setup started kind asked action r))
  unfolding record_event
  waiting-Outcome n for_event asked action r h = (
    IsWithin-event p w setup started _ _ _ _ _ _
        (IsWithin-state p w setup started r.status _ _ _ h),
    inr (inl refl),
  )
  waiting-Outcome n for_approval asked action r h = (
    IsWithin-event p w setup started _ _ _ _ _ _
        (IsWithin-state p w setup started r.status _ _ _ h),
    inr (inl refl),
  )

  grant-Outcome :
      (n : ℕ) (action : Action) (g : Loop S) (o : Handled p w setup)
      → IsInside p setup n (suc n) g.run.status
      → g.action_count ≡ suc n
      → Keeps p w setup g.run o
      → Outcome p w setup started n (after_grant p w setup started action g o)
  grant-Outcome n action g (err e) h c k = tt
  grant-Outcome n action g (ok (some reason, r)) h c k =
      stop-Outcome p w setup started n _ _ r refl (IsWithin-Kept p w setup started k h.within)
  grant-Outcome n action g (ok (none, r)) h c k = suspended action.suspension refl
    where
      inside : IsInside p setup n (suc n) r.status
      inside = IsInside-Kept p w setup started n (suc n) k h

      suspended :
          (x : Suspension)
          → action.suspension ≡ x
          → Outcome p w setup started n (after_grant p w setup started action g (ok (none, r)))
      suspended none e = rw e (
        record { within = inside.within; begun = rw c inside.begun; acted = rw c inside.acted },
        c,
      )
      suspended (some (kind, asked)) e =
          rw e (waiting-Outcome n kind asked action.body r inside.within)

  budget-Outcome :
      (n : ℕ) (action : Action) (g : Loop S)
      → IsInside p setup n (suc n) g.run.status
      → g.action_count ≡ suc n
      → Outcome p w setup started n (check_budget p w setup started action g)
  budget-Outcome n action g h c =
      if-Outcome p w setup started n
        (is_over_budget p w setup started setup.brakes.max_cost g.total_cost)
        (stop p w setup started halted_budget_cap
          (budget_reason p w setup started setup.brakes.max_cost g.total_cost) g.run)
        (check_grant p w setup started action g)
        (λ e. stop-Outcome p w setup started n _ _ g.run refl h.within)
        (λ e. grant-Outcome n action g _ h c (
          handle_grant-Keeps p w setup action.suspension action.body g.run.status.iterations g.run))

  own-Kept : (rs : List WorkflowResource) (r : Run S) → Kept p r (own p w setup started rs r)
  own-Kept [] r = Kept-refl p r r.outside
  own-Kept (x ∷ xs) r = register-Kept p w setup r.status.iterations (x ∷ xs) r

  -- An action more is recorded, where the cap allows it.
  note_action-IsInside :
      (n : ℕ) (action : Action) (r : Run S)
      → suc n ≤ setup.brakes.max_steps
      → IsInside p setup n n r.status
      → IsInside p setup n (suc n) (note_action p w setup started action r).status
  unfolding record_event
  note_action-IsInside n action r le h =
      let recorded = redact_grant_envelopes p action.body in
      let noted : Run S = record r {
        status = record r.status { actuator_results = r.status.actuator_results ++ recorded ∷ [] };
      } in
      let k =
        record_event-Kept p w setup "actuator_result" verifying r.status.iterations
          (said "actuator completed") (result recorded) noted in
      let acted : length noted.status.actuator_results ≡ suc n =
        omega (arith, length-append r.status.actuator_results (recorded ∷ []), h.acted) in
      record {
        within = record {
          good = k.good (record { numbered = h.within.good.numbered; live = h.within.good.live });
          iterations = h.within.iterations;
          actions = rw acted le;
          finalized = h.within.finalized;
        };
        begun = h.begun;
        acted = acted;
      }

  after_action-Outcome :
      (n : ℕ) (o : Except ActuatorError Action) (g : Loop S)
      → suc n ≤ setup.brakes.max_steps
      → IsInside p setup n n g.run.status
      → g.action_count ≡ n
      → Outcome p w setup started n (after_action p w setup started o g)
  after_action-Outcome n (err e) g le h c = stop-Outcome p w setup started n _ _ g.run refl h.within
  after_action-Outcome n (ok action) g le h c =
      let inside =
        IsInside-Kept p w setup started n (suc n) (own-Kept action.declared _)
          (note_action-IsInside n action g.run le h) in
      in_time-Outcome p w setup started n _ _ _ inside.within
        (λ s. budget-Outcome n action _ inside (ap suc c))

  -- From a status that is inside the round on, the changes before the actuator.
  pub enter-IsInside :
      (n m : ℕ) (state : LoopState) (kind summary : String) (r : Run S)
      → IsInside p setup n m r.status
      → IsInside p setup n m (enter p w setup started state kind summary r).status
  enter-IsInside n m state kind summary r h =
      IsInside-Kept p w setup started n m
        (record_event-Kept p w setup kind state r.status.iterations (said summary) nothing_more
          (record r { status = record r.status { state = state } }))
        (record {
          within =
              IsWithin-state p w setup started r.status state r.status.halted_reason r.status.report
                h.within;
          begun = h.begun;
          acted = h.acted;
        })

  module _ (actuator : LoopContext → S → ActuatorAnswer × S) (sensed : LoopSensorResult) where
    act-Outcome :
        (n : ℕ) (g : Loop S) (r : Run S)
        → suc n ≤ setup.brakes.max_steps
        → IsInside p setup n n r.status
        → g.action_count ≡ n
        → Outcome p w setup started n (act p w setup started actuator sensed g r)
    unfolding context_of
    act-Outcome n g r le h c =
        after_action-Outcome n _ _ le (enter-IsInside n n acting "acting" "actuator started" r h) c

    steps-Outcome :
        (n : ℕ) (g : Loop S)
        → IsInside p setup n n g.run.status
        → g.action_count ≡ n
        → Outcome p w setup started n (check_steps p w setup started actuator sensed g)
    steps-Outcome n g h c =
        if-Outcome p w setup started n (leb setup.brakes.max_steps g.action_count)
          (stop p w setup started halted_step_cap (steps_exhausted setup.brakes.max_steps) g.run)
          (in_time p w setup started "max_wall_seconds exceeded before acting"
            (act p w setup started actuator sensed g) g.run)
          (λ e. stop-Outcome p w setup started n _ _ g.run refl h.within)
          (λ e.
            let le : suc n ≤ setup.brakes.max_steps = ground (arith, e, c) in
            in_time-Outcome p w setup started n _ _ g.run h.within (λ s. act-Outcome n g _ le h c))

  pub actuator-Outcome :
      (n : ℕ) (o : Option (LoopContext → S → ActuatorAnswer × S)) (sensed : LoopSensorResult)
      (g : Loop S)
      → IsInside p setup n n g.run.status
      → g.action_count ≡ n
      → Outcome p w setup started n (check_actuator p w setup started o sensed g)
  actuator-Outcome n none sensed g h c = stop-Outcome p w setup started n _ _ g.run refl h.within
  actuator-Outcome n (some actuator) sensed g h c = steps-Outcome actuator sensed n g h c
