-- ===== src/Loops/Ownership/Closed.antt =====
-- What `_closeout_resources` of loops.py leaves of a run that has ended.
use hermes_plugin_dynamic_wo.Prelude.{
  suc, ◌≤◌, String, ◌≡◌, refl, false, Option, none, some, List, [], ◌∷◌, ◌++◌, length, Bool-cases,
  inl, inr,
}
use hermes_plugin_dynamic_wo.Python.Value.{Fields}
use hermes_plugin_dynamic_wo.Grants.Records.{Platform}
use hermes_plugin_dynamic_wo.Resources.Records.{
  WorkflowResource, FinalizerResult, Result, result_to_dict,
}
use hermes_plugin_dynamic_wo.Resources.Keys.{has_required_failure}
use hermes_plugin_dynamic_wo.Loops.Records.{
  Except, ok, err, LoopRunStatus, converged, halted_finalizer_error, said, result, prior,
}
use hermes_plugin_dynamic_wo.Loops.Spec.{LoopError}
use hermes_plugin_dynamic_wo.Loops.World.{World, Setup, Run, record_event}
use hermes_plugin_dynamic_wo.Loops.World.Kept.{IsGood, record_event-Kept}
use hermes_plugin_dynamic_wo.Loops.Round.Outcome.{Terminal, IsWithin}
use hermes_plugin_dynamic_wo.Loops.Ownership.{
  note_result, note_results, check_required, close_with, finalize, close_on, closeout_resources,
}

-- A run that is over: its bounds, its state, and no required cleanup that failed where it converged.
pub record IsDone (p : Platform) (setup : Setup) (status : LoopRunStatus) : Type 0 where
  pub good : IsGood p status
  pub iterations : status.iterations ≤ suc setup.brakes.max_steps
  pub actions : length status.actuator_results ≤ setup.brakes.max_steps
  pub terminal : Terminal status
  pub cleaned : status.state ≡ converged → has_required_failure status.finalizer_results ≡ false

-- A run that is over, but for the check of its cleanup.
pub record IsEnding (p : Platform) (setup : Setup) (status : LoopRunStatus) : Type 0 where
  pub good : IsGood p status
  pub iterations : status.iterations ≤ suc setup.brakes.max_steps
  pub actions : length status.actuator_results ≤ setup.brakes.max_steps
  pub terminal : Terminal status

module _ {S : Type 0} (p : Platform) (w : World S) (setup : Setup) where
  note_result-IsEnding :
      (x : FinalizerResult) (r : Run S)
      → IsEnding p setup r.status
      → IsEnding p setup (note_result w setup x r).status
  unfolding record_event
  note_result-IsEnding x r h =
      let noted : Run S = record r {
        status = record r.status {
          finalizer_results = r.status.finalizer_results ++ result_to_dict x ∷ [];
        };
      } in
      let k =
        record_event-Kept p w setup "finalizer_result" r.status.state r.status.iterations
          (said x.summary) (result (result_to_dict x)) noted in
      record {
        good = k.good (record { numbered = h.good.numbered; live = h.good.live });
        iterations = h.iterations;
        actions = h.actions;
        terminal = h.terminal;
      }

  note_results-IsEnding :
      (xs : List FinalizerResult) (r : Run S)
      → IsEnding p setup r.status
      → IsEnding p setup (note_results w setup xs r).status
  unfolding note_results
  note_results-IsEnding [] r h = h
  note_results-IsEnding (x ∷ xs) r h = note_results-IsEnding xs _ (note_result-IsEnding x r h)

  check-IsDone :
      (r : Run S) → IsEnding p setup r.status → IsDone p setup (check_required w setup r).status
  unfolding record_event
  check-IsDone r h = elim (Bool-cases (has_required_failure r.status.finalizer_results)) [
    | inr e ↦ rw e (record {
      good = h.good;
      iterations = h.iterations;
      actions = h.actions;
      terminal = h.terminal;
      cleaned = λ _. e;
    })
    | inl e ↦
        let failed : Run S = record r {
          status = record r.status {
            state = halted_finalizer_error;
            halted_reason = some (said "required resource finalizer failed");
          };
        } in
        let k =
          record_event-Kept p w setup "halted" halted_finalizer_error r.status.iterations
            (said "required resource finalizer failed")
            (prior r.status.state r.status.halted_reason) failed in
        rw e (record {
          good = k.good (record { numbered = h.good.numbered; live = h.good.live });
          iterations = h.iterations;
          actions = h.actions;
          terminal = inr (inr (refl, (_, refl)));
          cleaned = λ c. cc;
        })
  ]

  abbrev pub Closed : Except LoopError (Run S) → Type 0
  Closed (err e) = Unit
  Closed (ok r) = IsDone p setup r.status

  module _ (mask : String → String) where
    -- Before the cleanup there are no results of it.
    idle-IsDone :
        (r : Run S) → IsWithin p setup r.status → Terminal r.status → IsDone p setup r.status
    unfolding has_required_failure
    idle-IsDone r h t = record {
      good = h.good;
      iterations = h.iterations;
      actions = h.actions;
      terminal = t;
      cleaned = λ _. rw h.finalized refl;
    }

    close_with-Closed :
        (o : Result (List FinalizerResult)) (r : Run S)
        → IsWithin p setup r.status
        → Terminal r.status
        → Closed (close_with w setup o r)
    close_with-Closed (err e) r h t = tt
    close_with-Closed (ok []) r h t = idle-IsDone r h t
    close_with-Closed (ok (x ∷ xs)) r h t = check-IsDone (note_results w setup (x ∷ xs) r) (
        note_results-IsEnding (x ∷ xs) r
          (record { good = h.good; iterations = h.iterations; actions = h.actions; terminal = t }))

    finalize-Closed :
        (trigger : String) (o : Result (List WorkflowResource)) (r : Run S)
        → IsWithin p setup r.status
        → Terminal r.status
        → Closed (finalize w setup p mask trigger o r)
    finalize-Closed trigger (err e) r h t = tt
    finalize-Closed trigger (ok rs) r h t = close_with-Closed _ _ h t

    close_on-Closed :
        (o : Option String) (ds : List Fields) (r : Run S)
        → IsWithin p setup r.status
        → Terminal r.status
        → Closed (close_on w setup p mask o ds r)
    close_on-Closed none ds r h t = idle-IsDone r h t
    close_on-Closed (some trigger) [] r h t = idle-IsDone r h t
    close_on-Closed (some trigger) (d ∷ ds) r h t = finalize-Closed trigger _ r h t

    -- Closing the resources of a run that has ended within its bounds raises, or leaves it done.
    pub closeout-Closed :
        (r : Run S)
        → IsWithin p setup r.status
        → Terminal r.status
        → Closed (closeout_resources w setup p mask r)
    unfolding closeout_resources
    closeout-Closed r h t = close_on-Closed _ _ r h t
