-- ===== src/Loops/Run/Done.antt =====
-- The statuses that `loop_run` returns.
use mathlib.Core.Path.{subst}
use hermes_plugin_dynamic_wo.Prelude.{
  suc, ◌≤◌, String, ◌≡◌, refl, true, false, Option, some, List, [], ◌∷◌, length, last?, All, arith,
  Option-cases, inl, inr,
}
use hermes_plugin_dynamic_wo.Prelude.Except.{>>=-eq-ok}
use hermes_plugin_dynamic_wo.Python.Value.{Fields}
use hermes_plugin_dynamic_wo.Grants.Records.{Platform}
use hermes_plugin_dynamic_wo.Resources.Keys.{has_required_failure}
use hermes_plugin_dynamic_wo.Loops.Records.{
  Except, ok, err, LoopSensorResult, LoopRunStatus, converged,
}
use hermes_plugin_dynamic_wo.Loops.Spec.{Brakes, LoopError, Pointer, loop_validate}
use hermes_plugin_dynamic_wo.Loops.Spec.Read.{brakes_of}
use hermes_plugin_dynamic_wo.Loops.World.{World, Setup, Run, report_of}
use hermes_plugin_dynamic_wo.Loops.World.Kept.{IsLive, Numbered}
use hermes_plugin_dynamic_wo.Loops.Round.Outcome.{Terminal}
use hermes_plugin_dynamic_wo.Loops.Ownership.Closed.{IsDone, Closed, closeout-Closed}
use hermes_plugin_dynamic_wo.Loops.Run.{
  Ended, ended, raised, out_of_fuel, finish, finished_with, after_rounds, first_run, run_validated,
  setup_of, run_checked, choose_id, loop_run, risk_of,
}
use hermes_plugin_dynamic_wo.Loops.Run.Enough.{Ends, at_end, at_raise, rounds_enough}

module _ {S : Type 0} (p : Platform) (mask : String → String) (w : World S) where
  -- What is returned is done, and its report is of it.
  abbrev Returned : Setup → Except LoopError (LoopRunStatus × S) → Type 0
  Returned setup (err e) = Unit
  Returned setup (ok (status, s)) =
      IsDone p setup status × ((risk : String) × (status.report ≡ some (report_of status risk)))

  finish-Returned :
      (setup : Setup) (risk : String) (r : Run S)
      → IsDone p setup r.status
      → Returned setup (ok (finish p mask w setup risk r))
  unfolding finish report_of
  finish-Returned setup risk r h = (
    record {
      good = record { numbered = h.good.numbered; live = h.good.live };
      iterations = h.iterations;
      actions = h.actions;
      terminal = h.terminal;
      cleaned = h.cleaned;
    },
    (_, refl),
  )

  finished-Returned :
      (setup : Setup) (risk : String) (o : Except LoopError (Run S))
      → Closed p w setup o
      → Returned setup (finished_with p mask w setup risk o)
  finished-Returned setup risk (err e) h = tt
  finished-Returned setup risk (ok r) h = finish-Returned setup risk r h

  rounds-Returned :
      (setup : Setup) (o : Ended S)
      → Ends p setup o
      → Returned setup (after_rounds p mask w setup o)
  rounds-Returned setup (ended r) (at_end within terminal) =
      finished-Returned setup (risk_of p mask w setup r.status) _
        (closeout-Closed p w setup mask r within terminal)
  rounds-Returned setup raised at_raise = tt
  rounds-Returned setup out_of_fuel h = elim h [ ]

  validated-Returned :
      (setup : Setup) (run_id now : String) (s : S)
      → Returned setup (run_validated p mask w setup run_id now s)
  unfolding run_validated
  validated-Returned setup run_id now s =
      let (started, run) = first_run p mask w setup run_id now s in
      rounds-Returned setup _
        (rounds_enough p mask w setup started run_id now s (suc setup.brakes.max_steps)
          (omega arith)).0

  -- What `loop_run` returns, where it does.
  run-Returned :
      (spec inputs : Fields) (def_hash : String) (run_id : Option String) (made : String) (s s' : S)
      (status : LoopRunStatus)
      → loop_run p mask w spec inputs def_hash run_id made s ≡ ok (status, s')
      → (b : Brakes) × (brakes_of p spec ≡ some b)
        × Returned (setup_of spec inputs def_hash b) (ok (status, s'))
  unfolding loop_run
  run-Returned spec inputs def_hash run_id made s s' status h =
      let (diagnostics, _, k) = >>=-eq-ok (loop_validate p spec) _ h in checked diagnostics k
    where
      checked :
          (ds : List Pointer)
          → run_checked p mask w ds spec inputs def_hash (choose_id run_id made) s ≡ ok (status, s')
          → (b : Brakes) × (brakes_of p spec ≡ some b)
            × Returned (setup_of spec inputs def_hash b) (ok (status, s'))
      checked (d ∷ ds) k = cc
      checked [] k = elim (Option-cases (brakes_of p spec)) [
        | inl e ↦ let bad = rw e at k in cc
        | inr (b, e) ↦
            let same = rw e at k in
            (
              b,
              e,
              subst (Returned (setup_of spec inputs def_hash b)) same
                  (validated-Returned (setup_of spec inputs def_hash b) _ _ _),
            )
      ]

module _ {S : Type 0} (p : Platform) (mask : String → String) (w : World S) (spec inputs : Fields)
    (def_hash : String) (run_id : Option String) (made : String) (s s' : S) (status : LoopRunStatus)
    (h : loop_run p mask w spec inputs def_hash run_id made s ≡ ok (status, s')) where
  -- Where `loop_run` returns, whatever the sensor, the actuator, the broker, the runner and the clock
  -- do: its spec had brakes, and at most `max_steps` actions are recorded, in at most one round more.
  pub loop_run_bounds :
      (b : Brakes) × (brakes_of p spec ≡ some b)
      × (status.iterations ≤ suc b.max_steps)
      × (length status.actuator_results ≤ b.max_steps)
  loop_run_bounds =
      let (b, e, (done, _)) =
        run-Returned p mask w spec inputs def_hash run_id made s s' status h in
      (b, e, done.iterations, done.actions)

  -- Where `loop_run` returns a converged run, the last sensor result says that it converged, and no
  -- finalizer that was required has failed: an actuator cannot converge the run.
  pub loop_run_converged :
      status.state ≡ converged
      → ((r : LoopSensorResult) × (last? status.sensor_results ≡ some r) × (r.is_converged ≡ true))
        × (has_required_failure status.finalizer_results ≡ false)
  loop_run_converged c =
      let (b, e, (done, _)) =
        run-Returned p mask w spec inputs def_hash run_id made s s' status h in
      (sensed done.terminal, done.cleaned c)
    where
      sensed :
          Terminal status
          → (r : LoopSensorResult) × (last? status.sensor_results ≡ some r)
            × (r.is_converged ≡ true)
      sensed (inl (_, r)) = r
      sensed (inr (inl k)) = let bad = rw c at k in cc
      sensed (inr (inr (k, _))) = let bad = rw c at k in cc

  -- Where `loop_run` returns, the run has converged, or waits for an event or an approval, or was
  -- halted for a reason that the status names; and its report is the report of the returned status.
  pub loop_run-Terminal :
      Terminal status × ((risk : String) × (status.report ≡ some (report_of status risk)))
  loop_run-Terminal =
      let (b, e, (done, report)) =
        run-Returned p mask w spec inputs def_hash run_id made s s' status h in
      (done.terminal, report)

  -- Where `loop_run` returns, the events have the numbers 0, 1, ... in their order, and the run's id.
  pub loop_run-Numbered : Numbered status.run_id 0 status.events
  loop_run-Numbered =
      let (b, e, (done, _)) =
        run-Returned p mask w spec inputs def_hash run_id made s s' status h in
      done.good.numbered

  -- Where `loop_run` returns, every grant that it recorded, whatever the broker and the actuator
  -- hand over, is the dict of a grant that is granted, for a finite time that is not empty.
  pub loop_run-IsLive : All (IsLive p) status.grants
  loop_run-IsLive =
      let (b, e, (done, _)) =
        run-Returned p mask w spec inputs def_hash run_id made s s' status h in
      done.good.live
