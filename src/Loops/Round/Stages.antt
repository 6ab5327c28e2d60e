-- ===== src/Loops/Round/Stages.antt =====
-- The stages of a round up to the actuator, each with how it may end, the last one first.
use hermes_plugin_dynamic_wo.Prelude.{
  ℕ, suc, ◌≤◌, ◌≡◌, refl, ap, true, ◌&&◌, some, [], ◌∷◌, ◌++◌, length, last?, last?-snoc, arith,
  leb, ltb, Bool-cases, inl, inr,
}
use hermes_plugin_dynamic_wo.Python.Float.{Float}
use hermes_plugin_dynamic_wo.Grants.Records.{Platform}
use hermes_plugin_dynamic_wo.Loops.Records.{
  Except, ok, err, LoopSensorResult, SensorError, sensing, verifying, halted_stalled, said, stalled,
  signal,
}
use hermes_plugin_dynamic_wo.Loops.World.{World, Setup, Run, record_event, context_of}
use hermes_plugin_dynamic_wo.Loops.World.Kept.{record_event-Kept}
use hermes_plugin_dynamic_wo.Loops.Sensor.Kept.{read_sensor-Kept}
use hermes_plugin_dynamic_wo.Loops.Round.{
  Loop, finished, stop, check_actuator, check_stalled, count_signal, converge, judge_sensed,
  note_sensed, after_sensor, start_sensing, round, is_last_signal,
}
use hermes_plugin_dynamic_wo.Loops.Round.Outcome.{
  IsWithin, IsInside, IsBetween, Outcome, IsInside-Kept, stop-Outcome, in_time-Outcome, if-Outcome,
  IsWithin-state, IsWithin-event,
}
use hermes_plugin_dynamic_wo.Loops.Round.Acting.{enter-IsInside, actuator-Outcome}

module _ {S : Type 0} (p : Platform) (w : World S) (setup : Setup) (started : Float) where
  stalled-Outcome :
      (n : ℕ) (sensed : LoopSensorResult) (g : Loop S)
      → IsInside p setup n n g.run.status
      → g.action_count ≡ n
      → Outcome p w setup started n (check_stalled p w setup started sensed g)
  stalled-Outcome n sensed g h c =
      if-Outcome p w setup started n
        (ltb 1 g.run.status.iterations && leb setup.brakes.max_repeated_signal g.repeated)
        (stop p w setup started halted_stalled (stalled sensed.signal_key g.repeated) g.run)
        (check_actuator p w setup started w.actuator sensed g)
        (λ e. stop-Outcome p w setup started n _ _ g.run refl h.within)
        (λ e. actuator-Outcome p w setup started n w.actuator sensed g h c)

  count-Outcome :
      (n : ℕ) (sensed : LoopSensorResult) (g : Loop S)
      → IsInside p setup n n g.run.status
      → g.action_count ≡ n
      → Outcome p w setup started n
          (check_stalled p w setup started sensed (count_signal p w setup started sensed g))
  count-Outcome n sensed g h c =
      elim (Bool-cases (is_last_signal p w setup started sensed.signal_key g.last_signal)) [
        | inl e ↦ rw e (stalled-Outcome n sensed (record g { repeated = suc g.repeated }) h c)
        | inr e ↦ rw e (
            stalled-Outcome n sensed
              (record g { last_signal = some sensed.signal_key; repeated = 1 }) h c)
      ]

  -- A sensor result that says so, and stands last, ends the run.
  converge-Outcome :
      (n : ℕ) (sensed : LoopSensorResult) (r : Run S)
      → IsWithin p setup r.status
      → last? r.status.sensor_results ≡ some sensed
      → sensed.is_converged ≡ true
      → Outcome p w setup started n (finished (converge p w setup started sensed r))
  unfolding record_event
  converge-Outcome n sensed r h last is_so = (
    IsWithin-event p w setup started _ _ _ _ _ _
        (IsWithin-state p w setup started r.status _ _ _ h),
    inl (refl, (sensed, last, is_so)),
  )

  judge-Outcome :
      (n : ℕ) (sensed : LoopSensorResult) (g : Loop S) (r : Run S)
      → IsInside p setup n n r.status
      → g.action_count ≡ n
      → last? r.status.sensor_results ≡ some sensed
      → Outcome p w setup started n (judge_sensed p w setup started sensed g r)
  judge-Outcome n sensed g r h c last =
      if-Outcome p w setup started n sensed.is_converged
        (finished (converge p w setup started sensed r))
        (check_stalled p w setup started sensed
          (count_signal p w setup started sensed (record g { run = r })))
        (converge-Outcome n sensed r h.within last)
        (λ e. count-Outcome n sensed (record g { run = r }) h c)

  -- A sensor result more is recorded, and stands last.
  note_sensed-IsInside :
      (n m : ℕ) (sensed : LoopSensorResult) (r : Run S)
      → IsInside p setup n m r.status
      → IsInside p setup n m (note_sensed p w setup started sensed r).status
  unfolding record_event
  note_sensed-IsInside n m sensed r h =
      let noted : Run S = record r {
        status = record r.status { sensor_results = r.status.sensor_results ++ sensed ∷ [] };
      } in
      let k =
        record_event-Kept p w setup "sensor_result" verifying r.status.iterations
          (said sensed.summary) (signal sensed.signal_key sensed.is_converged) noted in
      record {
        within = record {
          good = k.good (record { numbered = h.within.good.numbered; live = h.within.good.live });
          iterations = h.within.iterations;
          actions = h.within.actions;
          finalized = h.within.finalized;
        };
        begun = h.begun;
        acted = h.acted;
      }

  sensor-Outcome :
      (n : ℕ) (g : Loop S) (o : Except SensorError LoopSensorResult) (r : Run S)
      → IsInside p setup n n r.status
      → g.action_count ≡ n
      → Outcome p w setup started n (after_sensor p w setup started g (o, r))
  unfolding record_event
  sensor-Outcome n g (err e) r h c = stop-Outcome p w setup started n _ _ r refl h.within
  sensor-Outcome n g (ok sensed) r h c =
      let inside = note_sensed-IsInside n n sensed r h in
      in_time-Outcome p w setup started n _ _ _ inside.within
        (λ s. judge-Outcome n sensed g _ inside c (last?-snoc r.status.sensor_results sensed))

  start-IsInside :
      (n : ℕ) (r : Run S)
      → IsWithin p setup r.status
      → r.status.iterations ≡ n
      → length r.status.actuator_results ≡ n
      → IsInside p setup n n (start_sensing p w setup started r).status
  start-IsInside n r h begun acted =
      let le : suc r.status.iterations ≤ suc setup.brakes.max_steps =
        omega (arith, h.actions, begun, acted) in
      enter-IsInside p w setup started n n sensing "sensing" "sensor started"
        (record r { status = record r.status { iterations = suc r.status.iterations } })
        (record {
          within = record {
            good = record { numbered = h.good.numbered; live = h.good.live };
            iterations = le;
            actions = h.actions;
            finalized = h.finalized;
          };
          begun = ap suc begun;
          acted = acted;
        })

  -- A round that is begun between two rounds ends the run in a terminal state, within its bounds, or
  -- leaves it between two rounds with one action more.
  pub round-Outcome :
      (g : Loop S)
      → IsBetween p w setup started g
      → Outcome p w setup started g.action_count (round p w setup started g)
  unfolding round context_of
  round-Outcome g h = in_time-Outcome p w setup started g.action_count _ _ g.run h.within (λ s.
      sensor-Outcome g.action_count g _ _
        (IsInside-Kept p w setup started g.action_count g.action_count
          (read_sensor-Kept p w setup setup.brakes.max_sensor_retries 0 _ _)
          (start-IsInside g.action_count (record g.run { outside = s }) h.within h.begun h.acted))
        refl)
