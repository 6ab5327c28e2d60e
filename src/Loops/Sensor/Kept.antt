-- ===== src/Loops/Sensor/Kept.antt =====
-- What reading the sensor of loops.py, with its retries, leaves alone.
use hermes_plugin_dynamic_wo.Prelude.{ℕ, zero, suc, Bool-cases, inl, inr}
use hermes_plugin_dynamic_wo.Grants.Records.{Platform}
use hermes_plugin_dynamic_wo.Loops.Records.{Except, ok, err, LoopSensorResult, SensorError}
use hermes_plugin_dynamic_wo.Loops.World.{World, Setup, Run, LoopContext}
use hermes_plugin_dynamic_wo.Loops.World.Kept.{Kept, Kept-refl, Kept-trans, record_event-Kept}
use hermes_plugin_dynamic_wo.Loops.Sensor.{read_sensor, note_retry, is_noise, call_sensor}

module _ {S : Type 0} (p : Platform) (w : World S) (setup : Setup) where
  pub read_sensor-Kept :
      (left attempts : ℕ) (c : LoopContext) (r : Run S)
      → Kept p r (read_sensor p w setup left attempts c r).1
  unfolding read_sensor
  read_sensor-Kept zero attempts c r = Kept-refl p r (call_sensor p w setup c r).1.outside
  read_sensor-Kept (suc left) attempts c r =
      let called = call_sensor p w setup c r in
      elim (Bool-cases (is_noise p w setup called.0)) [
        | inr e ↦ rw (read_sensor, e) (Kept-refl p r called.1.outside)
        | inl e ↦
            rw (read_sensor, e)
              (Kept-trans p (Kept-refl p r called.1.outside) (
                Kept-trans p (note-Kept called.0 called.1) (
                  read_sensor-Kept left (suc attempts) c
                    (note_retry p w setup (suc attempts) c called.0 called.1))))
      ]
    where
      note-Kept :
          (o : Except SensorError LoopSensorResult) (r' : Run S)
          → Kept p r' (note_retry p w setup (suc attempts) c o r')
      note-Kept (err e) r' = Kept-refl p r' r'.outside
      note-Kept (ok x) r' = record_event-Kept p w setup _ _ _ _ _ r'
