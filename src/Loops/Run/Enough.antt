-- ===== src/Loops/Run/Enough.antt =====
-- The fuel of the `while` of `loop_run`.
use hermes_plugin_dynamic_wo.Prelude.{ℕ, zero, suc, ◌+◌, ◌-◌, ◌≤◌, String, ◌≡◌, refl, ◌∙◌, arith}
use hermes_plugin_dynamic_wo.Python.Float.{Float}
use hermes_plugin_dynamic_wo.Grants.Records.{Platform}
use hermes_plugin_dynamic_wo.Loops.World.{World, Setup, Run, record_event}
use hermes_plugin_dynamic_wo.Loops.Records.{planned, said, nothing_more}
use hermes_plugin_dynamic_wo.Loops.World.Kept.{record_event-Kept}
use hermes_plugin_dynamic_wo.Loops.Round.{Loop, Round, finished, again, crashed}
use hermes_plugin_dynamic_wo.Loops.Round.Outcome.{Terminal, IsWithin, IsBetween, Outcome}
use hermes_plugin_dynamic_wo.Loops.Round.Stages.{round-Outcome}
use hermes_plugin_dynamic_wo.Loops.Run.{
  Ended, ended, raised, new_status, go_on, rounds, first_loop, first_run,
}

-- The loop ended, with a run within its bounds in a terminal state or with an exception; not for want
-- of fuel.
pub data Ends (p : Platform) (setup : Setup) {S : Type 0} : Ended S → Type 0 where
  at_end : {r : Run S} → IsWithin p setup r.status → Terminal r.status → Ends p setup (ended r)
  at_raise : Ends p setup raised

module _ {S : Type 0} (p : Platform) (mask : String → String) (w : World S) (setup : Setup)
    (started : Float) where
  go_on-Ends :
      (g : Loop S) (next : Loop S → Ended S) (o : Round S)
      → Outcome p w setup started g.action_count o
      → ((g' : Loop S)
          → IsBetween p w setup started g'
          → g'.action_count ≡ suc g.action_count
          → Ends p setup (next g'))
      → Ends p setup (go_on p mask w setup next o)
  go_on-Ends g next (finished run) (within, terminal) k = at_end within terminal
  go_on-Ends g next crashed _ k = at_raise
  go_on-Ends g next (again g') (between, more) k = k g' between more

  rounds-Ends :
      (fuel : ℕ) (g : Loop S)
      → IsBetween p w setup started g
      → suc setup.brakes.max_steps ≤ fuel + g.action_count
      → Ends p setup (rounds p mask w setup started fuel g)
  unfolding rounds
  rounds-Ends zero g h le =
      let acted = h.acted in let most = h.within.actions in absurd (omega arith)
  rounds-Ends (suc fuel) g h le =
      go_on-Ends g _ _ (round-Outcome p w setup started g h)
        (λ g' between more. rounds-Ends fuel g' between (omega arith))

  -- More fuel changes nothing where the loop ended.
  rounds-suc :
      (fuel : ℕ) (g : Loop S)
      → Ends p setup (rounds p mask w setup started fuel g)
      → rounds p mask w setup started (suc fuel) g ≡ rounds p mask w setup started fuel g
  unfolding rounds
  rounds-suc zero g h = elim h [ ]
  rounds-suc (suc fuel) g h = go_on_suc _ h (λ g'. rounds-suc fuel g')
    where
      go_on_suc :
          (o : Round S)
          → Ends p setup (go_on p mask w setup (λ g'. rounds p mask w setup started fuel g') o)
          → ((g' : Loop S)
              → Ends p setup (rounds p mask w setup started fuel g')
              → rounds p mask w setup started (suc fuel) g' ≡ rounds p mask w setup started fuel g')
          → go_on p mask w setup (λ g'. rounds p mask w setup started (suc fuel) g') o
            ≡ go_on p mask w setup (λ g'. rounds p mask w setup started fuel g') o
      go_on_suc (finished run) h k = refl
      go_on_suc crashed h k = refl
      go_on_suc (again g') h k = k g' h

  rounds-add :
      (fuel more total : ℕ) (g : Loop S)
      → total ≡ more + fuel
      → Ends p setup (rounds p mask w setup started fuel g)
      → rounds p mask w setup started total g ≡ rounds p mask w setup started fuel g
  rounds-add fuel zero total g e h = let same : total ≡ fuel = omega arith in rw same refl
  rounds-add fuel (suc more) total g e h =
      let before = rounds-add fuel more (more + fuel) g refl h in
      let same : total ≡ suc (more + fuel) = omega arith in
      rw same (rounds-suc (more + fuel) g (rw before h) ∙ before)

  pub first-IsBetween :
      (run_id now : String) (s : S)
      → IsBetween p w setup started
          (first_loop p mask w setup (first_run p mask w setup run_id now s).1)
  unfolding first_run record_event
  first-IsBetween run_id now s =
      let k =
        record_event-Kept p w setup "planned" planned 0 (said "loop planned") nothing_more
          (record { status = new_status run_id now setup.def_hash; outside = s }) in
      record {
        within = record {
          good = k.good (record { numbered = tt; live = tt });
          iterations = omega arith;
          actions = omega arith;
          finalized = refl;
        };
        begun = refl;
        acted = refl;
      }

  -- Fuel for one round more than `max_steps` is enough for the `while` of a new run, whatever the
  -- sensor, the actuator, the broker and the clock do: it ends in a terminal state within the bounds
  -- or with an OverflowError, and with more it ends in the same way.
  pub rounds_enough :
      (run_id now : String) (s : S) (fuel : ℕ)
      → suc setup.brakes.max_steps ≤ fuel
      → Ends p setup (
          rounds p mask w setup started
            (suc setup.brakes.max_steps)
            (first_loop p mask w setup (first_run p mask w setup run_id now s).1))
        × (rounds p mask w setup started fuel
              (first_loop p mask w setup (first_run p mask w setup run_id now s).1)
            ≡ rounds p mask w setup started
                (suc setup.brakes.max_steps)
                (first_loop p mask w setup (first_run p mask w setup run_id now s).1))
  rounds_enough run_id now s fuel le =
      let g = first_loop p mask w setup (first_run p mask w setup run_id now s).1 in
      let h =
        rounds-Ends (suc setup.brakes.max_steps) g (first-IsBetween run_id now s) (omega arith) in
      (
        h,
        rounds-add (suc setup.brakes.max_steps) (fuel - suc setup.brakes.max_steps) fuel g
            (omega arith) h,
      )
