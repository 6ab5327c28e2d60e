-- ===== src/Loops/Ownership/Kept.antt =====
-- What `_register_resources` of loops.py leaves alone.
use hermes_plugin_dynamic_wo.Prelude.{ℕ, List, [], ◌∷◌}
use hermes_plugin_dynamic_wo.Grants.Records.{Platform}
use hermes_plugin_dynamic_wo.Loops.Records.{Listed}
use hermes_plugin_dynamic_wo.Loops.World.{World, Setup, Run}
use hermes_plugin_dynamic_wo.Loops.World.Kept.{Kept, Kept-refl, record_event-Kept}
use hermes_plugin_dynamic_wo.Resources.Records.{WorkflowResource}
use hermes_plugin_dynamic_wo.Loops.Ownership.{register_resources, note_registered}

module _ {S : Type 0} (p : Platform) (w : World S) (setup : Setup) where
  note_registered-Kept :
      (i : ℕ) (cs : List Listed) (r : Run S) → Kept p r (note_registered w setup i cs r)
  note_registered-Kept i [] r = Kept-refl p r r.outside
  note_registered-Kept i (c ∷ cs) r = record_event-Kept p w setup _ _ _ _ _ r

  pub register-Kept :
      (i : ℕ) (rs : List WorkflowResource) (r : Run S)
      → Kept p r (register_resources w setup i rs r)
  unfolding register_resources
  register-Kept i rs r =
      let k = note_registered-Kept i _ (record r { status = record r.status { resources = _ } }) in
      record {
        iterations = k.iterations;
        actions = k.actions;
        sensed = k.sensed;
        finalized = k.finalized;
        good = λ h. k.good (record { numbered = h.numbered; live = h.live });
      }
