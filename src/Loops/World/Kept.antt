-- ===== src/Loops/World/Kept.antt =====
-- What the steps inside a round of `loop_run` leave alone, and an invariant of a status.
use hermes_plugin_dynamic_wo.Prelude.{
  ℕ, suc, ◌+◌, String, ◌≡◌, refl, ◌∙◌, true, false, List, [], ◌∷◌, ◌++◌, length, All, arith,
}
use hermes_plugin_dynamic_wo.Python.Float.{is_finite, fle, zero_float}
use hermes_plugin_dynamic_wo.Python.Value.{Fields}
use hermes_plugin_dynamic_wo.Grants.Records.{Platform, SessionGrant, granted}
use hermes_plugin_dynamic_wo.Grants.Codec.{to_dict}
use hermes_plugin_dynamic_wo.Grants.Resolve.{ttl_of}
use hermes_plugin_dynamic_wo.Loops.Records.{LoopState, LoopEvent, LoopRunStatus, Message, Detail}
use hermes_plugin_dynamic_wo.Loops.World.{World, Setup, Run, record_event}

-- The events of the run, numbered from a number on.
abbrev pub Numbered : String → ℕ → List LoopEvent → Type 0
Numbered run_id i [] = Unit
Numbered run_id i (e ∷ es) = (e.event_index ≡ i) × (e.run_id ≡ run_id) × Numbered run_id (suc i) es

Numbered-snoc :
    (run_id : String) (i : ℕ) (es : List LoopEvent) (e : LoopEvent)
    → Numbered run_id i es
    → e.event_index ≡ i + length es
    → e.run_id ≡ run_id
    → Numbered run_id i (es ++ e ∷ [])
Numbered-snoc run_id i [] e h at id = (omega (arith, at), id, tt)
Numbered-snoc run_id i (x ∷ es) e (a, b, h) at id =
    (a, b, Numbered-snoc run_id (suc i) es e h (omega (arith, at)) id)

-- A recorded grant: granted, for a finite time that is not empty.
pub record IsLive (p : Platform) (d : Fields) : Type 0 where
  pub grant : SessionGrant
  pub dict : to_dict grant ≡ d
  pub status : grant.status ≡ granted
  pub finite_start : is_finite grant.issued_at_epoch ≡ true
  pub finite_end : is_finite grant.expires_at_epoch ≡ true
  pub positive : fle (ttl_of p grant) zero_float ≡ false

pub record IsGood (p : Platform) (status : LoopRunStatus) : Type 0 where
  pub numbered : Numbered status.run_id 0 status.events
  pub live : All (IsLive p) status.grants

-- What a step inside a round keeps.
pub record Kept (p : Platform) {S : Type 0} (r r' : Run S) : Type 0 where
  pub iterations : r'.status.iterations ≡ r.status.iterations
  pub actions : r'.status.actuator_results ≡ r.status.actuator_results
  pub sensed : r'.status.sensor_results ≡ r.status.sensor_results
  pub finalized : r'.status.finalizer_results ≡ r.status.finalizer_results
  pub good : IsGood p r.status → IsGood p r'.status

module _ (p : Platform) {S : Type 0} where
  pub Kept-refl : (r : Run S) (s : S) → Kept p r (record r { outside = s })
  Kept-refl r s = record {
    iterations = refl;
    actions = refl;
    sensed = refl;
    finalized = refl;
    good = λ h. h;
  }

  pub Kept-trans : {a b c : Run S} → Kept p a b → Kept p b c → Kept p a c
  Kept-trans h k = record {
    iterations = k.iterations ∙ h.iterations;
    actions = k.actions ∙ h.actions;
    sensed = k.sensed ∙ h.sensed;
    finalized = k.finalized ∙ h.finalized;
    good = λ x. k.good (h.good x);
  }

  module _ (w : World S) (setup : Setup) where
    -- An event more is numbered like the others.
    pub record_event-Kept :
        (kind : String) (state : LoopState) (iteration : ℕ) (summary : Message) (detail : Detail)
        (r : Run S)
        → Kept p r (record_event w setup kind state iteration summary detail r)
    unfolding record_event
    record_event-Kept kind state iteration summary detail r = record {
      iterations = refl;
      actions = refl;
      sensed = refl;
      finalized = refl;
      good = λ h. record {
        numbered = Numbered-snoc r.status.run_id 0 r.status.events _ h.numbered (omega arith) refl;
        live = h.live;
      };
    }
