-- ===== src/Loops/Round/Outcome.antt =====
-- How a round leaves the run: the counts, the events, the grants, and the state it ends in.
use hermes_plugin_dynamic_wo.Prelude.{
  ℕ, suc, ◌≤◌, String, ◌≡◌, refl, ap, ◌∙◌, Bool, true, false, Option, some, [], length, last?, ◌⊎◌,
  inr, if◌then◌else◌,
}
use hermes_plugin_dynamic_wo.Python.Float.{Float}
use hermes_plugin_dynamic_wo.Grants.Records.{Platform}
use hermes_plugin_dynamic_wo.Loops.Records.{
  LoopState, LoopSensorResult, LoopRunStatus, Message, Detail, Report, waiting_for_event,
  waiting_for_approval, converged, halted_step_cap, halted_budget_cap, halted_time_cap,
  halted_stalled, halted_sensor_error, halted_actuator_error, halted_grant_denied,
  halted_finalizer_error,
}
use hermes_plugin_dynamic_wo.Loops.World.{World, Setup, Run, record_event, halt, time_exceeded}
use hermes_plugin_dynamic_wo.Loops.World.Kept.{IsGood, Kept, record_event-Kept}
use hermes_plugin_dynamic_wo.Loops.Round.{
  Loop, Round, finished, again, crashed, stop, unless_late, in_time,
}

-- The states of a run that was halted.
abbrev pub is_halted : LoopState → Bool
is_halted halted_step_cap = true
is_halted halted_budget_cap = true
is_halted halted_time_cap = true
is_halted halted_stalled = true
is_halted halted_sensor_error = true
is_halted halted_actuator_error = true
is_halted halted_grant_denied = true
is_halted halted_finalizer_error = true
is_halted _ = false

abbrev pub is_waiting : LoopState → Bool
is_waiting waiting_for_event = true
is_waiting waiting_for_approval = true
is_waiting _ = false

-- A state that ends a run: converged, where the last sensor result says so; waiting; or halted for a
-- reason.
abbrev pub Terminal : LoopRunStatus → Type 0
Terminal status =
    ((status.state ≡ converged)
      × ((r : LoopSensorResult) × (last? status.sensor_results ≡ some r) × (r.is_converged ≡ true)))
    ⊎ ((is_waiting status.state ≡ true)
        ⊎ ((is_halted status.state ≡ true) × ((m : Message) × (status.halted_reason ≡ some m))))

-- The bounds that the brakes put on a status, before the resources are closed.
pub record IsWithin (p : Platform) (setup : Setup) (status : LoopRunStatus) : Type 0 where
  pub good : IsGood p status
  pub iterations : status.iterations ≤ suc setup.brakes.max_steps
  pub actions : length status.actuator_results ≤ setup.brakes.max_steps
  pub finalized : status.finalizer_results ≡ []

-- Inside a round: `n` rounds were begun before it, and `m` actions are recorded.
pub record IsInside (p : Platform) (setup : Setup) (n m : ℕ) (status : LoopRunStatus) : Type 0 where
  pub within : IsWithin p setup status
  pub begun : status.iterations ≡ suc n
  pub acted : length status.actuator_results ≡ m

module _ {S : Type 0} (p : Platform) (w : World S) (setup : Setup) (started : Float) where
  -- Between two rounds, each of which recorded one action.
  pub record IsBetween (g : Loop S) : Type 0 where
    pub within : IsWithin p setup g.run.status
    pub begun : g.run.status.iterations ≡ g.action_count
    pub acted : length g.run.status.actuator_results ≡ g.action_count

  -- How a round that was begun after `n` actions may end.
  abbrev pub Outcome : ℕ → Round S → Type 0
  Outcome n (finished run) = IsWithin p setup run.status × Terminal run.status
  Outcome n (again g) = IsBetween g × (g.action_count ≡ suc n)
  Outcome n crashed = Unit

  pub if-Outcome :
      (n : ℕ) (b : Bool) (x y : Round S)
      → (b ≡ true → Outcome n x)
      → (b ≡ false → Outcome n y)
      → Outcome n (if b then x else y)
  if-Outcome n true x y h k = h refl
  if-Outcome n false x y h k = k refl

  pub IsWithin-Kept :
      {r r' : Run S} → Kept p r r' → IsWithin p setup r.status → IsWithin p setup r'.status
  IsWithin-Kept k h = record {
    good = k.good h.good;
    iterations = rw k.iterations h.iterations;
    actions = rw k.actions h.actions;
    finalized = k.finalized ∙ h.finalized;
  }

  pub IsInside-Kept :
      (n m : ℕ) {r r' : Run S}
      → Kept p r r'
      → IsInside p setup n m r.status
      → IsInside p setup n m r'.status
  IsInside-Kept n m k h = record {
    within = IsWithin-Kept k h.within;
    begun = k.iterations ∙ h.begun;
    acted = ap length k.actions ∙ h.acted;
  }

  -- The state, the reason and the report do not matter to the bounds.
  pub IsWithin-state :
      (status : LoopRunStatus) (state : LoopState) (reason : Option Message)
      (report : Option Report)
      → IsWithin p setup status
      → IsWithin p setup (record status { state = state; halted_reason = reason; report = report })
  IsWithin-state status state reason report h = record {
    good = record { numbered = h.good.numbered; live = h.good.live };
    iterations = h.iterations;
    actions = h.actions;
    finalized = h.finalized;
  }

  pub IsWithin-event :
      (kind : String) (state : LoopState) (iteration : ℕ) (summary : Message) (detail : Detail)
      (r : Run S)
      → IsWithin p setup r.status
      → IsWithin p setup (record_event w setup kind state iteration summary detail r).status
  IsWithin-event kind state iteration summary detail r h =
      IsWithin-Kept (record_event-Kept p w setup kind state iteration summary detail r) h

  pub stop-Outcome :
      (n : ℕ) (state : LoopState) (reason : Message) (r : Run S)
      → is_halted state ≡ true
      → IsWithin p setup r.status
      → Outcome n (stop p w setup started state reason r)
  unfolding halt record_event
  stop-Outcome n state reason r e h = (
    IsWithin-event "halted" state r.status.iterations reason _ _
        (IsWithin-state r.status state (some reason) r.status.report h),
    inr (inr (e, (reason, refl))),
  )

  late-Outcome :
      (n : ℕ) (reason : String) (next : Run S → Round S) (b : Bool) (r : Run S)
      → IsWithin p setup r.status
      → Outcome n (next r)
      → Outcome n (unless_late p w setup started reason next (b, r))
  late-Outcome n reason next true r h k = stop-Outcome n _ _ r refl h
  late-Outcome n reason next false r h k = k

  -- The status does not change while the clock is read.
  pub in_time-Outcome :
      (n : ℕ) (reason : String) (next : Run S → Round S) (r : Run S)
      → IsWithin p setup r.status
      → ((s : S) → Outcome n (next (record r { outside = s })))
      → Outcome n (in_time p w setup started reason next r)
  unfolding time_exceeded
  in_time-Outcome n reason next r h k =
      late-Outcome n reason next _ (record r { outside = _ })
        (record {
          good = h.good;
          iterations = h.iterations;
          actions = h.actions;
          finalized = h.finalized;
        })
        (k _)
