-- ===== src/Loops/Records.antt =====
-- The value objects of loops.py. What a summary or a halt reason says is a `Message`, and what an
-- event carries beside it a `Detail`.
pub use hermes_plugin_dynamic_wo.Prelude.Except.{Except, ok, err, guard, ◌>>=◌, ◌>>◌}
use hermes_plugin_dynamic_wo.Prelude.{ℕ, String, Bool, Option, List}
use hermes_plugin_dynamic_wo.Python.Float.{Float}
use hermes_plugin_dynamic_wo.Python.Value.{Value, Fields}
use hermes_plugin_dynamic_wo.Grants.Records as GrantRecords
use hermes_plugin_dynamic_wo.Grants.Resolve as Resolve
use hermes_plugin_dynamic_wo.Grants.Validate as Validate
use hermes_plugin_dynamic_wo.Resources.Records as ResourceRecords

-- LoopState
pub data LoopState : Type 0 where
  planned sensing acting verifying waiting_for_event waiting_for_approval converged : LoopState
  halted_step_cap halted_budget_cap halted_time_cap halted_stalled halted_sensor_error : LoopState
  halted_actuator_error halted_grant_denied halted_finalizer_error : LoopState

pub record LoopSensorResult : Type 0 where
  pub is_converged : Bool
  pub signal_key : String
  pub summary : String
  pub evidence : List Fields
  pub retryable_noise : Bool
  pub next_hint : Option String

pub data SensorError : Type 0 where
  sensor_raised wrong_class : String → SensorError
  bad_signal_key bad_evidence bad_converged bad_noise : SensorError
  still_noise : ℕ → String → SensorError

pub data ActuatorError : Type 0 where
  actuator_raised wrong_result : String → ActuatorError
  bad_cost cost_overflow both_requests bad_wait bad_approval no_identity : ActuatorError
  bad_resources : ResourceRecords.Problem → ActuatorError

pub data Denial : Type 0 where
  both_envelopes with_suspension bad_request : Denial
  carries_credential request_carries_credential : String → Denial
  malformed_request : GrantRecords.Problem → Denial
  refused : String → Resolve.Reason → Denial
  invalid : String → Validate.Reason → Denial

pub data Message : Type 0 where
  said : String → Message
  sensor_failed : SensorError → Message
  actuator_failed : ActuatorError → Message
  stalled : String → ℕ → Message
  steps_exhausted : ℕ → Message
  cost_exceeded : Float → Float → Message
  denied : Denial → Message
  grant_for : String → String → Message
  grant_again : String → Message
  registered : ℕ → Message

-- What an event says of a resource: the dict of the status itself, at its position, so that a later
-- change of it shows in the event too, or a copy.
pub data Listed : Type 0 where
  live : ℕ → Listed
  copied : Fields → Listed

pub data Detail : Type 0 where
  nothing_more : Detail
  signal : String → Bool → Detail
  noise : String → ℕ → Detail
  result : Fields → Detail
  grant_code : String → Detail
  grant_with_code : Fields → String → Detail
  resource_list : List Listed → Detail
  request : Fields → Detail
  prior : LoopState → Option Message → Detail

pub record LoopEvent : Type 0 where
  pub kind : String
  pub state : LoopState
  pub iteration : ℕ
  pub summary : Message
  pub at : String
  pub detail : Detail
  pub run_id : String
  pub def_hash : String
  pub loop_name : Value
  pub event_index : ℕ

pub record Report : Type 0 where
  pub final_state : LoopState
  pub iterations : ℕ
  pub latest_sensor : Option LoopSensorResult
  pub actuator_count : ℕ
  pub resource_count : ℕ
  pub finalizer_count : ℕ
  pub required_finalizer_failed : Bool
  pub halted_reason : Option Message
  pub convergence_risk : String

pub record LoopRunStatus : Type 0 where
  pub run_id : String
  pub state : LoopState
  pub iterations : ℕ
  pub created_at : String
  pub updated_at : String
  pub def_hash : String
  pub sensor_results : List LoopSensorResult
  pub actuator_results : List Fields
  pub events : List LoopEvent
  pub grants : List Fields
  pub resources : List Fields
  pub finalizer_results : List Fields
  pub halted_reason : Option Message
  pub report : Option Report
