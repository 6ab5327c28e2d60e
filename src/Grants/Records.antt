-- ===== src/Grants/Records.antt =====
-- The value objects of grants.py and what its functions raise.
pub use hermes_plugin_dynamic_wo.Prelude.Except.{ok, err, guard, ◌>>=◌, ◌>>◌}
use hermes_plugin_dynamic_wo.Prelude.Except.{Except}
use hermes_plugin_dynamic_wo.Prelude.{String, Option, none, some, List, ◌==◌, if◌then◌else◌}
use hermes_plugin_dynamic_wo.Python.Float.{Float, Rounding}
use hermes_plugin_dynamic_wo.Python.Text.{Unicode}
use hermes_plugin_dynamic_wo.Python.Value.{Value, Fields}

-- What a `GrantError` says, without its text.
pub data Problem : Type 0 where
  no_grant not_an_object missing_text unsafe_backend unsafe_grant_id unsafe_request_id : Problem
  unknown_class bad_scope not_a_number not_finite bad_handle bad_extra bad_handle_text : Problem
  bad_audit bad_status bad_ttl not_positive empty_subject empty_reason empty_requester : Problem
  conversion : Problem
  raw_credential : String → Problem
  unknown_side_effect : Value → Problem

-- A `GrantError`, or the OverflowError of `float(n)` for an integer beyond the doubles.
pub data Raised : Type 0 where
  grant_error : Problem → Raised
  overflow_error : Raised

abbrev pub Result {ℓ} : Type ℓ → Type ℓ
Result A = Except Raised A

-- SIDE_EFFECT_CLASSES
pub data SideEffect : Type 0 where
  read_only session_launch session_control external_write : SideEffect

abbrev pub side_effect_name : SideEffect → String
side_effect_name read_only = "read_only"
side_effect_name session_launch = "session_launch"
side_effect_name session_control = "session_control"
side_effect_name external_write = "external_write"

unfoldable pub side_effect_of : String → Option SideEffect
side_effect_of s =
    if s == "read_only"
    then some read_only
    else if s == "session_launch"
    then some session_launch
    else if s == "session_control"
    then some session_control
    else if s == "external_write"
    then some external_write
    else none

pub data Status : Type 0 where
  granted revoked : Status

abbrev pub status_name : Status → String
status_name granted = "granted"
status_name revoked = "revoked"

pub record GrantHandle : Type 0 where
  pub backend : String
  pub session_id : Option String
  pub work_context_id : Option String
  pub handle_ref : Option String
  pub extra : Fields

pub record GrantRequest : Type 0 where
  pub request_id : String
  pub scope : List String
  pub side_effect_class : SideEffect
  pub subject : String
  pub reason : String
  pub requested_by : String
  pub ttl_seconds : Float
  pub audit : Fields

pub record SessionGrant : Type 0 where
  pub grant_id : String
  pub request_id : String
  pub scope : List String
  pub side_effect_class : SideEffect
  pub subject : String
  pub issued_at : String
  pub expires_at : String
  pub issued_at_epoch : Float
  pub expires_at_epoch : Float
  pub backend : String
  pub handle : Option GrantHandle
  pub audit : Fields
  pub status : Status

-- What the module takes from Python: the Unicode tables, rounding, and `str(x)` of a value.
pub record Platform : Type 0 where
  pub unicode : Unicode
  pub rounding : Rounding
  pub text : Value → String
