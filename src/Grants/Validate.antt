-- ===== src/Grants/Validate.antt =====
-- `validate_grant` of grants.py: may a grant be used for an action right now?
pub mod Sound
pub mod Clock
pub mod Live
use hermes_plugin_dynamic_wo.Prelude.{
  String, Bool, true, false, not, Option, none, some, List, [], ◌∷◌, ◌==◌, member, if◌then◌else◌,
}
use hermes_plugin_dynamic_wo.Python.Float.{Float, fle}
use hermes_plugin_dynamic_wo.Python.Value.{Value, null, obj}
use hermes_plugin_dynamic_wo.Grants.Credentials.{find_raw_credential}
use hermes_plugin_dynamic_wo.Grants.Records.{
  Problem, Raised, Result, ok, err, Platform, SessionGrant, Status, grant_error, overflow_error,
  conversion, raw_credential,
}
use hermes_plugin_dynamic_wo.Grants.Checks.{require_number}
use hermes_plugin_dynamic_wo.Grants.Codec.{to_dict, normalize_session_grant}
use hermes_plugin_dynamic_wo.Grants.Resolve.{time_problem, is_granted_status}

pub data Reason : Type 0 where
  problem : Problem → Reason
  has_status : Status → Reason
  expired_at : String → Reason
  not_in_scope : String → List String → Reason
  active : Reason

pub record GrantValidation : Type 0 where
  pub is_ok : Bool
  pub code : String
  pub reason : Reason
  pub grant : Option SessionGrant

abbrev deny : String → Reason → SessionGrant → GrantValidation
deny code reason g = record { is_ok = false; code = code; reason = reason; grant = some g }

abbrev accept : SessionGrant → GrantValidation
accept g = record { is_ok = true; code = "valid"; reason = active; grant = some g }

abbrev check_action : Option String → SessionGrant → GrantValidation
check_action none g = accept g
check_action (some a) g =
    if member a g.scope then accept g else deny "out_of_scope" (not_in_scope a g.scope) g

abbrev check_expiry : Float → Option String → SessionGrant → GrantValidation
check_expiry clock action g =
    if fle g.expires_at_epoch clock
    then deny "expired" (expired_at g.expires_at) g
    else check_action action g

module _ (p : Platform) where
  -- The clock: the given one, checked, or the machine's. An OverflowError passes through.
  abbrev pub read_clock : Value → Float → Result Float
  read_clock null wall = ok wall
  read_clock now wall = require_number p now

  abbrev check_clock : Result Float → Option String → SessionGrant → Result GrantValidation
  check_clock (err (grant_error e)) action g = ok (deny "malformed" (problem e) g)
  check_clock (err overflow_error) action g = err overflow_error
  check_clock (ok clock) action g = ok (check_expiry clock action g)

  abbrev check_status :
      Option String → Value → Float → Option String → SessionGrant → Result GrantValidation
  check_status (some k) now wall action g = ok (deny "malformed" (problem (raw_credential k)) g)
  check_status none now wall action g =
      if is_granted_status g.status
      then check_clock (read_clock now wall) action g
      else ok (deny "revoked" (has_status g.status) g)

  abbrev check_time :
      Option Problem → Value → Float → Option String → SessionGrant → Result GrantValidation
  check_time (some e) now wall action g = ok (deny "malformed" (problem e) g)
  check_time none now wall action g =
      check_status (find_raw_credential p.unicode (obj (to_dict g))) now wall action g

  abbrev check_grant : Result SessionGrant → Value → Float → Option String → Result GrantValidation
  check_grant (err (grant_error e)) now wall action =
      ok (record { is_ok = false; code = "malformed"; reason = problem e; grant = none })
  check_grant (err overflow_error) now wall action =
      ok (record { is_ok = false; code = "malformed"; reason = problem conversion; grant = none })
  check_grant (ok g) now wall action = check_time (time_problem p g) now wall action g

  -- `validate_grant(grant, action=action, now=now)` when `time.time()` is `wall`
  unfoldable pub validate_grant : Value → Option String → Value → Float → Result GrantValidation
  unfolding normalize_session_grant time_problem find_raw_credential to_dict require_number
  validate_grant grant action now wall =
      check_grant (normalize_session_grant p grant) now wall action
