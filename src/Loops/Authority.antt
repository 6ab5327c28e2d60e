-- ===== src/Loops/Authority.antt =====
-- `_handle_actuator_grant` and `_grant_audit` of loops.py: a grant that an action asks for or shows.
pub mod Recorded
use hermes_plugin_dynamic_wo.Prelude.{
  ℕ, String, Bool, true, false, not, Option, none, some, List, [], ◌∷◌, ◌++◌, member, if◌then◌else◌,
}
use hermes_plugin_dynamic_wo.Python.Int.{pos}
use hermes_plugin_dynamic_wo.Python.Value.{
  Value, Fields, null, int, str, obj, end, field, get_field, get_or_null, as_str, or_else,
  put_field, update, truthy,
}
use hermes_plugin_dynamic_wo.Grants.Records.{
  Platform, SessionGrant, GrantRequest, Raised, grant_error, overflow_error,
}
use hermes_plugin_dynamic_wo.Grants.Records as GrantRecords
use hermes_plugin_dynamic_wo.Grants.Credentials.{find_raw_credential}
use hermes_plugin_dynamic_wo.Grants.Codec.{to_dict}
use hermes_plugin_dynamic_wo.Grants.Requests.{request_grant}
use hermes_plugin_dynamic_wo.Grants.Resolve.{
  GrantDecision, Carried, nothing, raw, issued, resolve_grant, copy_except, without_keys,
}
use hermes_plugin_dynamic_wo.Grants.Validate.{GrantValidation, validate_grant}
use hermes_plugin_dynamic_wo.Loops.Records.{
  Except, ok, err, ◌>>=◌, LoopRunStatus, Denial, Message, acting, halted_grant_denied, denied,
  grant_for, grant_again, grant_code, grant_with_code, both_envelopes, with_suspension, bad_request,
  carries_credential, request_carries_credential, malformed_request, refused, invalid,
}
use hermes_plugin_dynamic_wo.Loops.Action.{Suspension}
use hermes_plugin_dynamic_wo.Loops.World.{World, Setup, Run, record_event}

abbrev pub is_null : Value → Bool
is_null null = true
is_null v = false

abbrev reserved_keys : List String
reserved_keys = "run_id" ∷ "def_hash" ∷ "loop_name" ∷ "iteration" ∷ []

abbrev dict_or_empty : Value → Fields
dict_or_empty (obj d) = d
dict_or_empty v = end

module _ {S : Type 0} (p : Platform) (w : World S) (setup : Setup) where
  abbrev reserved : LoopRunStatus → ℕ → Fields
  reserved status iteration = field "run_id" (str status.run_id) (
      field "def_hash" (str status.def_hash)
        (field "loop_name" setup.name (field "iteration" (int (pos iteration)) end)))

  -- `_grant_audit`
  unfoldable pub grant_audit : Value → LoopRunStatus → ℕ → Fields
  unfolding without_keys update
  grant_audit envelope_audit status iteration =
      update (without_keys reserved_keys (dict_or_empty envelope_audit)) (reserved status iteration)

  -- What is returned: the reason to halt, if there is one, and the run.
  abbrev pub Handled : Type 0
  Handled = Except Raised (Option Denial × Run S)

  -- `denied`
  abbrev deny : String → Denial → ℕ → Run S → Handled
  deny code reason iteration run = ok (
    some reason,
    record_event w setup "grant_denied" halted_grant_denied iteration (denied reason)
        (grant_code code) run,
  )

  abbrev record_grant : String → Message → String → SessionGrant → ℕ → Run S → Handled
  record_grant kind summary code g iteration run = ok (
    none,
    record_event w setup kind acting iteration summary (grant_with_code (to_dict g) code)
        (record run {
          status = record run.status { grants = run.status.grants ++ to_dict g ∷ [] };
        }),
  )

  abbrev issue : Carried → GrantDecision → ℕ → Run S → Handled
  issue (issued g) d iteration run =
      record_grant "grant_issued" (grant_for g.grant_id g.subject) d.code g iteration run
  issue carried d iteration run = deny d.code (refused d.code d.reason) iteration run

  abbrev decided : Bool → GrantDecision → ℕ → Run S → Handled
  decided true d iteration run = issue d.grant d iteration run
  decided false d iteration run = deny d.code (refused d.code d.reason) iteration run

  abbrev resolved : GrantDecision × S → ℕ → Run S → Handled
  resolved (d, s) iteration run = decided d.is_granted d iteration (record run { outside = s })

  abbrev requested : GrantRecords.Result GrantRequest → ℕ → Run S → Handled
  requested (err (grant_error e)) iteration run =
      deny "malformed" (malformed_request e) iteration run
  requested (err overflow_error) iteration run = err overflow_error
  requested (ok r) iteration run =
      resolved (resolve_grant p (w.broker run.outside) r w.grant_save run.outside) iteration run

  abbrev ask : Fields → ℕ → Run S → Handled
  ask d iteration run =
      requested
        (request_grant p (w.fresh run.outside) (get_or_null "scope" d)
          (get_or_null "side_effect_class" d) (get_or_null "subject" d) (get_or_null "reason" d)
          (or_else (or_else (get_or_null "requested_by" d) setup.name) (str "loop_actuator"))
          (get_or_null "ttl_seconds" d) (grant_audit (get_or_null "audit" d) run.status iteration)
          (get_or_null "request_id" d))
        iteration run

  abbrev scan_request : Option String → Fields → ℕ → Run S → Handled
  scan_request (some k) d iteration run =
      deny "malformed" (request_carries_credential k) iteration run
  scan_request none d iteration run = ask d iteration run

  abbrev read_request : Value → ℕ → Run S → Handled
  read_request (obj d) iteration run =
      scan_request (find_raw_credential p.unicode (obj d)) d iteration run
  read_request v iteration run = deny "malformed" bad_request iteration run

  abbrev usable : Option SessionGrant → GrantValidation → ℕ → Run S → Handled
  usable (some g) v iteration run =
      record_grant "grant_validated" (grant_again g.grant_id) v.code g iteration run
  usable none v iteration run = deny v.code (invalid v.code v.reason) iteration run

  abbrev judged : Bool → GrantValidation → ℕ → Run S → Handled
  judged true v iteration run = usable v.grant v iteration run
  judged false v iteration run = deny v.code (invalid v.code v.reason) iteration run

  abbrev validated : GrantRecords.Result GrantValidation → ℕ → Run S → Handled
  validated (err e) iteration run = err e
  validated (ok v) iteration run = judged v.is_ok v iteration run

  abbrev check_handle : Value → Value → ℕ → Run S → Handled
  check_handle handle action iteration run =
      validated (validate_grant p handle (as_str action) null (w.wall run.outside)) iteration run

  abbrev scan_action : Option String → Fields → ℕ → Run S → Handled
  scan_action (some k) action iteration run = deny "malformed" (carries_credential k) iteration run
  scan_action none action iteration run =
      if is_null (get_or_null "grant_request" action)
      then check_handle (get_or_null "grant" action) (get_or_null "grant_action" action) iteration
          run
      else read_request (get_or_null "grant_request" action) iteration run

  abbrev check_suspension : Suspension → Fields → ℕ → Run S → Handled
  check_suspension (some x) action iteration run = deny "malformed" with_suspension iteration run
  check_suspension none action iteration run =
      scan_action
        (find_raw_credential p.unicode
          (obj (without_keys ("wait" ∷ "approval_request" ∷ []) action)))
        action iteration run

  -- `has_request` and `has_handle`
  abbrev check_envelopes : Bool → Bool → Suspension → Fields → ℕ → Run S → Handled
  check_envelopes false false suspension action iteration run = ok (none, run)
  check_envelopes true true suspension action iteration run =
      deny "malformed" both_envelopes iteration run
  check_envelopes has_request has_handle suspension action iteration run =
      check_suspension suspension action iteration run

  -- `_handle_actuator_grant`
  unfoldable pub handle_grant : Suspension → Fields → ℕ → Run S → Handled
  unfolding request_grant resolve_grant validate_grant find_raw_credential to_dict without_keys
      grant_audit record_event get_field truthy
  handle_grant suspension action iteration run =
      check_envelopes (not (is_null (get_or_null "grant_request" action)))
        (not (is_null (get_or_null "grant" action))) suspension action iteration run
