-- ===== src/Grants/Requests.antt =====
-- `request_grant` of grants.py.
use Prim.Native.String.{◌++◌ as str_append}
use hermes_plugin_dynamic_wo.Prelude.{String, ◌&&◌, Option, none, some}
use hermes_plugin_dynamic_wo.Python.Float.{Float, is_finite, flt, zero_float}
use hermes_plugin_dynamic_wo.Python.Value.{Value, Fields, null, int, float, obj}
use hermes_plugin_dynamic_wo.Grants.Credentials.{find_raw_credential}
use hermes_plugin_dynamic_wo.Grants.Records.{
  Result, ok, err, guard, ◌>>=◌, ◌>>◌, Platform, GrantRequest, grant_error, bad_ttl, not_positive,
  empty_subject, empty_reason, empty_requester, raw_credential,
}
use hermes_plugin_dynamic_wo.Grants.Checks.{
  normalize_request_id, normalize_scope, to_float, read_side_effect, need_text,
}

-- A check that passes, or the key that gives the credential away.
abbrev pub no_credential : Option String → Result (Unit {0})
no_credential none = ok tt
no_credential (some k) = err (grant_error (raw_credential k))

module _ (p : Platform) where
  -- `isinstance(x, (int, float))`, not a bool; then `float(x)`
  abbrev read_ttl : Value → Result Float
  read_ttl (int n) = to_float p (int n)
  read_ttl (float x) = to_float p (float x)
  read_ttl v = err (grant_error bad_ttl)

  abbrev read_request_id : String → Value → Result String
  read_request_id fresh null = ok (str_append "greq-" fresh)
  read_request_id fresh v = normalize_request_id p v

  -- `request_grant`; `fresh` is the start of a new uuid's digits.
  unfoldable pub request_grant :
      String → Value → Value → Value → Value → Value → Value → Fields → Value → Result GrantRequest
  unfolding normalize_scope read_side_effect normalize_request_id to_float find_raw_credential
  request_grant fresh scope class' subject reason requested_by ttl_seconds audit request_id = do
    scope ← normalize_scope p scope
    side_effect_class ← read_side_effect class'
    subject ← need_text empty_subject subject
    reason ← need_text empty_reason reason
    requested_by ← need_text empty_requester requested_by
    ttl ← read_ttl ttl_seconds
    guard (flt zero_float ttl && is_finite ttl) (grant_error not_positive)
    request_id ← read_request_id fresh request_id
    no_credential (find_raw_credential p.unicode (obj audit))
    ok (record {
      request_id = request_id;
      scope = scope;
      side_effect_class = side_effect_class;
      subject = subject;
      reason = reason;
      requested_by = requested_by;
      ttl_seconds = ttl;
      audit = audit;
    })
