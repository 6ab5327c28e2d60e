-- ===== src/Tests/Grants.antt =====
-- The theorems about grants.py at concrete inputs, and runs of its functions.
use mathlib.Core.Option
use hermes_plugin_dynamic_wo.Prelude.{
  String, ◌≡◌, ◌↔◌, ◌⊎◌, refl, true, false, none, some, List, [], ◌∷◌, if◌then◌else◌,
}
use hermes_plugin_dynamic_wo.Python.Int.{pos}
use hermes_plugin_dynamic_wo.Python.Float.{Float, fin}
use hermes_plugin_dynamic_wo.Python.Value.{Value, null, str, obj, end, field, get_field}
use hermes_plugin_dynamic_wo.Grants.Records.{
  SideEffect, Status, GrantRequest, SessionGrant, ok, err, overflow_error,
}
use hermes_plugin_dynamic_wo.Grants.Credentials.{
  redacted, is_credential_key, looks_like_credential, find_raw_credential, redact_credentials,
  redact_fields,
}
use hermes_plugin_dynamic_wo.Grants.Credentials.Occurs.{TextIn}
use hermes_plugin_dynamic_wo.Grants.Credentials.Clean.{IsClean, find-none_iff}
use hermes_plugin_dynamic_wo.Grants.Credentials.Redacted.{redact_safe, get-redact_fields}
use hermes_plugin_dynamic_wo.Grants.Codec.{to_dict, normalize_session_grant}
use hermes_plugin_dynamic_wo.Grants.Resolve.{Answer, Save, decision, resolve_grant}
use hermes_plugin_dynamic_wo.Grants.Resolve.Sound.{Outcome, resolve-Outcome}
use hermes_plugin_dynamic_wo.Grants.Validate.{GrantValidation, validate_grant}
use hermes_plugin_dynamic_wo.Grants.Validate.Sound.{IsUsable, validate_iff}
use hermes_plugin_dynamic_wo.Grants.Validate.Clock.{IsClock}
use hermes_plugin_dynamic_wo.Grants.Checks.{require_number}
use hermes_plugin_dynamic_wo.Tests.Samples.{ascii, platform}

abbrev pub request : GrantRequest
request = record {
  request_id = "greq-1";
  scope = "session.launch" ∷ "session.status" ∷ [];
  side_effect_class = SideEffect.session_launch;
  subject = "issue-33";
  reason = "start a session";
  requested_by = "loop";
  ttl_seconds = fin (pos 60);
  audit = end;
}

abbrev pub grant : SessionGrant
grant = record {
  grant_id = "grant-1";
  request_id = "greq-1";
  scope = "session.launch" ∷ [];
  side_effect_class = SideEffect.session_launch;
  subject = "issue-33";
  issued_at = "t0";
  expires_at = "t1";
  issued_at_epoch = fin (pos 100);
  expires_at_epoch = fin (pos 150);
  backend = "inproc";
  handle = none;
  audit = field "note" (str "x") end;
  status = Status.granted;
}

abbrev pub broker : GrantRequest → Answer
broker r = decision true "granted" "fine" (obj (to_dict grant))

abbrev save : Save (List String)
save = some (λ g s. (true, g.grant_id ∷ s))

-- A store that writes, and then raises.
abbrev raising : Save (List String)
raising = some (λ g s. (false, g.grant_id ∷ s))

keeps_written : (resolve_grant platform (some broker) request raising []).1 ≡ "grant-1" ∷ []
unfolding resolve_grant to_dict get_field is_credential_key
keeps_written = refl

resolve-Outcome_example :
    Outcome platform save request [] (resolve_grant platform (some broker) request save [])
resolve-Outcome_example = resolve-Outcome platform (some broker) request save []

grants : (resolve_grant platform (some broker) request save []).0.code ≡ "granted"
unfolding resolve_grant to_dict get_field is_credential_key
grants = refl

validate_iff_example :
    ((r : GrantValidation) × (validate_grant platform
          (obj (to_dict grant))
          (some "session.launch")
          null
          (fin (pos 120))
        ≡ ok r)
      × ((r.is_ok ≡ true) ↔ (
          (clock : Float) × (g : SessionGrant) × IsClock platform null (fin (pos 120)) clock
          × (normalize_session_grant platform (obj (to_dict grant)) ≡ ok g)
          × IsUsable platform g clock (some "session.launch"))))
    ⊎ ((validate_grant platform (obj (to_dict grant)) (some "session.launch") null (fin (pos 120))
          ≡ err overflow_error)
        × (require_number platform null ≡ err overflow_error))
validate_iff_example =
    validate_iff platform (obj (to_dict grant)) null (some "session.launch") (fin (pos 120))

abbrev leak : Value
leak = obj (field "Password" (str "x") (field "note" (str "Bearer abc") end))

find-none_iff_example : (find_raw_credential ascii leak ≡ none) ↔ IsClean ascii leak
find-none_iff_example = find-none_iff ascii leak

finds_key : find_raw_credential ascii leak ≡ some "Password"
unfolding find_raw_credential is_credential_key
finds_key = refl

redact_safe_example :
    ((t : String)
      → TextIn t (redact_credentials ascii leak)
      → (t ≡ redacted) ⊎ (looks_like_credential ascii t ≡ false))
    × (redact_credentials ascii (redact_credentials ascii leak) ≡ redact_credentials ascii leak)
unfolding looks_like_credential
redact_safe_example = redact_safe ascii leak refl

get-redact_fields_example :
    get_field "Password" (redact_fields ascii (field "Password" (str "x") end))
    ≡ Option.map
        (λ v.
          if is_credential_key ascii "Password" then str redacted else redact_credentials ascii v)
        (get_field "Password" (field "Password" (str "x") end))
get-redact_fields_example = get-redact_fields ascii "Password" (field "Password" (str "x") end)
