-- ===== src/Capabilities/Requests.antt =====
-- What capabilities.py asks of a request: no credential, and the policy of the run.
pub mod Permitted
use hermes_plugin_dynamic_wo.Prelude.{
  ℕ, String, ◌≡◌, ◌↔◌, refl, Bool, true, false, not, ◌&&◌, ◌||◌, Option, none, some, List, [], ◌∷◌,
  member, if◌then◌else◌, Bool-cases, inl, inr,
}
use hermes_plugin_dynamic_wo.Python.Value.{
  Value, Fields, null, bool, int, float, str, arr, obj, cls, end, field, get_field, get_or_null,
}
use hermes_plugin_dynamic_wo.Python.Text.{Unicode, to_lower, strip, contains, any_part}
use hermes_plugin_dynamic_wo.Grants.Credentials.{redacted, find_raw_credential, redact_credentials}
use hermes_plugin_dynamic_wo.Grants.Broker.{has_class}
use hermes_plugin_dynamic_wo.Capabilities.Records.{
  Refusal, Result, ok, err, ◌>>=◌, ◌>>◌, guard, WorkflowCapability, CapabilityPolicy,
  capability_denied, capability_side_effect_denied, capability_approval_required,
}

abbrev pub markers : List String
markers =
    "authorization:" ∷ "bearer " ∷ "basic " ∷ "cookie=" ∷ "session=" ∷ "set-cookie:" ∷ "password="
    ∷ "passwd=" ∷ "secret=" ∷ "token=" ∷ "api_key=" ∷ "apikey=" ∷ "access_key=" ∷ "private_key="
    ∷ "ghp_" ∷ "gho_" ∷ "ghu_" ∷ "ghs_" ∷ "ghr_" ∷ "github_pat_" ∷ "glpat-" ∷ "sk-" ∷ "xoxb-"
    ∷ "xoxp-" ∷ "xoxa-" ∷ []

module _ (u : Unicode) where
  -- `_string_has_credential_marker`
  unfoldable pub has_marker : String → Bool
  unfolding to_lower strip contains
  has_marker s = any_part markers (to_lower u (strip u s))

  abbrev marked : Value → Bool
  marked (str s) = has_marker s
  marked v = false

  abbrev scan_texts : Fields → Option String
  scan_texts request =
      if marked (get_or_null "label" request)
      then some "label"
      else if marked (get_or_null "approval_id" request)
      then some "approval_id"
      else none

  abbrev first_found : Option String → Option String → Option String
  first_found none o = o
  first_found (some k) o = some k

  -- `find_capability_request_credential`
  unfoldable pub find_request_credential : Fields → Option String
  unfolding find_raw_credential has_marker get_field
  find_request_credential request =
      first_found
        (find_raw_credential u (
          obj (
            field "input" (get_or_null "input" request) (
              field "label" (get_or_null "label" request) (
                field "approval_id" (get_or_null "approval_id" request)
                  (field "schema" (get_or_null "schema" request) end))))))
        (scan_texts request)

  abbrev masked : Value → Value
  masked (str s) = if has_marker s then str redacted else str s
  masked v = v

  -- `safe_capability_metadata_value`
  unfoldable pub safe_metadata : Value → Value
  unfolding redact_credentials has_marker
  safe_metadata v = masked (redact_credentials u v)

abbrev is_allowed_name : Option (List String) → String → Bool
is_allowed_name none name = true
is_allowed_name (some names) name = member name names

abbrev is_approved : List String → Value → Bool
is_approved ids (str s) = member s ids
is_approved ids v = false

module _ {S : Type 0} where
  -- `_enforce_policy`
  unfoldable pub enforce_policy :
      WorkflowCapability S → Fields → CapabilityPolicy → Result (Unit {0})
  unfolding has_class get_field
  enforce_policy c request policy = do
    guard (is_allowed_name policy.allowed_names c.name) capability_denied
    guard (has_class c.side_effect_class policy.allowed_side_effect_classes)
        capability_side_effect_denied
    guard
        (not (has_class c.side_effect_class policy.approval_required_classes)
          || is_approved policy.approved_approval_ids (get_or_null "approval_id" request))
        capability_approval_required
