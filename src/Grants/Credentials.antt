-- ===== src/Grants/Credentials.antt =====
-- The credential guard of grants.py: `find_raw_credential`, `redact_credentials`.
pub mod Occurs
pub mod Clean
pub mod Redacted
use hermes_plugin_dynamic_wo.Prelude.{
  String, Bool, true, false, ◌||◌, Option, none, some, List, [], ◌∷◌, ◌==◌, member, if◌then◌else◌,
}
use hermes_plugin_dynamic_wo.Python.Value.{
  Value, Items, Fields, str, arr, obj, nil, cons, end, field, null, bool, int, float, cls,
}
use hermes_plugin_dynamic_wo.Python.Text.{
  Unicode, to_lower, strip, has_prefix, contains, any_prefix, any_part,
}

-- REDACTED
abbrev pub redacted : String
redacted = "[REDACTED]"

-- _FORBIDDEN_CRED_KEYS
abbrev pub forbidden_keys : List String
forbidden_keys =
    "authorization" ∷ "auth" ∷ "bearer" ∷ "api_key" ∷ "apikey" ∷ "x-api-key" ∷ "access_token"
    ∷ "refresh_token" ∷ "auth_token" ∷ "session_token" ∷ "id_token" ∷ "token" ∷ "set-cookie"
    ∷ "cookies" ∷ []

-- _FORBIDDEN_CRED_SUBSTRINGS
abbrev pub forbidden_parts : List String
forbidden_parts = "password" ∷ "passwd" ∷ "secret" ∷ "cookie" ∷ "credential" ∷ "private_key" ∷ []

abbrev pub token_prefixes : List String
token_prefixes =
    "ghp_" ∷ "gho_" ∷ "ghu_" ∷ "ghs_" ∷ "ghr_" ∷ "github_pat_" ∷ "glpat-" ∷ "sk-" ∷ "xoxb-"
    ∷ "xoxp-" ∷ "xoxa-" ∷ []

module _ (u : Unicode) where
  unfoldable pub is_credential_key : String → Bool
  unfolding to_lower contains
  is_credential_key key =
      let lowered = to_lower u key in
      member lowered forbidden_keys || any_part forbidden_parts lowered

  unfoldable pub looks_like_credential : String → Bool
  unfolding to_lower strip has_prefix contains
  looks_like_credential value =
      let lowered = to_lower u (strip u value) in
      any_prefix ("bearer " ∷ "basic " ∷ []) lowered
      || any_part ("session=" ∷ "cookie=" ∷ "set-cookie:" ∷ []) lowered
      || any_prefix token_prefixes lowered

  -- The first credential-shaped key or value, depth first and in order.
  unfoldable mutual
    pub find_raw_credential : Value → Option String
    find_raw_credential (obj d) = find_in_fields d
    find_raw_credential (arr xs) = find_in_items xs
    find_raw_credential (str s) = if looks_like_credential s then some "credential_value" else none
    find_raw_credential null = none
    find_raw_credential (bool b) = none
    find_raw_credential (int n) = none
    find_raw_credential (float x) = none
    find_raw_credential (cls c) = none

    pub find_in_items : Items → Option String
    find_in_items nil = none
    find_in_items (cons v xs) =
        let rest = find_in_items xs in
        elim (find_raw_credential v) [ some k ↦ some k | none ↦ rest ]

    pub find_in_fields : Fields → Option String
    find_in_fields end = none
    find_in_fields (field key v d) =
        let rest = find_in_fields d in
        let below : Option String = elim (find_raw_credential v) [
          | some k ↦ some k
          | none ↦ rest
        ] in
        if is_credential_key key then some key else below

  unfoldable mutual
    pub redact_credentials : Value → Value
    redact_credentials (obj d) = obj (redact_fields d)
    redact_credentials (arr xs) = arr (redact_items xs)
    redact_credentials (str s) = if looks_like_credential s then str redacted else str s
    redact_credentials null = null
    redact_credentials (bool b) = bool b
    redact_credentials (int n) = int n
    redact_credentials (float x) = float x
    redact_credentials (cls c) = cls c

    pub redact_items : Items → Items
    redact_items nil = nil
    redact_items (cons v xs) = cons (redact_credentials v) (redact_items xs)

    pub redact_fields : Fields → Fields
    redact_fields end = end
    redact_fields (field key v d) =
        let below = redact_credentials v in
        field key (if is_credential_key key then str redacted else below) (redact_fields d)
