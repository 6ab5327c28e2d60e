-- ===== src/Grants/Checks.antt =====
-- The field checks of grants.py: identifiers, scopes, numbers.
use Prim.Native.Char.{Char, code}
use hermes_plugin_dynamic_wo.Prelude.{
  String, Bool, false, not, ◌&&◌, ◌||◌, Option, none, some, List, [], ◌∷◌, ◌==◌, nat_eq, leb,
  member, if◌then◌else◌, ◌++◌,
}
use hermes_plugin_dynamic_wo.Python.Float.{Float, is_finite}
use hermes_plugin_dynamic_wo.Python.Text.{all_chars, text_length, strip}
use hermes_plugin_dynamic_wo.Python.Value.{Value, Items, null, int, float, str, arr, nil, cons}
use hermes_plugin_dynamic_wo.Grants.Credentials.{looks_like_credential}
use hermes_plugin_dynamic_wo.Grants.Records.{
  Problem, Result, ok, err, guard, ◌>>=◌, ◌>>◌, Platform, SideEffect, side_effect_of, grant_error,
  overflow_error, unsafe_backend, unsafe_grant_id, unsafe_request_id, bad_scope, not_a_number,
  not_finite, bad_handle_text, unknown_side_effect,
}

module _ (p : Platform) where
  abbrev is_segment_char : Char → Bool
  is_segment_char c =
      p.unicode.is_alnum c || nat_eq (code c) b'.' || nat_eq (code c) b'_' || nat_eq (code c) b'-'

  -- `_safe_identifier_segment` of a text
  unfoldable pub is_segment : String → Bool
  unfolding all_chars
  is_segment String.[] = false
  is_segment (String.◌∷◌ c s) =
      leb (text_length (String.◌∷◌ c s)) 128
      && p.unicode.is_alnum c
      && all_chars is_segment_char (String.◌∷◌ c s)

  -- An identifier that is no credential, of a value that must be a text.
  unfoldable pub safe_identifier : Problem → Value → Result String
  unfolding is_segment looks_like_credential
  safe_identifier e (str s) =
      if is_segment s && not (looks_like_credential p.unicode s) then ok s else err (grant_error e)
  safe_identifier e v = err (grant_error e)

  -- `_safe_backend`, `_safe_grant_id`
  abbrev pub safe_backend : Value → Result String
  safe_backend v = safe_identifier unsafe_backend v

  abbrev pub safe_grant_id : Value → Result String
  safe_grant_id v = safe_identifier unsafe_grant_id v

  -- `_normalize_request_id`
  unfoldable pub normalize_request_id : Value → Result String
  unfolding safe_identifier strip
  normalize_request_id (str s) =
      if (strip p.unicode s == s) && not (s == "")
      then safe_identifier unsafe_request_id (str s)
      else err (grant_error unsafe_request_id)
  normalize_request_id v = err (grant_error unsafe_request_id)

  abbrev is_action_char : Char → Bool
  is_action_char c = is_segment_char c || nat_eq (code c) b':'

  -- one action of a scope
  unfoldable pub is_action : String → Bool
  unfolding all_chars
  is_action s = not (s == "") && all_chars is_action_char s

  unfoldable pub actions_of : Items → Result (List String)
  unfolding is_action
  actions_of nil = ok []
  actions_of (cons (str s) xs) =
      let rest = actions_of xs in
      if is_action s then (do as' ← rest; ok (s ∷ as')) else err (grant_error bad_scope)
  actions_of (cons v xs) = err (grant_error bad_scope)

  -- The loop that drops repeated actions and keeps the order.
  unfoldable pub unique_from : List String → List String → List String
  unique_from seen [] = seen
  unique_from seen (a ∷ as') = unique_from (if member a seen then seen else seen ++ a ∷ []) as'

  -- `_normalize_scope`
  unfoldable pub normalize_scope : Value → Result (List String)
  unfolding actions_of unique_from
  normalize_scope (arr nil) = err (grant_error bad_scope)
  normalize_scope (arr (cons v xs)) = do
    actions ← actions_of (cons v xs)
    ok (unique_from [] actions)
  normalize_scope v = err (grant_error bad_scope)

  -- float(n)
  unfoldable pub to_float : Value → Result Float
  to_float (int n) = elim (p.rounding.of_int n) [ none ↦ err overflow_error | some x ↦ ok x ]
  to_float (float x) = ok x
  to_float v = err (grant_error not_a_number)

  -- `_require_number`
  unfoldable pub require_number : Value → Result Float
  unfolding to_float
  require_number v = do x ← to_float v; guard (is_finite x) (grant_error not_finite); ok x

-- `_opt_str` of grants.py
abbrev pub opt_str : Value → Result (Option String)
opt_str null = ok none
opt_str (str s) = ok (some s)
opt_str v = err (grant_error bad_handle_text)

-- A text that is not empty, or the error.
abbrev pub need_text : Problem → Value → Result String
need_text e (str s) = if s == "" then err (grant_error e) else ok s
need_text e v = err (grant_error e)

-- `side_effect_class in SIDE_EFFECT_CLASSES`
unfoldable pub read_side_effect : Value → Result SideEffect
unfolding side_effect_of
read_side_effect (str s) = elim (side_effect_of s) [
  | none ↦ err (grant_error (unknown_side_effect (str s)))
  | some c ↦ ok c
]
read_side_effect v = err (grant_error (unknown_side_effect v))
