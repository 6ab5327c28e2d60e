-- ===== src/Events/Records.antt =====
-- `WorkflowEvent` and `WorkflowEventPredicate` of events.py, their checks and `_with_version`.
pub mod Made
use Prim.Native.Char.{Char, code}
use Prim.Native.String
use hermes_plugin_dynamic_wo.Prelude.{
  ℕ, String, Bool, true, false, not, ◌&&◌, ◌||◌, Option, none, some, List, [], ◌∷◌, ◌==◌, leb,
  nat_eq, if◌then◌else◌,
}
pub use hermes_plugin_dynamic_wo.Prelude.Except.{Except, ok, err, ◌>>=◌, ◌>>◌, guard}
use hermes_plugin_dynamic_wo.Python.Int.{pos}
use hermes_plugin_dynamic_wo.Python.Value.{
  Value, Fields, null, int, str, obj, end, get_field, get_or_null, truthy, value_eq, field,
}
use hermes_plugin_dynamic_wo.Python.Text.{Unicode, strip, all_chars, text_length, is_ascii_alnum}
use hermes_plugin_dynamic_wo.Grants.Credentials.{redact_credentials, redact_fields}

pub record WorkflowEvent : Type 0 where
  pub event_id : String
  pub source : String
  pub event_type : String
  pub subject : String
  pub payload : Fields
  pub version : ℕ
  pub occurred_at : String

pub record WorkflowEventPredicate : Type 0 where
  pub source : Option String
  pub event_type : Option String
  pub subject : Option String
  pub payload_match : Fields
  pub after_version : ℕ

-- The arguments of a constructor call.
pub record EventArgs : Type 0 where
  pub event_id : Value
  pub source : Value
  pub event_type : Value
  pub subject : Value
  pub payload : Value
  pub version : Value
  pub occurred_at : Value

pub data ValueError : Type 0 where
  empty_text unsafe_text : String → ValueError
  empty_subject large_subject bad_version bad_payload not_an_object : ValueError

abbrev pub Result : Type 0 → Type 0
Result A = Except ValueError A

abbrev is_id_char : Char → Bool
is_id_char c =
    is_ascii_alnum c
    || nat_eq (code c) b'_'
    || nat_eq (code c) b'.'
    || nat_eq (code c) b':'
    || nat_eq (code c) b'-'

-- `_SAFE_ID_RE.fullmatch(text)`
unfoldable pub is_safe_id : String → Bool
unfolding all_chars
is_safe_id String.[] = false
is_safe_id (String.◌∷◌ c s) = is_ascii_alnum c && all_chars is_id_char s && leb (text_length s) 191

-- `"\x00" in s`
abbrev has_nul : String → Bool
has_nul s = not (all_chars (λ c. not (nat_eq (code c) 0)) s)

-- The tests behind `value.strip()`.
abbrev check_text : String → String → Result String
check_text name t =
    if t == "" then err (empty_text name) else if is_safe_id t then ok t else err (unsafe_text name)

abbrev check_subject : String → Result String
check_subject t =
    if t == ""
    then err empty_subject
    else if not (leb (text_length t) 512) || has_nul t
    then err large_subject
    else ok t

abbrev pub require_version : Value → Result ℕ
require_version (int (pos n)) = ok n
require_version v = err bad_version

abbrev pub require_payload : Value → Result Fields
require_payload (obj d) = ok d
require_payload v = err bad_payload

module _ (u : Unicode) where
  -- `_require_safe_text`
  unfoldable pub require_safe_text : String → Value → Result String
  unfolding strip is_safe_id
  require_safe_text name (str s) = check_text name (strip u s)
  require_safe_text name v = err (empty_text name)

  -- `_require_subject`
  unfoldable pub require_subject : Value → Result String
  unfolding strip all_chars
  require_subject (str s) = check_subject (strip u s)
  require_subject v = err empty_subject

-- `text` is `str(x)` of a value that is no text, `now` is `utc_now_iso()`.
module _ (u : Unicode) (text : Value → String) (now : String) where
  -- `str(x or utc_now_iso())`
  abbrev pub time_or_now : Value → String
  time_or_now (str s) = if s == "" then now else s
  time_or_now v = if truthy v then text v else now

  -- `WorkflowEvent.__post_init__`
  unfoldable pub make : EventArgs → Result WorkflowEvent
  unfolding require_safe_text require_subject redact_credentials truthy
  make a = do
    event_id ← require_safe_text u "event_id" a.event_id
    source ← require_safe_text u "source" a.source
    event_type ← require_safe_text u "event_type" a.event_type
    subject ← require_subject u a.subject
    version ← require_version a.version
    payload ← require_payload a.payload
    ok (record {
      event_id = event_id;
      source = source;
      event_type = event_type;
      subject = subject;
      payload = redact_fields u payload;
      version = version;
      occurred_at = time_or_now a.occurred_at;
    })

  -- The arguments that `_with_version` passes on.
  abbrev pub args_of : WorkflowEvent → ℕ → EventArgs
  args_of e version = record {
    event_id = str e.event_id;
    source = str e.source;
    event_type = str e.event_type;
    subject = str e.subject;
    payload = obj (redact_fields u e.payload);
    version = int (pos version);
    occurred_at = str e.occurred_at;
  }

  unfoldable pub with_version : WorkflowEvent → ℕ → Result WorkflowEvent
  unfolding make
  with_version e version = make (args_of e version)
