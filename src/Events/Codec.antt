-- ===== src/Events/Codec.antt =====
-- `to_dict` and `from_dict` of `WorkflowEvent`, and the constructor of `WorkflowEventPredicate`, of events.py.
use hermes_plugin_dynamic_wo.Prelude.{String, ◌≡◌, refl, false, Option, none, some, ◌==◌}
use hermes_plugin_dynamic_wo.Python.Int.{pos}
use hermes_plugin_dynamic_wo.Python.Value.{
  Value, Fields, null, int, str, obj, end, field, get_field, get_or_null,
}
use hermes_plugin_dynamic_wo.Python.Text.{Unicode}
use hermes_plugin_dynamic_wo.Grants.Credentials.{
  redacted, looks_like_credential, redact_credentials, redact_fields,
}
use hermes_plugin_dynamic_wo.Events.Records.{
  WorkflowEvent, WorkflowEventPredicate, EventArgs, Result, ok, err, ◌>>=◌, require_safe_text,
  require_subject, require_version, require_payload, make, time_or_now, not_an_object,
}
use hermes_plugin_dynamic_wo.Events.Records.Made.{make-IsMade}

-- `data.get("version", 0)`
abbrev version_or_zero : Option Value → Value
version_or_zero none = int (pos 0)
version_or_zero (some v) = v

-- `payload if isinstance(payload, dict) else {}`
abbrev dict_or_empty : Value → Fields
dict_or_empty (obj d) = d
dict_or_empty v = end

module _ (u : Unicode) where
  unfoldable pub to_dict : WorkflowEvent → Fields
  unfolding redact_credentials
  to_dict e = field "event_id" (str e.event_id) (
      field "source" (str e.source) (
        field "event_type" (str e.event_type) (
          field "subject" (str e.subject) (
            field "payload" (obj (redact_fields u e.payload)) (
              field "version" (int (pos e.version))
                (field "occurred_at" (str e.occurred_at) end))))))

  -- `_opt_safe_text`, `_opt_subject`
  unfoldable pub opt_safe_text : String → Value → Result (Option String)
  unfolding require_safe_text
  opt_safe_text name null = ok none
  opt_safe_text name v = require_safe_text u name v >>= λ s. ok (some s)

  unfoldable pub opt_subject : Value → Result (Option String)
  unfolding require_subject
  opt_subject null = ok none
  opt_subject v = require_subject u v >>= λ s. ok (some s)

  -- `WorkflowEventPredicate.__post_init__`, of its arguments in their order
  unfoldable pub make_predicate :
      Value → Value → Value → Value → Value → Result WorkflowEventPredicate
  unfolding opt_safe_text opt_subject
  make_predicate source event_type subject payload_match after_version = do
    source ← opt_safe_text "source" source
    event_type ← opt_safe_text "event_type" event_type
    subject ← opt_subject subject
    after_version ← require_version after_version
    payload_match ← require_payload payload_match
    ok (record {
      source = source;
      event_type = event_type;
      subject = subject;
      payload_match = payload_match;
      after_version = after_version;
    })

  -- `WorkflowEventPredicate.from_dict`
  unfoldable pub predicate_from_dict : Value → Result WorkflowEventPredicate
  unfolding make_predicate get_field
  predicate_from_dict (obj d) =
      make_predicate (get_or_null "source" d) (get_or_null "event_type" d) (get_or_null "subject" d)
        (obj (dict_or_empty (get_or_null "payload_match" d)))
        (version_or_zero (get_field "after_version" d))
  predicate_from_dict v = err not_an_object

module _ (u : Unicode) (text : Value → String) (now : String) where
  -- `WorkflowEvent.from_dict`
  unfoldable pub from_dict : Value → Result WorkflowEvent
  unfolding require_safe_text require_subject make get_field
  from_dict (obj d) = do
    event_id ← require_safe_text u "event_id" (get_or_null "event_id" d)
    source ← require_safe_text u "source" (get_or_null "source" d)
    event_type ← require_safe_text u "event_type" (get_or_null "event_type" d)
    subject ← require_subject u (get_or_null "subject" d)
    make u text now (record {
      event_id = str event_id;
      source = str source;
      event_type = str event_type;
      subject = str subject;
      payload = obj (dict_or_empty (get_or_null "payload" d));
      version = version_or_zero (get_field "version" d);
      occurred_at = str (time_or_now u text now (get_or_null "occurred_at" d));
    })
  from_dict v = err not_an_object

  -- Where the placeholder of the redaction does not look like a credential, an event that the
  -- constructor made, with a time, is read back from its dict as it was.
  pub event_from_dict-to_dict :
      (a : EventArgs) (e : WorkflowEvent)
      → looks_like_credential u redacted ≡ false
      → make u text now a ≡ ok e
      → (e.occurred_at == "") ≡ false
      → from_dict (obj (to_dict u e)) ≡ ok e
  unfolding from_dict to_dict make get_field
  event_from_dict-to_dict a e safe h t =
      let m = make-IsMade u text now a safe h in
      rw (m.event_id, m.source, m.event_type, m.subject, t, t, m.payload, m.payload)
        (rw (m.event_id, m.source, m.event_type, m.subject) refl)
