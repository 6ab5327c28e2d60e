-- ===== src/Tests/Events.antt =====
-- The theorems on events.py at a concrete event.
use hermes_plugin_dynamic_wo.Prelude.{String, ◌≡◌, refl, false, [], ◌∷◌, take}
use hermes_plugin_dynamic_wo.Python.Int.{pos}
use hermes_plugin_dynamic_wo.Python.Value.{Value, get_field, null, int, str, obj, end, field}
use hermes_plugin_dynamic_wo.Grants.Credentials.{redacted, looks_like_credential, is_credential_key}
use hermes_plugin_dynamic_wo.Events.Records.{WorkflowEvent, EventArgs, ok, make, with_version}
use hermes_plugin_dynamic_wo.Events.Records.Made.{with_version-make}
use hermes_plugin_dynamic_wo.Events.Codec.{
  to_dict, from_dict, predicate_from_dict, event_from_dict-to_dict,
}
use hermes_plugin_dynamic_wo.Events.Records.{bad_version, err}
use hermes_plugin_dynamic_wo.Events.Store.{
  EventStore, empty_store, append_event, find_events, nested, split_dots,
}
use hermes_plugin_dynamic_wo.Events.Store.Log.{
  IsLog, since, drop, append_event-IsLog, append_event_again, deliver, find_events-since,
}
use hermes_plugin_dynamic_wo.Tests.Samples.{ascii}

abbrev text : Value → String
text v = "?"

abbrev args : EventArgs
args = record {
  event_id = str " evt-1 ";
  source = str "github";
  event_type = str "pull_request";
  subject = str "o/r#7";
  payload = obj (field "action" (str "opened") end);
  version = int (pos 0);
  occurred_at = null;
}

abbrev event : WorkflowEvent
event = record {
  event_id = "evt-1";
  source = "github";
  event_type = "pull_request";
  subject = "o/r#7";
  payload = field "action" (str "opened") end;
  version = 0;
  occurred_at = "t0";
}

placeholder_safe : looks_like_credential ascii redacted ≡ false
unfolding looks_like_credential
placeholder_safe = refl

makes_event : make ascii text "t0" args ≡ ok event
unfolding make is_credential_key looks_like_credential
makes_event = refl

finds_path : nested (field "a" (obj (field "b" (int (pos 1)) end)) end) "a.b" ≡ int (pos 1)
unfolding nested split_dots get_field
finds_path = refl

with_version-make_example : with_version ascii text "t0" event 4 ≡ ok (record event { version = 4 })
with_version-make_example =
    with_version-make ascii text "t0" args event 4 placeholder_safe makes_event refl

empty-IsLog : IsLog empty_store
empty-IsLog = record { indexed = refl; counted = refl; numbered = tt }

append_event-IsLog_example : IsLog (append_event ascii text "t0" empty_store event).1
append_event-IsLog_example =
    append_event-IsLog ascii text "t0" empty_store args event placeholder_safe makes_event refl
      empty-IsLog

abbrev other_args : EventArgs
other_args = record args { event_id = str "evt-2" }

abbrev other_event : WorkflowEvent
other_event = record event { event_id = "evt-2" }

makes_other : make ascii text "t0" other_args ≡ ok other_event
unfolding make is_credential_key looks_like_credential
makes_other = refl

append_event_again_example :
    append_event ascii text "t0"
      (deliver ascii text "t0"
        (append_event ascii text "t0" empty_store event).1
        (other_event ∷ []))
      event
    ≡ (
      (append_event ascii text "t0" empty_store event).0,
      deliver ascii text "t0" (append_event ascii text "t0" empty_store event).1 (other_event ∷ []),
    )
append_event_again_example =
    append_event_again ascii text "t0" empty_store event (other_event ∷ []) placeholder_safe
      (args, makes_event, refl) ((other_args, makes_other, refl), tt)

abbrev one_event : EventStore
one_event = record {
  events = record event { version = 1 } ∷ [];
  by_id = ("evt-1", record event { version = 1 }) ∷ [];
  version = 1;
}

find_events-since_example :
    find_events one_event (since 0) (pos 5) ≡ take 5 (drop 0 one_event.events)
find_events-since_example =
    find_events-since one_event 0 5
      (record { indexed = refl; counted = refl; numbered = (refl, tt) })

event_from_dict-to_dict_example : from_dict ascii text "t0" (obj (to_dict ascii event)) ≡ ok event
event_from_dict-to_dict_example =
    event_from_dict-to_dict ascii text "t0" args event placeholder_safe makes_event refl

refuses_version :
    predicate_from_dict ascii (obj (field "after_version" (str "3") end)) ≡ err bad_version
unfolding predicate_from_dict get_field
refuses_version = refl
