-- ===== src/Events/Store.antt =====
-- `InMemoryWorkflowEventStore` and `match_workflow_event` of events.py.
pub mod Log
use Prim.Native.Char.{Char, code}
use Prim.Native.String
use hermes_plugin_dynamic_wo.Prelude.{
  ℕ, suc, String, Bool, true, false, not, ◌&&◌, Option, none, some, List, [], ◌∷◌, ◌++◌, ◌==◌, leb,
  nat_eq, take, if◌then◌else◌,
}
use hermes_plugin_dynamic_wo.Prelude.Dict.{Dict, get, put}
use hermes_plugin_dynamic_wo.Python.Int.{ℤ, pos_part}
use hermes_plugin_dynamic_wo.Python.Value.{
  Value, Fields, null, obj, end, field, get_or_null, get_field, value_eq,
}
use hermes_plugin_dynamic_wo.Python.Text.{Unicode}
use hermes_plugin_dynamic_wo.Events.Records.{
  WorkflowEvent, WorkflowEventPredicate, Result, ok, err, with_version,
}

-- s.split("."), the characters so far in front
unfoldable pub split_dots : String → String → List String
split_dots so_far String.[] = so_far ∷ []
split_dots so_far (String.◌∷◌ c s) =
    if nat_eq (code c) b'.'
    then so_far ∷ split_dots "" s
    else split_dots (String.◌++◌ so_far (String.◌∷◌ c String.[])) s

abbrev get_part : String → Value → Value
get_part part (obj d) = get_or_null part d
get_part part v = null

-- `_nested`: a value that is no dict, with a part still to go, gives `None`.
abbrev pub walk : Value → List String → Value
walk current [] = current
walk current (part ∷ parts) = walk (get_part part current) parts

unfoldable pub nested : Fields → String → Value
unfolding split_dots get_field
nested payload dotted = walk (obj payload) (split_dots "" dotted)

-- An attribute that the predicate does not name matches.
abbrev pub allows : Option String → String → Bool
allows none s = true
allows (some t) s = s == t

unfoldable pub payload_matches : Fields → Fields → Bool
unfolding nested value_eq
payload_matches payload end = true
payload_matches payload (field path expected rest) =
    value_eq (nested payload path) expected && payload_matches payload rest

-- `match_workflow_event`
unfoldable pub match_event : WorkflowEvent → WorkflowEventPredicate → Bool
unfolding payload_matches
match_event e p =
    if leb e.version p.after_version
    then false
    else if not (allows p.source e.source)
    then false
    else if not (allows p.event_type e.event_type)
    then false
    else if not (allows p.subject e.subject)
    then false
    else payload_matches e.payload p.payload_match

pub record EventStore : Type 0 where
  pub events : List WorkflowEvent
  pub by_id : Dict WorkflowEvent
  pub version : ℕ

-- `InMemoryWorkflowEventStore()`
abbrev pub empty_store : EventStore
empty_store = record { events = []; by_id = []; version = 0 }

unfoldable pub matching : WorkflowEventPredicate → List WorkflowEvent → List WorkflowEvent
unfolding match_event
matching p [] = []
matching p (e ∷ es) = let rest = matching p es in if match_event e p then e ∷ rest else rest

-- `find_events`: a negative limit is 0
unfoldable pub find_events : EventStore → WorkflowEventPredicate → ℤ → List WorkflowEvent
unfolding matching
find_events s p limit = take (pos_part limit) (matching p s.events)

-- `current_version`
abbrev pub current_version : EventStore → ℕ
current_version s = s.version

module _ (u : Unicode) (text : Value → String) (now : String) where
  -- The version is counted up before the event is made.
  abbrev pub store_event : Result WorkflowEvent → EventStore → Result WorkflowEvent × EventStore
  store_event (err e) s = (err e, record s { version = suc s.version })
  store_event (ok stored) s = (
    ok stored,
    record {
      events = s.events ++ stored ∷ [];
      by_id = put stored.event_id stored s.by_id;
      version = suc s.version;
    },
  )

  abbrev pub append_unless :
      Option WorkflowEvent → EventStore → WorkflowEvent → Result WorkflowEvent × EventStore
  append_unless (some existing) s e = (ok existing, s)
  append_unless none s e = store_event (with_version u text now e (suc s.version)) s

  -- `append_event`
  unfoldable pub append_event : EventStore → WorkflowEvent → Result WorkflowEvent × EventStore
  unfolding with_version
  append_event s e = append_unless (get e.event_id s.by_id) s e
