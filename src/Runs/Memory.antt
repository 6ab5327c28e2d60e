-- ===== src/Runs/Memory.antt =====
-- `InMemoryRunStore` of registry.py: the records by their run ids. The record that `create` and `get`
-- hand out is the store's own; what a caller does to it is not modelled.
pub mod Updates
use Prim.Native.Char.{Char, code}
use Prim.Native.String
use hermes_plugin_dynamic_wo.Prelude.{
  ℕ, ◌+◌, String, Bool, true, false, ◌&&◌, ◌||◌, Option, none, some, List, [], leb, nat_eq,
  if◌then◌else◌,
}
use hermes_plugin_dynamic_wo.Prelude.Dict.{Dict, get, put, values}
pub use hermes_plugin_dynamic_wo.Prelude.Except.{Except, ok, err, ◌>>=◌, ◌>>◌, guard}
use hermes_plugin_dynamic_wo.Python.Value.{Fields}
use hermes_plugin_dynamic_wo.Python.Text.{all_chars, text_length, is_ascii_alnum}
use hermes_plugin_dynamic_wo.Runs.Records.{RunRecord, StepStatus, apply_status, upsert_step}

pub data Problem : Type 0 where
  unsafe_session_id already_exists run_not_found : Problem

abbrev pub RunStore : Type 0
RunStore = Dict RunRecord

abbrev is_id_char : Char → Bool
is_id_char c =
    is_ascii_alnum c || nat_eq (code c) b'_' || nat_eq (code c) b'.' || nat_eq (code c) b'-'

-- `_RUN_ID_RE.fullmatch(s)`
unfoldable pub is_safe_id : String → Bool
unfolding all_chars
is_safe_id String.[] = false
is_safe_id (String.◌∷◌ c s) = is_ascii_alnum c && leb (text_length s) 127 && all_chars is_id_char s

-- `InMemoryRunStore(session_id)`, with `_require_safe_session_id`
unfoldable pub new_store : Option String → Except Problem RunStore
unfolding is_safe_id
new_store none = ok []
new_store (some session_id) = do guard (is_safe_id session_id) unsafe_session_id; ok []

-- The record that `create` makes.
abbrev pub new_record : String → String → String → RunRecord
new_record run_id def_hash now = record {
  run_id = run_id;
  def_hash = def_hash;
  status = "queued";
  created_at = now;
  updated_at = now;
  steps = [];
  result = none;
  error = none;
}

abbrev pub create_new :
    Option RunRecord → RunRecord → RunStore → Except Problem (RunRecord × RunStore)
create_new none r s = ok (r, put r.run_id r s)
create_new (some old) r s = err already_exists

-- `create`
unfoldable pub create : String → String → String → RunStore → Except Problem (RunRecord × RunStore)
create run_id def_hash now s = create_new (get run_id s) (new_record run_id def_hash now) s

-- A change of a record that is there, else RunNotFound.
abbrev pub change :
    String → (RunRecord → RunRecord) → Option RunRecord → RunStore → Except Problem RunStore
change run_id f none s = err run_not_found
change run_id f (some r) s = ok (put run_id (f r) s)

-- `set_status`
unfoldable pub set_status :
    String → String → String → Option Fields → Option Fields → RunStore → Except Problem RunStore
unfolding apply_status
set_status run_id now status result error s =
    change run_id (apply_status now status result error) (get run_id s) s

-- `update_step`
unfoldable pub update_step : String → String → StepStatus → RunStore → Except Problem RunStore
unfolding upsert_step
update_step run_id now step s = change run_id (upsert_step now step) (get run_id s) s
