-- ===== src/Controls/Store/Interface.antt =====
-- The protocol `ControlStore` of controls.py, with what its docstring promises: `append` returns
-- the stored record and is a no-op for a known id, `list_for` returns a run's records in order.
use hermes_plugin_dynamic_wo.Prelude.{
  String, false, ◌≡◌, Option, none, some, List, [], ◌∷◌, ◌++◌, ◌==◌, if◌then◌else◌,
}
use hermes_plugin_dynamic_wo.Controls.Records.{WorkflowControl, ok, Result}

-- The first record with the given id.
unfoldable pub find_control : String → List WorkflowControl → Option WorkflowControl
find_control k [] = none
find_control k (c ∷ cs) = if c.control_id == k then some c else find_control k cs

-- What `append` returns and what the run's list becomes, by the record that has the id already.
abbrev pub stored : WorkflowControl → Option WorkflowControl → WorkflowControl
stored c none = c
stored c (some old) = old

abbrev pub extended :
    WorkflowControl → Option WorkflowControl → List WorkflowControl → List WorkflowControl
extended c none cs = cs ++ c ∷ []
extended c (some old) cs = cs

-- A store, its well-formed states, and its view as one list of records for each run.
pub record ControlStore : Type 1 where
  pub Store : Type 0
  pub IsValid : Store → Type 0
  pub append : Store → WorkflowControl → Result WorkflowControl × Store
  pub list_for : Store → String → Result (List WorkflowControl)
  pub view : Store → String → List WorkflowControl
  -- What a run id and a record must satisfy for the store to take them.
  pub IsRun : String → Type 0
  pub IsStorable : WorkflowControl → Type 0
  pub list_for_view : (s : Store) (r : String) → IsValid s → IsRun r → list_for s r ≡ ok (view s r)
  pub append_result :
      (s : Store) (c : WorkflowControl)
      → IsValid s
      → IsStorable c
      → (append s c).0 ≡ ok (stored c (find_control c.control_id (view s c.run_id)))
  pub append-IsValid : (s : Store) (c : WorkflowControl) → IsValid s → IsValid (append s c).1
  pub view_append :
      (s : Store) (c : WorkflowControl)
      → IsValid s
      → IsStorable c
      → view (append s c).1 c.run_id
        ≡ extended c (find_control c.control_id (view s c.run_id)) (view s c.run_id)
  pub view_other :
      (s : Store) (c : WorkflowControl) (r : String)
      → (c.run_id == r) ≡ false
      → view (append s c).1 r ≡ view s r
