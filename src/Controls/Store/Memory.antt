-- ===== src/Controls/Store/Memory.antt =====
-- `InMemoryControlStore` of controls.py, and that it keeps the promises of `ControlStore`.
use hermes_plugin_dynamic_wo.Prelude.{
  String, ◌≡◌, refl, ap, ◌∙◌, false, Option, none, some, List, [], ◌∷◌, ◌==◌, arith, Option-cases,
  Bool-cases, eq_refl, inl, inr,
}
use hermes_plugin_dynamic_wo.Prelude.Dict
use hermes_plugin_dynamic_wo.Prelude.Dict.{Dict, get, put, get-put, values-append, put_new}
use hermes_plugin_dynamic_wo.Controls.Records.{WorkflowControl, Result, ok}
use hermes_plugin_dynamic_wo.Controls.Store.Buckets.{IsKeyed, find-values, IsKeyed-put}
use hermes_plugin_dynamic_wo.Controls.Store.Interface.{ControlStore, find_control, stored, extended}

-- run_id -> ordered {control_id: control}
abbrev pub MemoryStore : Type 0
MemoryStore = Dict (Dict WorkflowControl)

-- `self._by_run.get(run_id, {})`
abbrev bucket_of : Option (Dict WorkflowControl) → Dict WorkflowControl
bucket_of none = []
bucket_of (some b) = b

abbrev append_to :
    Option WorkflowControl
    → Dict WorkflowControl
    → WorkflowControl
    → MemoryStore
    → Result WorkflowControl × MemoryStore
append_to (some existing) bucket c s = (ok existing, put c.run_id bucket s)
append_to none bucket c s = (ok c, put c.run_id (put c.control_id c bucket) s)

-- `setdefault` leaves an empty bucket behind for a new run.
unfoldable pub append : MemoryStore → WorkflowControl → Result WorkflowControl × MemoryStore
append s c =
    let bucket = bucket_of (get c.run_id s) in append_to (get c.control_id bucket) bucket c s

abbrev pub view : MemoryStore → String → List WorkflowControl
view s run_id = Dict.values (bucket_of (get run_id s))

unfoldable pub list_for : MemoryStore → String → Result (List WorkflowControl)
list_for s run_id = ok (view s run_id)

-- `runs()`
abbrev pub runs : MemoryStore → List String
runs s = Dict.keys s

abbrev pub IsValid : MemoryStore → Type 0
IsValid [] = Unit
IsValid ((r, b) ∷ s) = IsKeyed b × IsValid s

bucket-IsKeyed : (r : String) (s : MemoryStore) → IsValid s → IsKeyed (bucket_of (get r s))
unfolding get
bucket-IsKeyed r [] h = tt
bucket-IsKeyed r ((j, b) ∷ s) h = elim (Bool-cases (j == r)) [
  | inl same ↦ rw same h.0
  | inr other ↦ rw other (bucket-IsKeyed r s h.1)
]

put-IsValid :
    (r : String) (b : Dict WorkflowControl) (s : MemoryStore)
    → IsKeyed b
    → IsValid s
    → IsValid (put r b s)
unfolding put
put-IsValid r b [] k h = (k, tt)
put-IsValid r b ((j, a) ∷ s) k h = elim (Bool-cases (j == r)) [
  | inl same ↦ rw same (k, h.1)
  | inr other ↦ rw other (h.0, put-IsValid r b s k h.1)
]

pub append_result :
    (s : MemoryStore) (c : WorkflowControl)
    → IsValid s
    → (append s c).0 ≡ ok (stored c (find_control c.control_id (view s c.run_id)))
unfolding append
append_result s c h =
    rw (find-values c.control_id (bucket_of (get c.run_id s)) (bucket-IsKeyed c.run_id s h))
      (ground arith)

pub append-IsValid : (s : MemoryStore) (c : WorkflowControl) → IsValid s → IsValid (append s c).1
unfolding append
append-IsValid s c h =
    let b = bucket_of (get c.run_id s) in
    let keyed = bucket-IsKeyed c.run_id s h in
    elim (Option-cases (get c.control_id b)) [
      | inl e ↦ rw e (put-IsValid c.run_id (put c.control_id c b) s (IsKeyed-put c b keyed e) h)
      | inr (old, e) ↦ rw e (put-IsValid c.run_id b s keyed h)
    ]

pub view_append :
    (s : MemoryStore) (c : WorkflowControl)
    → IsValid s
    → view (append s c).1 c.run_id
      ≡ extended c (find_control c.control_id (view s c.run_id)) (view s c.run_id)
unfolding append
view_append s c h =
    let b = bucket_of (get c.run_id s) in
    rw (find-values c.control_id b (bucket-IsKeyed c.run_id s h))
      (elim (Option-cases (get c.control_id b)) [
        | inl e ↦ rw e (
            rw (get-put c.run_id c.run_id (put c.control_id c b) s, eq_refl c.run_id)
              (ap Dict.values (put_new c.control_id c b e)
                ∙ values-append b ((c.control_id, c) ∷ [])))
        | inr (old, e) ↦ rw e (rw (get-put c.run_id c.run_id b s, eq_refl c.run_id) refl)
      ])

pub view_other :
    (s : MemoryStore) (c : WorkflowControl) (r : String)
    → (c.run_id == r) ≡ false
    → view (append s c).1 r ≡ view s r
unfolding append
view_other s c r h =
    let b = bucket_of (get c.run_id s) in
    ground (arith, get-put c.run_id r (put c.control_id c b) s, get-put c.run_id r b s)

pub list_for_view : (s : MemoryStore) (r : String) → list_for s r ≡ ok (view s r)
unfolding list_for
list_for_view s r = refl

-- The in-memory store takes every run id and every record.
abbrev pub memory_store : ControlStore
memory_store = record {
  Store = MemoryStore;
  IsValid = IsValid;
  append = append;
  list_for = list_for;
  view = view;
  IsRun = λ r. Unit;
  IsStorable = λ c. Unit;
  list_for_view = λ s r v u. list_for_view s r;
  append_result = λ s c v u. append_result s c v;
  append-IsValid = append-IsValid;
  view_append = λ s c v u. view_append s c v;
  view_other = view_other;
}
