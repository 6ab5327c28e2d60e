-- ===== src/Controls/Options.antt =====
-- What the verbs of controls.py work out before a record is stored: the record that `record_control`
-- mints, the attempts of `retry`, and the metadata of `decide_call`.
use Prim.Native.String.{◌++◌ as str_append}
use hermes_plugin_dynamic_wo.Prelude.{
  String, Bool, true, false, not, ◌&&◌, Option, none, some, List, [], ◌∷◌, ◌==◌, is_some, last?,
  if◌then◌else◌,
}
use hermes_plugin_dynamic_wo.Python.Int.{ℤ, pos, ltb_ℤ, ◌+ℤ◌}
use hermes_plugin_dynamic_wo.Python.Value.{Value, Fields, obj, end, field}
use hermes_plugin_dynamic_wo.Controls.Records.{
  Action, DecisionKind, ControlError, WorkflowControl, Result, ok, err, guard, ◌>>=◌, ◌>>◌, retry,
  decide_call, edit, respond, action_of, decision_of, needs_target, opt_str, unknown_action,
  empty_run_id, missing_target, bad_decision, missing_input, unexpected_input, missing_value,
  unexpected_value,
}

-- The keyword arguments of `record_control`.
pub record Options : Type 0 where
  pub actor : Option String
  pub reason : Option String
  pub target_ref : Option String
  pub replacement_ref : Option String
  pub attempt : Option ℤ
  pub decision : Option String
  pub control_id : Option String
  pub metadata : Fields

-- What a call takes from outside: a fresh id of `uuid4`, the clock, `str(n)` and the digest of
-- `_short_hash`.
pub record Ambient : Type 0 where
  pub fresh : String
  pub now : String
  pub int_text : ℤ → String
  pub short_hash : String → String → String → String

-- `decision` is a text here: `None` or a known kind for a decide_call, `None` for the rest.
unfoldable pub parse_decision : Action → Option String → Result (Option DecisionKind)
parse_decision decide_call none = err bad_decision
parse_decision decide_call (some d) = elim (decision_of d) [
  | none ↦ err bad_decision
  | some k ↦ ok (some k)
]
parse_decision a none = ok none
parse_decision a (some d) = err ControlError.unexpected_decision

-- `control_id or f"ctl_{...}"`
abbrev pub id_or_fresh : Option String → String → String
id_or_fresh none fresh = fresh
id_or_fresh (some s) fresh = if s == "" then fresh else s

abbrev need_target : Action → Option String → Bool
need_target a t = if needs_target a then is_some (opt_str t) else true

-- The record that `record_control` mints, or its error; nothing is stored yet.
unfoldable pub mint : Ambient → String → String → Options → Result WorkflowControl
unfolding parse_decision action_of
mint w run_id name o = elim (action_of name) [
  | none ↦ err unknown_action
  | some a ↦ do
    guard (not (run_id == "")) empty_run_id
    guard (need_target a o.target_ref) missing_target
    d ← parse_decision a o.decision
    ok (record {
      control_id = id_or_fresh o.control_id (str_append "ctl_" w.fresh);
      run_id = run_id;
      action = a;
      created_at = w.now;
      actor = opt_str o.actor;
      reason = opt_str o.reason;
      target_ref = opt_str o.target_ref;
      replacement_ref = opt_str o.replacement_ref;
      attempt = o.attempt;
      decision = d;
      metadata = o.metadata;
    })
]

abbrev pub no_options : Options
no_options = record {
  actor = none;
  reason = none;
  target_ref = none;
  replacement_ref = none;
  attempt = none;
  decision = none;
  control_id = none;
  metadata = end;
}

-- The arguments that every verb passes on.
pub record Note : Type 0 where
  pub actor : Option String
  pub reason : Option String
  pub metadata : Fields

abbrev pub with_note : Note → Options
with_note n = record no_options { actor = n.actor; reason = n.reason; metadata = n.metadata }

-- `(c.attempt or 0)`, and the largest of them
abbrev pub attempt_or_zero : Option ℤ → ℤ
attempt_or_zero none = pos 0
attempt_or_zero (some n) = n

abbrev pub max_ℤ : ℤ → ℤ → ℤ
max_ℤ a b = if ltb_ℤ a b then b else a

unfoldable pub max_attempt : ℤ → List WorkflowControl → ℤ
max_attempt m [] = m
max_attempt m (c ∷ cs) = max_attempt (max_ℤ m (attempt_or_zero c.attempt)) cs

abbrev pub is_retry : Action → Bool
is_retry retry = true
is_retry _ = false

abbrev pub names_target : Option String → String → Bool
names_target none t = false
names_target (some s) t = s == t

abbrev pub is_retry_of : String → WorkflowControl → Bool
is_retry_of t c = is_retry c.action && names_target c.target_ref t

-- `[c for c in ... if c.action == "retry" and c.target_ref == target]`
unfoldable pub retries_of : String → List WorkflowControl → List WorkflowControl
retries_of t [] = []
retries_of t (c ∷ cs) = let rest = retries_of t cs in if is_retry_of t c then c ∷ rest else rest

abbrev pub next_attempt : List WorkflowControl → ℤ
next_attempt [] = pos 1
next_attempt (c ∷ cs) = max_attempt (attempt_or_zero c.attempt) cs +ℤ pos 1

-- `_opt_str(replacement_ref) or f"{target}#retry{attempt}"`
abbrev pub replacement_or_default : Option String → String → String
replacement_or_default none d = d
replacement_or_default (some r) d = r

-- The options of the attempt that `retry` records.
abbrev pub retry_options : Ambient → String → String → Option String → Note → ℤ → Options
retry_options w run_id target replacement n attempt =
    let text = w.int_text attempt in
    record (with_note n) {
      target_ref = some target;
      replacement_ref = some (
          replacement_or_default (opt_str replacement)
            (str_append target (str_append "#retry" text)));
      attempt = some attempt;
      control_id = some (str_append "ctl_retry_" (w.short_hash run_id target text));
    }

-- `prior[-1]` where there is one and `force` is not set
abbrev pub reused : Bool → List WorkflowControl → Option WorkflowControl
reused force prior = if force then none else last? prior

-- `metadata` of a decision: the input of an edit, the value of a respond.
unfoldable pub decision_metadata : DecisionKind → Option Fields → Option Value → Result Fields
decision_metadata edit none v = err missing_input
decision_metadata edit (some i) none = ok (field "input" (obj i) end)
decision_metadata edit (some i) (some v) = err unexpected_value
decision_metadata respond (some i) v = err unexpected_input
decision_metadata respond none none = err missing_value
decision_metadata respond none (some v) = ok (field "value" v end)
decision_metadata d (some i) v = err unexpected_input
decision_metadata d none (some v) = err unexpected_value
decision_metadata d none none = ok end
