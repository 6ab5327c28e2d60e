-- ===== src/Controls/Codec.antt =====
-- `WorkflowControl.to_dict` and `from_dict` of controls.py.
use hermes_plugin_dynamic_wo.Prelude.{
  String, ◌≡◌, refl, true, false, Option, none, some, ◌==◌, is_some, if◌then◌else◌,
}
use hermes_plugin_dynamic_wo.Python.Int.{ℤ}
use hermes_plugin_dynamic_wo.Python.Value.{
  Value, Fields, null, int, str, obj, end, field, get_field, get_or_null, truthy,
}
use hermes_plugin_dynamic_wo.Controls.Records.{
  Action, DecisionKind, ControlError, WorkflowControl, Result, ok, err, ◌>>=◌, decide_call,
  action_of, action_name, decision_of, decision_name, not_an_object, unknown_action,
  missing_control_id, missing_run_id, bad_attempt, bad_decision, unexpected_decision, opt_str,
}

abbrev opt_text : Option String → Value
opt_text none = null
opt_text (some s) = str s

abbrev opt_int : Option ℤ → Value
opt_int none = null
opt_int (some n) = int n

abbrev opt_decision : Option DecisionKind → Value
opt_decision none = null
opt_decision (some d) = str (decision_name d)

-- `asdict(self)`
unfoldable pub to_dict : WorkflowControl → Fields
to_dict c = field "control_id" (str c.control_id) (
    field "run_id" (str c.run_id) (
      field "action" (str (action_name c.action)) (
        field "created_at" (str c.created_at) (
          field "actor" (opt_text c.actor) (
            field "reason" (opt_text c.reason) (
              field "target_ref" (opt_text c.target_ref) (
                field "replacement_ref" (opt_text c.replacement_ref) (
                  field "attempt" (opt_int c.attempt) (
                    field "decision" (opt_decision c.decision)
                      (field "metadata" (obj c.metadata) end))))))))))

-- A text that is not empty, or the error.
abbrev pub need_text : ControlError → Value → Result String
need_text e (str s) = if s == "" then err e else ok s
need_text e _ = err e

abbrev read_action : Value → Result Action
read_action (str s) = elim (action_of s) [ none ↦ err unknown_action | some a ↦ ok a ]
read_action _ = err unknown_action

abbrev read_attempt : Value → Result (Option ℤ)
read_attempt null = ok none
read_attempt (int n) = ok (some n)
read_attempt _ = err bad_attempt

abbrev known_decision : Value → Option DecisionKind
known_decision (str s) = decision_of s
known_decision _ = none

abbrev read_decision : Action → Value → Result (Option DecisionKind)
read_decision decide_call v = elim (known_decision v) [
  | none ↦ err bad_decision
  | some d ↦ ok (some d)
]
read_decision a null = ok none
read_decision a _ = err unexpected_decision

abbrev read_metadata : Value → Fields
read_metadata (obj d) = d
read_metadata _ = end

-- `text` is `str(x)` of a value that is no text, `now` is `utc_now_iso()`.
module _ (text : Value → String) (now : String) where
  -- `_opt_str`
  abbrev read_opt : Value → Option String
  read_opt null = none
  read_opt (str s) = opt_str (some s)
  read_opt v = opt_str (some (text v))

  -- `str(data.get("created_at") or utc_now_iso())`
  abbrev pub read_time : Value → String
  read_time (str s) = if s == "" then now else s
  read_time v = if truthy v then text v else now

  unfoldable pub from_dict : Value → Result WorkflowControl
  unfolding action_of decision_of truthy
  from_dict (obj data') = do
    action ← read_action (get_or_null "action" data')
    control_id ← need_text missing_control_id (get_or_null "control_id" data')
    run_id ← need_text missing_run_id (get_or_null "run_id" data')
    attempt ← read_attempt (get_or_null "attempt" data')
    decision ← read_decision action (get_or_null "decision" data')
    ok (record {
      control_id = control_id;
      run_id = run_id;
      action = action;
      created_at = read_time (get_or_null "created_at" data');
      actor = read_opt (get_or_null "actor" data');
      reason = read_opt (get_or_null "reason" data');
      target_ref = read_opt (get_or_null "target_ref" data');
      replacement_ref = read_opt (get_or_null "replacement_ref" data');
      attempt = attempt;
      decision = decision;
      metadata = read_metadata (get_or_null "metadata" data');
    })
  from_dict v = err not_an_object

-- The records that `record_control` mints: no empty text, a decision just for decide_call.
abbrev pub IsText : Option String → Type 0
IsText none = Unit
IsText (some s) = (s == "") ≡ false

abbrev pub Decides : Action → Option DecisionKind → Type 0
Decides decide_call d = is_some d ≡ true
Decides a d = is_some d ≡ false

pub record IsWellFormed (c : WorkflowControl) : Type 0 where
  pub control_id : (c.control_id == "") ≡ false
  pub run_id : (c.run_id == "") ≡ false
  pub created_at : (c.created_at == "") ≡ false
  pub actor : IsText c.actor
  pub reason : IsText c.reason
  pub target_ref : IsText c.target_ref
  pub replacement_ref : IsText c.replacement_ref
  pub decision : Decides c.action c.decision

opt_str-IsText : (o : Option String) → IsText o → opt_str o ≡ o
opt_str-IsText none h = refl
opt_str-IsText (some s) h = rw h refl

module _ (text : Value → String) (now : String) where
  read_opt_text : (o : Option String) → IsText o → read_opt text now (opt_text o) ≡ o
  read_opt_text none h = refl
  read_opt_text (some s) h = opt_str-IsText (some s) h

  read_action_name : (a : Action) → read_action (str (action_name a)) ≡ ok a
  unfolding action_of
  read_action_name Action.pause = refl
  read_action_name _ = refl

  read_opt_decision :
      (a : Action) (d : Option DecisionKind) → Decides a d → read_decision a (opt_decision d) ≡ ok d
  unfolding decision_of
  read_opt_decision decide_call none h = cc
  read_opt_decision decide_call (some DecisionKind.approve) h = refl
  read_opt_decision decide_call (some _) h = refl
  read_opt_decision _ none h = refl
  read_opt_decision _ (some d) h = cc

  read_opt_int : (n : Option ℤ) → read_attempt (opt_int n) ≡ ok n
  read_opt_int none = refl
  read_opt_int (some n) = refl

  -- A well-formed record is read back as it was written.
  pub from_dict-to_dict :
      (c : WorkflowControl) → IsWellFormed c → from_dict text now (obj (to_dict c)) ≡ ok c
  unfolding from_dict to_dict get_field
  from_dict-to_dict c h = rw (read_action_name c.action) (
      rw (h.control_id, h.run_id, h.created_at, read_opt_int c.attempt)
        (rw (read_opt_decision c.action c.decision h.decision) (
          rw
            (
              read_opt_text c.actor h.actor,
              read_opt_text c.reason h.reason,
              read_opt_text c.target_ref h.target_ref,
              read_opt_text c.replacement_ref h.replacement_ref,
            )
            refl)))
