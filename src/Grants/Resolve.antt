-- ===== src/Grants/Resolve.antt =====
-- `resolve_grant` of grants.py: a broker's answer is checked before it counts as a grant.
pub mod Within
pub mod Sound
use hermes_plugin_dynamic_wo.Prelude.{
  String, Bool, true, false, not, ◌&&◌, Option, none, some, List, [], ◌∷◌, ◌==◌, member,
  if◌then◌else◌, ◌||◌,
}
use hermes_plugin_dynamic_wo.Python.Float.{Float, is_finite, flt, fle, fsub, zero_float}
use hermes_plugin_dynamic_wo.Python.Value.{
  Value, Fields, null, float, str, obj, end, field, put_field,
}
use hermes_plugin_dynamic_wo.Grants.Credentials.{find_raw_credential}
use hermes_plugin_dynamic_wo.Grants.Records.{
  Problem, Raised, Result, ok, err, Platform, SideEffect, Status, GrantRequest, SessionGrant,
  side_effect_name, granted, revoked, grant_error, overflow_error, conversion, raw_credential,
  not_finite, not_positive,
}
use hermes_plugin_dynamic_wo.Grants.Codec.{to_dict, normalize_session_grant}

-- The reason of a decision: text that the broker gave, or what the check saw.
pub data Reason : Type 0 where
  given : String → Reason
  problem : Problem → Reason
  no_broker_configured wrong_subject wrong_request_id wrong_class wider_ttl : Reason
  bad_interval : Problem → Reason
  wider_scope : List String → Reason
  not_granted : Status → Reason
  broker_raised store_raised not_a_decision : Reason

-- What a decision carries: no grant, the object that a refusing broker sent along, or a grant.
pub data Carried : Type 0 where
  nothing : Carried
  raw : Value → Carried
  issued : SessionGrant → Carried

pub record GrantDecision : Type 0 where
  pub is_granted : Bool
  pub code : String
  pub reason : Reason
  pub grant : Carried

-- How a call of the broker ends. The grant of a decision is any object, `null` for None.
pub data Answer : Type 0 where
  raised_grant_error : Problem → Answer
  raised_other : Answer
  other_object : Answer
  decision : Bool → String → String → Value → Answer

abbrev pub refuse : String → Reason → GrantDecision
refuse code reason = record { is_granted = false; code = code; reason = reason; grant = nothing }

-- `_RESERVED_AUDIT_KEYS`
abbrev pub reserved_audit_keys : List String
reserved_audit_keys =
    "requested_by" ∷ "reason" ∷ "policy_max_ttl_seconds" ∷ "run_id" ∷ "def_hash" ∷ "loop_name"
    ∷ "iteration" ∷ []

abbrev pub request_owned_keys : List String
request_owned_keys = "requested_by" ∷ "reason" ∷ "policy_max_ttl_seconds" ∷ []

-- `{k: v for k, v in d.items() if k not in ks}`
unfoldable pub without_keys : List String → Fields → Fields
without_keys ks end = end
without_keys ks (field k v d) =
    let rest = without_keys ks d in if member k ks then rest else field k v rest

-- `for k, v in d.items(): if k not in ks: out[k] = v`
unfoldable pub copy_except : List String → Fields → Fields → Fields
copy_except ks end out = out
copy_except ks (field k v d) out = copy_except ks d (if member k ks then out else put_field k v out)

-- `sorted(set(scope) - set(wanted))`, up to order
unfoldable pub beyond : List String → List String → List String
beyond wanted [] = []
beyond wanted (a ∷ as') = let rest = beyond wanted as' in if member a wanted then rest else a ∷ rest

-- `_sanitize_issued_grant`
unfoldable pub sanitize : SessionGrant → GrantRequest → SessionGrant
unfolding without_keys copy_except
sanitize g r =
    let kept = without_keys reserved_audit_keys g.audit in
    let copied = copy_except request_owned_keys r.audit kept in
    record g {
      audit =
          put_field "reason" (str r.reason) (put_field "requested_by" (str r.requested_by) copied);
    }

abbrev pub same_side_effect : SideEffect → SideEffect → Bool
same_side_effect SideEffect.read_only SideEffect.read_only = true
same_side_effect SideEffect.session_launch SideEffect.session_launch = true
same_side_effect SideEffect.session_control SideEffect.session_control = true
same_side_effect SideEffect.external_write SideEffect.external_write = true
same_side_effect _ _ = false

abbrev pub is_granted_status : Status → Bool
is_granted_status granted = true
is_granted_status revoked = false

-- A store's `save_grant`, where there is a store: `true` where it returned and `false` where it
-- raised, with the state that it leaves, which may have changed either way.
abbrev pub Save : Type 0 → Type 0
Save S = Option (SessionGrant → S → Bool × S)

module _ (p : Platform) where
  -- expires - issued
  abbrev pub ttl_of : SessionGrant → Float
  ttl_of g = fsub p.rounding g.expires_at_epoch g.issued_at_epoch

  -- `_grant_time_problem` of a grant whose epochs are floats
  unfoldable pub time_problem : SessionGrant → Option Problem
  unfolding fsub
  time_problem g =
      if not (is_finite g.issued_at_epoch && is_finite g.expires_at_epoch && is_finite (ttl_of g))
      then some not_finite
      else if fle (ttl_of g) zero_float
      then some not_positive
      else none

  -- The checks of `_audit_issued_grant` behind the credential check and behind the interval check.
  abbrev check_rest : SessionGrant → GrantRequest → Option GrantDecision
  check_rest g r =
      if flt r.ttl_seconds (ttl_of g)
      then some (refuse "denied_ttl" wider_ttl)
      else if is_granted_status g.status
      then none
      else some (refuse "revoked" (not_granted g.status))

  abbrev check_interval : Option Problem → SessionGrant → GrantRequest → Option GrantDecision
  check_interval (some e) g r = some (refuse "malformed" (bad_interval e))
  check_interval none g r = check_rest g r

  abbrev check_class : SessionGrant → GrantRequest → Option GrantDecision
  check_class g r =
      if same_side_effect g.side_effect_class r.side_effect_class
      then check_interval (time_problem g) g r
      else some (refuse "denied_class" wrong_class)

  abbrev check_scope : List String → SessionGrant → GrantRequest → Option GrantDecision
  check_scope [] g r = check_class g r
  check_scope (a ∷ as') g r = some (refuse "denied_scope" (wider_scope (a ∷ as')))

  abbrev check_credential : Option String → SessionGrant → GrantRequest → Option GrantDecision
  check_credential (some k) g r = some (refuse "malformed" (problem (raw_credential k)))
  check_credential none g r =
      if not (g.subject == r.subject)
      then some (refuse "denied_subject" wrong_subject)
      else if not (g.request_id == r.request_id)
      then some (refuse "denied_request_id" wrong_request_id)
      else check_scope (beyond r.scope g.scope) g r

  -- `_audit_issued_grant` of a grant that is there
  unfoldable pub audit_issued : SessionGrant → GrantRequest → Option GrantDecision
  unfolding find_raw_credential beyond time_problem to_dict
  audit_issued g r = check_credential (find_raw_credential p.unicode (obj (to_dict g))) g r

  module _ {S : Type 0} where
    abbrev saved : Bool × S → GrantDecision → GrantDecision × S
    saved (false, s') d = (refuse "store_error" store_raised, s')
    saved (true, s') d = (d, s')

    abbrev persist : Save S → String → String → SessionGrant → S → GrantDecision × S
    persist save code reason g s =
        let d : GrantDecision = record {
          is_granted = true;
          code = code;
          reason = given reason;
          grant = issued g;
        } in
        elim save [ none ↦ (d, s) | some f ↦ saved (f g s) d ]

    abbrev settle :
        Save S
        → String
        → String
        → Option GrantDecision
        → SessionGrant
        → GrantRequest
        → S
        → GrantDecision × S
    settle save code reason (some d) g r s = (d, s)
    settle save code reason none g r s = persist save code reason (sanitize g r) s

    abbrev examine :
        Save S → String → String → Result SessionGrant → GrantRequest → S → GrantDecision × S
    examine save code reason (err (grant_error e)) r s = (refuse "malformed" (problem e), s)
    examine save code reason (err overflow_error) r s = (refuse "malformed" (problem conversion), s)
    examine save code reason (ok g) r s = settle save code reason (audit_issued g r) g r s

    abbrev answered : Save S → Answer → GrantRequest → S → GrantDecision × S
    answered save (raised_grant_error e) r s = (refuse "malformed" (problem e), s)
    answered save raised_other r s = (refuse "broker_error" broker_raised, s)
    answered save other_object r s = (refuse "broker_error" not_a_decision, s)
    answered save (decision false code reason g) r s =
        (record { is_granted = false; code = code; reason = given reason; grant = raw g }, s)
    answered save (decision true code reason g) r s =
        examine save code reason (normalize_session_grant p g) r s

    -- `resolve_grant`
    unfoldable pub resolve_grant :
        Option (GrantRequest → Answer) → GrantRequest → Save S → S → GrantDecision × S
    unfolding normalize_session_grant audit_issued sanitize
    resolve_grant none r save s = (refuse "no_broker" no_broker_configured, s)
    resolve_grant (some broker) r save s = answered save (broker r) r s
