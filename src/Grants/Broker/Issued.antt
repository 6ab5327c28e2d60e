-- ===== src/Grants/Broker/Issued.antt =====
-- What `StaticPolicyGrantBroker` grants.
use hermes_plugin_dynamic_wo.Prelude.{
  ℕ, suc, String, ◌≡◌, refl, true, false, List, [], ◌∷◌, All, member, Bool-cases, inl, inr,
}
use hermes_plugin_dynamic_wo.Python.Float.{Float, fle, fmin, fadd, zero_float}
use hermes_plugin_dynamic_wo.Python.Value.{Value, obj}
use hermes_plugin_dynamic_wo.Python.Fields.{get-put_field}
use hermes_plugin_dynamic_wo.Grants.Records.{
  Platform, Result, ok, err, grant_error, overflow_error, GrantRequest, SessionGrant, granted,
}
use hermes_plugin_dynamic_wo.Grants.Checks.{safe_grant_id, require_number}
use hermes_plugin_dynamic_wo.Grants.Codec.{to_dict}
use hermes_plugin_dynamic_wo.Grants.Resolve.{Answer, decision, beyond}
use hermes_plugin_dynamic_wo.Grants.Resolve.Within.{HasProvenance, beyond-nil}
use hermes_plugin_dynamic_wo.Grants.Broker.{
  StaticPolicy, has_class, issued_grant, with_id, with_clock, with_scope, call_broker,
}

-- A grant that the policy allows for the request, from the time on for the shorter of the two spans.
pub record IsIssued (p : Platform) (policy : StaticPolicy) (clock : Value) (r : GrantRequest)
    (g : SessionGrant) : Type 0 where
  pub scope : All (λ a. member a policy.allowed_scope ≡ true) g.scope
  pub asked : g.scope ≡ r.scope
  pub class' : has_class g.side_effect_class policy.allowed_side_effect_classes ≡ true
  pub subject : g.subject ≡ r.subject
  pub request_id : g.request_id ≡ r.request_id
  pub start : require_number p clock ≡ ok g.issued_at_epoch
  pub span :
      g.expires_at_epoch
      ≡ fadd p.rounding g.issued_at_epoch (fmin r.ttl_seconds policy.max_ttl_seconds)
  pub positive : fle (fmin r.ttl_seconds policy.max_ttl_seconds) zero_float ≡ false
  pub provenance : HasProvenance r g
  pub status : g.status ≡ granted

module _ (p : Platform) (iso : Float → String) (policy : StaticPolicy) (clock : Value)
    (mint : ℕ → Value) (r : GrantRequest) where
  -- The answer refuses, is an OverflowError, or hands over a grant that the policy allows.
  abbrev pub Answered : Result Answer → Type 0
  Answered (ok (decision true code reason v)) =
      (g : SessionGrant) × (v ≡ obj (to_dict g)) × IsIssued p policy clock r g
  Answered _ = Unit

  module _ (allowed : has_class r.side_effect_class policy.allowed_side_effect_classes ≡ true)
      (scope : All (λ a. member a policy.allowed_scope ≡ true) r.scope)
      (positive : fle (fmin r.ttl_seconds policy.max_ttl_seconds) zero_float ≡ false) where
    grant-IsIssued :
        (grant_id : String) (now : Float)
        → require_number p clock ≡ ok now
        → IsIssued p policy clock r
            (issued_grant p iso policy grant_id now (fmin r.ttl_seconds policy.max_ttl_seconds) r)
    unfolding issued_grant
    grant-IsIssued grant_id now h = record {
      scope = scope;
      asked = refl;
      class' = allowed;
      subject = refl;
      request_id = refl;
      start = h;
      span = refl;
      positive = positive;
      provenance = record {
        requested_by = rw (get-put_field, get-put_field, get-put_field) refl;
        reason = rw (get-put_field, get-put_field) refl;
      };
      status = refl;
    }

    id-Answered :
        (o : Result String) (now : Float)
        → require_number p clock ≡ ok now
        → Answered (with_id p iso policy o now (fmin r.ttl_seconds policy.max_ttl_seconds) r)
    id-Answered (err (grant_error e)) now h = tt
    id-Answered (err overflow_error) now h = tt
    id-Answered (ok grant_id) now h = (_, refl, grant-IsIssued grant_id now h)

    clock-Answered :
        (n : ℕ) (o : Result Float)
        → require_number p clock ≡ o
        → Answered
            (with_clock p iso policy o mint (fmin r.ttl_seconds policy.max_ttl_seconds) r n).0
    clock-Answered n (err (grant_error e)) h = tt
    clock-Answered n (err overflow_error) h = tt
    clock-Answered n (ok now) h = id-Answered (safe_grant_id p (mint (suc n))) now h

  scope-Answered :
      (n : ℕ) (more : List String)
      → has_class r.side_effect_class policy.allowed_side_effect_classes ≡ true
      → beyond policy.allowed_scope r.scope ≡ more
      → Answered (with_scope p iso policy more clock mint r n).0
  scope-Answered n (a ∷ as') allowed h = tt
  scope-Answered n [] allowed h =
      elim (Bool-cases (fle (fmin r.ttl_seconds policy.max_ttl_seconds) zero_float)) [
        | inl e ↦ rw e tt
        | inr e ↦ rw e (
            clock-Answered allowed (beyond-nil policy.allowed_scope r.scope h) e n
              (require_number p clock) refl)
      ]

  -- Whatever the clock and the id factory give, a grant that the broker hands over has the scope that
  -- was asked, all of it allowed, an allowed class, the request's subject, id, requester and reason,
  -- and ends, as sums are rounded, the shorter of the asked and the allowed time after the clock.
  pub call_broker-Answered : (n : ℕ) → Answered (call_broker p iso policy clock mint r n).0
  unfolding call_broker
  call_broker-Answered n =
      elim (Bool-cases (has_class r.side_effect_class policy.allowed_side_effect_classes)) [
        | inl e ↦ rw e (scope-Answered n (beyond policy.allowed_scope r.scope) e refl)
        | inr e ↦ rw e tt
      ]
