-- ===== src/Grants/Broker.antt =====
-- `StaticPolicyGrantBroker` of grants.py. The clock, the id factory and `_epoch_to_iso`, for epochs that
-- a datetime can hold, are arguments.
pub mod Issued
use Prim.Native.String.{◌++◌ as str_append}
use hermes_plugin_dynamic_wo.Prelude.{
  ℕ, suc, String, ◌≡◌, refl, Bool, true, false, ◌&&◌, ◌||◌, Option, none, some, List, [], ◌∷◌,
  Bool-cases, inl, inr, if◌then◌else◌,
}
use hermes_plugin_dynamic_wo.Python.Float.{Float, is_finite, flt, fle, fmin, fadd, zero_float}
use hermes_plugin_dynamic_wo.Python.Value.{
  Value, Fields, null, int, float, str, obj, end, put_field,
}
use hermes_plugin_dynamic_wo.Grants.Records.{
  Problem, Raised, Result, ok, err, guard, ◌>>=◌, ◌>>◌, Platform, SideEffect, GrantHandle,
  GrantRequest, SessionGrant, granted, grant_error, overflow_error, bad_ttl, not_positive,
}
use hermes_plugin_dynamic_wo.Grants.Checks.{safe_backend, safe_grant_id, to_float, require_number}
use hermes_plugin_dynamic_wo.Grants.Codec.{to_dict}
use hermes_plugin_dynamic_wo.Grants.Resolve.{Answer, decision, beyond, same_side_effect}

-- cls in classes
unfoldable pub has_class : SideEffect → List SideEffect → Bool
has_class c [] = false
has_class c (d ∷ ds) = same_side_effect d c || has_class c ds

pub record StaticPolicy : Type 0 where
  pub allowed_scope : List String
  pub max_ttl_seconds : Float
  pub allowed_side_effect_classes : List SideEffect
  pub backend : String

module _ (p : Platform) where
  abbrev read_max : Value → Result Float
  read_max (int n) = to_float p (int n)
  read_max (float x) = to_float p (float x)
  read_max v = err (grant_error bad_ttl)

  -- `StaticPolicyGrantBroker(...)`, of a scope and classes that are lists
  unfoldable pub make_broker : List String → Value → List SideEffect → Value → Result StaticPolicy
  unfolding to_float
  make_broker scope max_ttl classes backend = do
    most ← read_max max_ttl
    guard (flt zero_float most && is_finite most) (grant_error not_positive)
    backend ← safe_backend p backend
    ok (record {
      allowed_scope = scope;
      max_ttl_seconds = most;
      allowed_side_effect_classes = classes;
      backend = backend;
    })

  module _ (iso : Float → String) (policy : StaticPolicy) where
    abbrev handle_of : String → GrantRequest → GrantHandle
    handle_of grant_id r = record {
      backend = policy.backend;
      session_id = some (str_append "sess-" grant_id);
      work_context_id = some r.subject;
      handle_ref = some (str_append policy.backend (str_append ":" grant_id));
      extra = end;
    }

    -- The grant that is issued.
    unfoldable pub issued_grant : String → Float → Float → GrantRequest → SessionGrant
    unfolding fadd put_field
    issued_grant grant_id now ttl r = record {
      grant_id = grant_id;
      request_id = r.request_id;
      scope = r.scope;
      side_effect_class = r.side_effect_class;
      subject = r.subject;
      issued_at = iso now;
      expires_at = iso (fadd p.rounding now ttl);
      issued_at_epoch = now;
      expires_at_epoch = fadd p.rounding now ttl;
      backend = policy.backend;
      handle = some (handle_of grant_id r);
      audit = put_field "policy_max_ttl_seconds" (float policy.max_ttl_seconds) (
          put_field "reason" (str r.reason)
            (put_field "requested_by" (str r.requested_by) r.audit));
      status = granted;
    }

    abbrev refused : String → String → Answer
    refused code reason = decision false code reason null

    abbrev with_id : Result String → Float → Float → GrantRequest → Result Answer
    with_id (err (grant_error e)) now ttl r = ok (refused "malformed" "grant id")
    with_id (err overflow_error) now ttl r = err overflow_error
    with_id (ok grant_id) now ttl r = ok (
        decision true "granted" "issued by static policy"
          (obj (to_dict (issued_grant grant_id now ttl r))))

    -- Behind the clock the counter is raised, and `mint` of it gives the id that is checked.
    abbrev with_clock : Result Float → (ℕ → Value) → Float → GrantRequest → ℕ → Result Answer × ℕ
    with_clock (err (grant_error e)) mint ttl r n = (ok (refused "malformed" "broker clock"), n)
    with_clock (err overflow_error) mint ttl r n = (err overflow_error, n)
    with_clock (ok now) mint ttl r n = (with_id (safe_grant_id p (mint (suc n))) now ttl r, suc n)

    abbrev with_ttl : Float → Value → (ℕ → Value) → GrantRequest → ℕ → Result Answer × ℕ
    with_ttl ttl clock mint r n =
        if fle ttl zero_float
        then (ok (refused "denied_ttl" "effective ttl is not positive"), n)
        else with_clock (require_number p clock) mint ttl r n

    abbrev with_scope : List String → Value → (ℕ → Value) → GrantRequest → ℕ → Result Answer × ℕ
    with_scope (a ∷ as') clock mint r n =
        (ok (refused "denied_scope" "requested scope outside policy"), n)
    with_scope [] clock mint r n =
        with_ttl (fmin r.ttl_seconds policy.max_ttl_seconds) clock mint r n

    -- `__call__`, with the counter before and after; the texts of its reasons are shortened
    unfoldable pub call_broker : Value → (ℕ → Value) → GrantRequest → ℕ → Result Answer × ℕ
    unfolding has_class beyond require_number issued_grant to_dict
    call_broker clock mint r n =
        if has_class r.side_effect_class policy.allowed_side_effect_classes
        then with_scope (beyond policy.allowed_scope r.scope) clock mint r n
        else (ok (refused "denied_class" "side_effect_class is not permitted by policy"), n)
