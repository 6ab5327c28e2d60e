-- ===== src/Capabilities/Registry/Guarded.antt =====
-- When a handler is called, and what its result may be.
use mathlib.Core.Path.{subst}
use hermes_plugin_dynamic_wo.Prelude.{
  ℕ, ◌≤◌, String, ◌≡◌, refl, Option, none, some, leb, leb→le, Bool-cases, ◌⊎◌, inl, inr,
}
use hermes_plugin_dynamic_wo.Prelude.Dict.{Dict}
use hermes_plugin_dynamic_wo.Python.Value.{Value, Fields, obj, end}
use hermes_plugin_dynamic_wo.Python.Text.{Unicode}
use hermes_plugin_dynamic_wo.Grants.Records.{SideEffect}
use hermes_plugin_dynamic_wo.Capabilities.Records.{
  Refusal, Result, ok, err, Answer, denied, raised, returned, WorkflowCapability, CapabilityPolicy,
  capability_credential,
}
use hermes_plugin_dynamic_wo.Capabilities.Clip.{clip_fields}
use hermes_plugin_dynamic_wo.Capabilities.Clip.Bound.{FieldsClipped, clip_fields-FieldsClipped}
use hermes_plugin_dynamic_wo.Capabilities.Requests.{find_request_credential, enforce_policy}
use hermes_plugin_dynamic_wo.Capabilities.Registry.{
  check_size, bound_result, prepare, finalize_result, get_capability, judge, enforced, scanned,
  with_input, context_of, run_found, run_capability,
}
use hermes_plugin_dynamic_wo.Capabilities.Requests.Permitted.{IsPermitted, enforce_policy_iff}

module _ (u : Unicode) (size : Value → Option ℕ) where
  -- A result that was returned fits: its text, and every stream in it.
  pub record Fits (policy : CapabilityPolicy) (d : Fields) : Type 0 where
    pub bytes : ℕ
    pub measured : size (obj d) ≡ some bytes
    pub small : bytes ≤ policy.max_result_bytes
    pub streams : FieldsClipped policy.max_stream_bytes d

  check_size-Fits :
      (o : Option ℕ) (policy : CapabilityPolicy) (b d : Fields)
      → size (obj b) ≡ o
      → FieldsClipped policy.max_stream_bytes b
      → check_size u size o policy.max_result_bytes b ≡ ok d
      → Fits policy d
  check_size-Fits none policy b d e h k = cc
  check_size-Fits (some n) policy b d e h k = elim (Bool-cases (leb n policy.max_result_bytes)) [
    | inr f ↦ let bad = rw f at k in cc
    | inl f ↦
        let fits : Fits policy b = record {
          bytes = n;
          measured = e;
          small = leb→le n policy.max_result_bytes f;
          streams = h;
        } in
        subst (λ x. Fits policy x) (same (rw f at k)) fits
  ]
    where
      same : {x y : Fields} → ◌≡◌ {A = Result Fields} (ok x) (ok y) → x ≡ y
      same q = cc

  bound-Fits :
      (b : Fields) (policy : CapabilityPolicy) (d : Fields)
      → bound_result u size b policy ≡ ok d
      → Fits policy d
  unfolding bound_result
  bound-Fits b policy d h =
      check_size-Fits _ policy (clip_fields policy.max_stream_bytes b end) d refl
        (clip_fields-FieldsClipped policy.max_stream_bytes b) h

  finalize-Fits :
      (v : Value) (class' : SideEffect) (policy : CapabilityPolicy) (d : Fields)
      → finalize_result u size v class' policy ≡ ok d
      → Fits policy d
  unfolding finalize_result
  finalize-Fits v class' policy d h = bound-Fits (prepare u size v class') policy d h

  -- An error, or a result that fits.
  abbrev pub Judged : CapabilityPolicy → Result Fields → Type 0
  Judged policy (err e) = Unit
  Judged policy (ok d) = Fits policy d

  finalize-Judged :
      (v : Value) (class' : SideEffect) (policy : CapabilityPolicy) (o : Result Fields)
      → finalize_result u size v class' policy ≡ o
      → Judged policy o
  finalize-Judged v class' policy (err e) h = tt
  finalize-Judged v class' policy (ok d) h = finalize-Fits v class' policy d h

  module _ {S : Type 0} where
    judge-Judged :
        (c : WorkflowCapability S) (policy : CapabilityPolicy) (a : Answer)
        → Judged policy (judge u size c policy a)
    judge-Judged c policy (denied code) = tt
    judge-Judged c policy (raised name) = tt
    judge-Judged c policy (returned v) = finalize-Judged v c.side_effect_class policy _ refl

    module _ (name : Value) (request : Fields) (policy : CapabilityPolicy) (run : Fields)
        (registry : Dict (WorkflowCapability S)) (s : S) where
      -- How a call may end: it is refused and nothing is done, or the handler of the capability of that
      -- name is called once, for a request that is permitted and carries no credential.
      abbrev pub Outcome : Result Fields × S → Type 0
      Outcome (o, s') =
          ((e : Refusal) × (o ≡ err e) × (s' ≡ s))
          ⊎ ((c : WorkflowCapability S) × (get_capability u size name registry ≡ ok c)
              × (find_request_credential u (with_input request) ≡ none)
              × IsPermitted c request policy
              × (s' ≡ (c.handler (context_of u size c request run) s).1)
              × Judged policy o)

      enforced-Outcome :
          (c : WorkflowCapability S) (o : Result (Unit {0}))
          → get_capability u size name registry ≡ ok c
          → find_request_credential u (with_input request) ≡ none
          → enforce_policy c request policy ≡ o
          → Outcome (enforced u size o c request run policy s)
      enforced-Outcome c (err e) found clean h = inl (e, refl, refl)
      enforced-Outcome c (ok tt) found clean h = inr (
        c,
        found,
        clean,
        (enforce_policy_iff c request policy).0 h,
        refl,
        judge-Judged c policy _,
      )

      scanned-Outcome :
          (c : WorkflowCapability S) (o : Option String)
          → get_capability u size name registry ≡ ok c
          → find_request_credential u (with_input request) ≡ o
          → Outcome (scanned u size o c request run policy s)
      scanned-Outcome c (some k) found h = inl (capability_credential k, refl, refl)
      scanned-Outcome c none found h =
          enforced-Outcome c (enforce_policy c request policy) found h refl

      found-Outcome :
          (o : Result (WorkflowCapability S))
          → get_capability u size name registry ≡ o
          → Outcome (run_found u size o request run policy s)
      found-Outcome (err e) h = inl (e, refl, refl)
      found-Outcome (ok c) h = scanned-Outcome c _ h refl

    -- Whatever is asked, `run` refuses and does nothing, or it calls the handler of the named
    -- capability once, for a request without a credential that the policy permits by name, by class
    -- and, where the class needs it, by an approval; and a result that it then returns has at most
    -- the bytes that the policy sets, and so has every stream in it.
    pub run-Outcome :
        (name : Value) (request : Fields) (policy : CapabilityPolicy) (run : Fields)
        (registry : Dict (WorkflowCapability S)) (s : S)
        → Outcome name request policy run registry s
            (run_capability u size name request policy run registry s)
    unfolding run_capability
    run-Outcome name request policy run registry s =
        found-Outcome name request policy run registry s _ refl
