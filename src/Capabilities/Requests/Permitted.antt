-- ===== src/Capabilities/Requests/Permitted.antt =====
-- What `_enforce_policy` of capabilities.py lets pass.
use hermes_plugin_dynamic_wo.Prelude.{
  String, ◌≡◌, ◌↔◌, refl, Bool, true, false, not, ◌||◌, Option, none, some, List, member, ◌⊎◌, inl,
  inr,
}
use hermes_plugin_dynamic_wo.Prelude.Except.{>>-eq-ok_iff, guard-eq-ok_iff}
use hermes_plugin_dynamic_wo.Python.Value.{
  Value, Fields, null, bool, int, float, str, arr, obj, cls, get_or_null,
}
use hermes_plugin_dynamic_wo.Grants.Broker.{has_class}
use hermes_plugin_dynamic_wo.Capabilities.Records.{
  ok, guard, WorkflowCapability, CapabilityPolicy, capability_denied, capability_side_effect_denied,
  capability_approval_required,
}
use hermes_plugin_dynamic_wo.Capabilities.Requests.{is_allowed_name, is_approved, enforce_policy}

-- The policy allows the call.
abbrev pub NameAllowed : Option (List String) → String → Type 0
NameAllowed none name = Unit
NameAllowed (some names) name = member name names ≡ true

pub record IsPermitted {S : Type 0} (c : WorkflowCapability S) (request : Fields)
    (policy : CapabilityPolicy) : Type 0 where
  pub name : NameAllowed policy.allowed_names c.name
  pub class' : has_class c.side_effect_class policy.allowed_side_effect_classes ≡ true
  pub approval :
      (has_class c.side_effect_class policy.approval_required_classes ≡ false)
      ⊎ ((id : String) × (get_or_null "approval_id" request ≡ str id)
          × (member id policy.approved_approval_ids ≡ true))

allowed_iff :
    (o : Option (List String)) (name : String)
    → (is_allowed_name o name ≡ true) ↔ NameAllowed o name
allowed_iff none name = (λ h. tt, λ h. refl)
allowed_iff (some names) name = (λ h. h, λ h. h)

approved_text :
    (ids : List String) (v : Value)
    → is_approved ids v ≡ true
    → (id : String) × (v ≡ str id) × (member id ids ≡ true)
approved_text ids (str s) h = (s, refl, h)
approved_text ids null h = cc
approved_text ids (bool b) h = cc
approved_text ids (int n) h = cc
approved_text ids (float x) h = cc
approved_text ids (arr xs) h = cc
approved_text ids (obj d) h = cc
approved_text ids (cls c) h = cc

module _ {S : Type 0} (c : WorkflowCapability S) (request : Fields)
    (policy : CapabilityPolicy) where
  approval_iff :
      (b : Bool)
      → ((not b || is_approved policy.approved_approval_ids (get_or_null "approval_id" request))
          ≡ true)
        ↔ ((b ≡ false)
            ⊎ ((id : String) × (get_or_null "approval_id" request ≡ str id)
                × (member id policy.approved_approval_ids ≡ true)))
  approval_iff false = (λ h. inl refl, λ h. refl)
  approval_iff true =
      (λ h. inr (approved_text _ _ h), λ h. elim h [ inl e ↦ cc | inr (id, e, m) ↦ rw e m ])

  -- The policy passes exactly where it allows the call.
  pub enforce_policy_iff : (enforce_policy c request policy ≡ ok tt) ↔ IsPermitted c request policy
  unfolding enforce_policy
  enforce_policy_iff = (
    λ h.
        let (a, h1) =
          (>>-eq-ok_iff (guard (is_allowed_name policy.allowed_names c.name) capability_denied) _).0
            h in
        let (b, d) =
          (>>-eq-ok_iff
              (guard (has_class c.side_effect_class policy.allowed_side_effect_classes)
                capability_side_effect_denied)
              _).0
            h1 in
        record {
          name =
              (allowed_iff policy.allowed_names c.name).0
                ((guard-eq-ok_iff _ capability_denied).0 a);
          class' = (guard-eq-ok_iff _ capability_side_effect_denied).0 b;
          approval = (approval_iff _).0 ((guard-eq-ok_iff _ capability_approval_required).0 d);
        },
    λ k.
        (>>-eq-ok_iff (guard (is_allowed_name policy.allowed_names c.name) capability_denied) _).1 (
          (guard-eq-ok_iff _ capability_denied).1
              ((allowed_iff policy.allowed_names c.name).1 k.name),
          (>>-eq-ok_iff
                (guard (has_class c.side_effect_class policy.allowed_side_effect_classes)
                  capability_side_effect_denied)
                _).1
              (
                (guard-eq-ok_iff _ capability_side_effect_denied).1 k.class',
                (guard-eq-ok_iff _ capability_approval_required).1 ((approval_iff _).1 k.approval),
              ),
        ),
  )
