-- ===== src/Grants/Resolve/Within.antt =====
-- What `_audit_issued_grant` and `_sanitize_issued_grant` of grants.py vouch for.
use hermes_plugin_dynamic_wo.Prelude.{
  String, ◌≡◌, refl, Bool, true, false, not, ◌&&◌, inl, inr, Option, none, some, List, [], ◌∷◌,
  ◌==◌, arith, member, All, if◌then◌else◌, eq_iff, Bool-cases,
}
use hermes_plugin_dynamic_wo.Python.Float.{is_finite, flt, fle, zero_float}
use hermes_plugin_dynamic_wo.Python.Fields.{get-put_field}
use hermes_plugin_dynamic_wo.Python.Value.{str, obj, get_field}
use hermes_plugin_dynamic_wo.Grants.Credentials.{find_raw_credential}
use hermes_plugin_dynamic_wo.Grants.Records.{Problem, Platform, GrantRequest, SessionGrant, granted}
use hermes_plugin_dynamic_wo.Grants.Codec.{to_dict}
use hermes_plugin_dynamic_wo.Grants.Resolve.{
  beyond, sanitize, time_problem, ttl_of, audit_issued, check_credential, check_scope, check_class,
  check_interval, check_rest,
}

-- The grant stays within the request: same subject, id and side effect, no further action, a
-- finite and positive validity of at most the requested time, and not revoked.
pub record IsWithin (p : Platform) (r : GrantRequest) (g : SessionGrant) : Type 0 where
  pub subject : g.subject ≡ r.subject
  pub request_id : g.request_id ≡ r.request_id
  pub scope : All (λ a. member a r.scope ≡ true) g.scope
  pub side_effect_class : g.side_effect_class ≡ r.side_effect_class
  pub finite_start : is_finite g.issued_at_epoch ≡ true
  pub finite_end : is_finite g.expires_at_epoch ≡ true
  pub positive : fle (ttl_of p g) zero_float ≡ false
  pub bounded : flt r.ttl_seconds (ttl_of p g) ≡ false
  pub status : g.status ≡ granted

-- The audit names the request's own requester and reason.
pub record HasProvenance (r : GrantRequest) (g : SessionGrant) : Type 0 where
  pub requested_by : get_field "requested_by" g.audit ≡ some (str r.requested_by)
  pub reason : get_field "reason" g.audit ≡ some (str r.reason)

pub beyond-nil :
    (wanted scope : List String)
    → beyond wanted scope ≡ []
    → All (λ a. member a wanted ≡ true) scope
unfolding beyond
beyond-nil wanted [] h = tt
beyond-nil wanted (a ∷ as') h = elim (Bool-cases (member a wanted)) [
  | inl e ↦ (e, beyond-nil wanted as' (rw e at h))
  | inr e ↦ let more = rw e at h in cc
]

pub sanitize-HasProvenance : (g : SessionGrant) (r : GrantRequest) → HasProvenance r (sanitize g r)
unfolding sanitize
sanitize-HasProvenance g r = record {
  requested_by = rw get-put_field (rw get-put_field refl);
  reason = rw get-put_field refl;
}

module _ (p : Platform) where
  rest_none :
      (g : SessionGrant) (r : GrantRequest)
      → check_rest p g r ≡ none
      → (flt r.ttl_seconds (ttl_of p g) ≡ false) × (g.status ≡ granted)
  rest_none g r h = ground arith

  pub time_none :
      (g : SessionGrant)
      → time_problem p g ≡ none
      → (is_finite g.issued_at_epoch ≡ true)
        × (is_finite g.expires_at_epoch ≡ true)
        × (fle (ttl_of p g) zero_float ≡ false)
  unfolding time_problem
  time_none g h =
      times (is_finite g.issued_at_epoch) (is_finite g.expires_at_epoch) (is_finite (ttl_of p g))
        (fle (ttl_of p g) zero_float) h
    where
      times :
          (a b c d : Bool)
          → (if not (a && b && c)
              then some Problem.not_finite
              else if d
              then some Problem.not_positive
              else none)
            ≡ none
          → (a ≡ true) × (b ≡ true) × (d ≡ false)
      times true true true false h = (refl, refl, refl)
      times true true true true h = cc
      times true true false d h = cc
      times true false c d h = cc
      times false b c d h = cc

  interval_none :
      (g : SessionGrant) (r : GrantRequest) (o : Option Problem)
      → check_interval p o g r ≡ none
      → (o ≡ none) × (check_rest p g r ≡ none)
  interval_none g r none h = (refl, h)
  interval_none g r (some e) h = cc

  class_none :
      (g : SessionGrant) (r : GrantRequest)
      → check_class p g r ≡ none
      → (g.side_effect_class ≡ r.side_effect_class)
        × (check_interval p (time_problem p g) g r ≡ none)
  class_none g r h = ground arith

  scope_none :
      (g : SessionGrant) (r : GrantRequest) (more : List String)
      → check_scope p more g r ≡ none
      → (more ≡ []) × (check_class p g r ≡ none)
  scope_none g r [] h = (refl, h)
  scope_none g r (a ∷ as') h = cc

  credential_none :
      (g : SessionGrant) (r : GrantRequest) (o : Option String)
      → check_credential p o g r ≡ none
      → (o ≡ none)
        × (g.subject ≡ r.subject)
        × (g.request_id ≡ r.request_id)
        × (check_scope p (beyond r.scope g.scope) g r ≡ none)
  credential_none g r (some k) h = cc
  credential_none g r none h = elim (Bool-cases (g.subject == r.subject)) [
    | inr e ↦ let bad = rw e at h in cc
    | inl e ↦ elim (Bool-cases (g.request_id == r.request_id)) [
      | inr k ↦ let bad = rw (e, k) at h in cc
      | inl k ↦ (
        refl,
        (eq_iff g.subject r.subject).0 e,
        (eq_iff g.request_id r.request_id).0 k,
        rw (e, k) at h,
      )
    ]
  ]

  -- An audit that finds no fault vouches for the grant.
  pub audit-IsWithin :
      (g : SessionGrant) (r : GrantRequest)
      → audit_issued p g r ≡ none
      → IsWithin p r g × (find_raw_credential p.unicode (obj (to_dict g)) ≡ none)
  unfolding audit_issued
  audit-IsWithin g r h =
      let (clean, subject, request_id, h₁) =
        credential_none g r (find_raw_credential p.unicode (obj (to_dict g))) h in
      let (scope, h₂) = scope_none g r (beyond r.scope g.scope) h₁ in
      let (class', h₃) = class_none g r h₂ in
      let (time, h₄) = interval_none g r (time_problem p g) h₃ in
      let (start, end', positive) = time_none g time in
      let (bounded, status) = rest_none g r h₄ in
      (
        record {
          subject = subject;
          request_id = request_id;
          scope = beyond-nil r.scope g.scope scope;
          side_effect_class = class';
          finite_start = start;
          finite_end = end';
          positive = positive;
          bounded = bounded;
          status = status;
        },
        clean,
      )

  pub sanitize-IsWithin :
      (g : SessionGrant) (r : GrantRequest) → IsWithin p r g → IsWithin p r (sanitize g r)
  unfolding sanitize
  sanitize-IsWithin g r h = record {
    subject = h.subject;
    request_id = h.request_id;
    scope = h.scope;
    side_effect_class = h.side_effect_class;
    finite_start = h.finite_start;
    finite_end = h.finite_end;
    positive = h.positive;
    bounded = h.bounded;
    status = h.status;
  }
