-- ===== src/Grants/Resolve/Sound.antt =====
-- What a positive answer of `resolve_grant` of grants.py vouches for, and that it fails closed.
use hermes_plugin_dynamic_wo.Prelude.{
  String, ◌≡◌, refl, Bool, true, false, not, ◌⊎◌, inl, inr, Option, none, some, List, [], ◌∷◌, ◌==◌,
  if◌then◌else◌,
}
use hermes_plugin_dynamic_wo.Python.Float.{flt}
use hermes_plugin_dynamic_wo.Python.Value.{obj}
use hermes_plugin_dynamic_wo.Grants.Credentials.{find_raw_credential}
use hermes_plugin_dynamic_wo.Grants.Records.{
  Problem, Result, ok, err, Platform, GrantRequest, SessionGrant, grant_error, overflow_error,
}
use hermes_plugin_dynamic_wo.Grants.Codec.{to_dict, normalize_session_grant}
use hermes_plugin_dynamic_wo.Grants.Resolve.{
  Answer, GrantDecision, Reason, Save, issued, nothing, given, saved, beyond, sanitize,
  time_problem, ttl_of, audit_issued, check_credential, check_scope, check_interval, resolve_grant,
  persist, settle, examine, answered, raised_grant_error, raised_other, other_object, decision,
  is_granted_status, same_side_effect,
}
use hermes_plugin_dynamic_wo.Grants.Resolve.Within.{
  IsWithin, HasProvenance, sanitize-HasProvenance, audit-IsWithin, sanitize-IsWithin,
}

module _ (p : Platform) where
  -- A fault that was found is a refusal.
  abbrev IsRefusal : Option GrantDecision → Type 0
  IsRefusal none = Unit
  IsRefusal (some d) = d.is_granted ≡ false

  if-IsRefusal :
      (b : Bool) (x y : Option GrantDecision)
      → IsRefusal x
      → IsRefusal y
      → IsRefusal (if b then x else y)
  if-IsRefusal true x y h k = h
  if-IsRefusal false x y h k = k

  interval-IsRefusal :
      (o : Option Problem) (g : SessionGrant) (r : GrantRequest)
      → IsRefusal (check_interval p o g r)
  interval-IsRefusal (some e) g r = refl
  interval-IsRefusal none g r =
      if-IsRefusal (flt r.ttl_seconds (ttl_of p g)) _ _ refl
        (if-IsRefusal (is_granted_status g.status) _ _ tt refl)

  scope-IsRefusal :
      (more : List String) (g : SessionGrant) (r : GrantRequest)
      → IsRefusal (check_scope p more g r)
  scope-IsRefusal (a ∷ as') g r = refl
  scope-IsRefusal [] g r =
      if-IsRefusal (same_side_effect g.side_effect_class r.side_effect_class) _ _
        (interval-IsRefusal (time_problem p g) g r) refl

  credential-IsRefusal :
      (o : Option String) (g : SessionGrant) (r : GrantRequest)
      → IsRefusal (check_credential p o g r)
  credential-IsRefusal (some k) g r = refl
  credential-IsRefusal none g r = if-IsRefusal (not (g.subject == r.subject)) _ _ refl (
      if-IsRefusal (not (g.request_id == r.request_id)) _ _ refl
        (scope-IsRefusal (beyond r.scope g.scope) g r))

  audit-IsRefusal : (g : SessionGrant) (r : GrantRequest) → IsRefusal (audit_issued p g r)
  unfolding audit_issued
  audit-IsRefusal g r = credential-IsRefusal (find_raw_credential p.unicode (obj (to_dict g))) g r

  module _ {S : Type 0} where
    -- The store, if there is one, took the grant and left the state `s'`.
    abbrev pub IsSaved : Save S → SessionGrant → S → S → Type 0
    IsSaved none g s s' = s' ≡ s
    IsSaved (some f) g s s' = f g s ≡ (true, s')

    -- There is a store; it raised on the grant and left the state `s'`.
    abbrev pub IsRejected : Save S → SessionGrant → S → S → Type 0
    IsRejected none g s s' = ⊥
    IsRejected (some f) g s s' = f g s ≡ (false, s')

    -- A refusal before the store is called, a refusal because the store raised, or a grant.
    abbrev pub Outcome : Save S → GrantRequest → S → GrantDecision × S → Type 0
    Outcome save r s (d, s') =
        ((d.is_granted ≡ false)
          × ((s' ≡ s)
              ⊎ ((d.code ≡ "store_error")
                  × (d.grant ≡ nothing)
                  × ((g : SessionGrant) × IsWithin p r g
                      × HasProvenance r g
                      × IsRejected save g s s'))))
        ⊎ ((d.is_granted ≡ true)
            × ((g : SessionGrant) × (d.grant ≡ issued g)
                × IsWithin p r g
                × HasProvenance r g
                × IsSaved save g s s'))

    stored-Outcome :
        (f : SessionGrant → S → Bool × S) (code : String) (reason : Reason) (g : SessionGrant)
        (r : GrantRequest) (s : S) (o : Bool × S)
        → f g s ≡ o
        → IsWithin p r g
        → HasProvenance r g
        → Outcome (some f) r s (
            saved p o
              (record { is_granted = true; code = code; reason = reason; grant = issued g }))
    stored-Outcome f code reason g r s (false, s') e w v =
        inl (refl, inr (refl, refl, (g, w, v, e)))
    stored-Outcome f code reason g r s (true, s') e w v = inr (refl, (g, refl, w, v, e))

    persist-Outcome :
        (save : Save S) (code reason : String) (g : SessionGrant) (r : GrantRequest) (s : S)
        → IsWithin p r g
        → HasProvenance r g
        → Outcome save r s (persist p save code reason g s)
    persist-Outcome none code reason g r s w v = inr (refl, (g, refl, w, v, refl))
    persist-Outcome (some f) code reason g r s w v =
        stored-Outcome f code (given reason) g r s (f g s) refl w v

    settle-Outcome :
        (save : Save S) (code reason : String) (o : Option GrantDecision) (g : SessionGrant)
        (r : GrantRequest) (s : S)
        → IsRefusal o
        → (o ≡ none → IsWithin p r g)
        → Outcome save r s (settle p save code reason o g r s)
    settle-Outcome save code reason (some d) g r s f w = inl (f, inl refl)
    settle-Outcome save code reason none g r s f w =
        persist-Outcome save code reason (sanitize g r) r s (sanitize-IsWithin p g r (w refl))
          (sanitize-HasProvenance g r)

    examine-Outcome :
        (save : Save S) (code reason : String) (o : Result SessionGrant) (r : GrantRequest) (s : S)
        → Outcome save r s (examine p save code reason o r s)
    examine-Outcome save code reason (err (grant_error e)) r s = inl (refl, inl refl)
    examine-Outcome save code reason (err overflow_error) r s = inl (refl, inl refl)
    examine-Outcome save code reason (ok g) r s =
        settle-Outcome save code reason (audit_issued p g r) g r s (audit-IsRefusal g r)
          (λ e. (audit-IsWithin p g r e).0)

    answered-Outcome :
        (save : Save S) (a : Answer) (r : GrantRequest) (s : S)
        → Outcome save r s (answered p save a r s)
    answered-Outcome save (raised_grant_error e) r s = inl (refl, inl refl)
    answered-Outcome save raised_other r s = inl (refl, inl refl)
    answered-Outcome save other_object r s = inl (refl, inl refl)
    answered-Outcome save (decision false code reason g) r s = inl (refl, inl refl)
    answered-Outcome save (decision true code reason g) r s =
        examine-Outcome save code reason (normalize_session_grant p g) r s

    -- Whatever the broker and the store do, `resolve_grant` refuses and leaves the store as it was,
    -- or refuses with the code "store_error" because the store raised, on a grant that stays within
    -- the request, and then the state is what the store left, or grants a grant that stays within the
    -- request, names the request's requester and reason in its audit, and is what the store, if there
    -- is one, took.
    pub resolve-Outcome :
        (broker : Option (GrantRequest → Answer)) (r : GrantRequest) (save : Save S) (s : S)
        → Outcome save r s (resolve_grant p broker r save s)
    unfolding resolve_grant
    resolve-Outcome none r save s = inl (refl, inl refl)
    resolve-Outcome (some broker) r save s = answered-Outcome save (broker r) r s
