-- ===== src/Grants/Validate/Sound.antt =====
-- `validate_grant` of grants.py accepts exactly the grants that are usable at the clock.
use mathlib.Core.Path.{subst}
use hermes_plugin_dynamic_wo.Prelude.{
  String, ◌≡◌, refl, sym, ◌↔◌, Bool, true, false, Option, none, some, List, member, if◌then◌else◌,
  Bool-cases, inl, inr, ◌⊎◌,
}
use hermes_plugin_dynamic_wo.Python.Float.{Float, fle}
use hermes_plugin_dynamic_wo.Python.Value.{Value, obj}
use hermes_plugin_dynamic_wo.Grants.Credentials.{find_raw_credential}
use hermes_plugin_dynamic_wo.Grants.Credentials.Clean.{IsClean, find-none_iff}
use hermes_plugin_dynamic_wo.Grants.Records.{
  Problem, Result, ok, err, Platform, SessionGrant, Status, granted, grant_error, overflow_error,
}
use hermes_plugin_dynamic_wo.Grants.Checks.{require_number}
use hermes_plugin_dynamic_wo.Grants.Codec.{to_dict, normalize_session_grant}
use hermes_plugin_dynamic_wo.Grants.Resolve.{time_problem}
use hermes_plugin_dynamic_wo.Grants.Validate.{
  GrantValidation, validate_grant, read_clock, check_action, check_expiry, check_status, check_time,
  check_grant,
}
use hermes_plugin_dynamic_wo.Grants.Validate.Clock.{
  IsClock, IsClock-iff, clock_overflow, unread_grant,
}

abbrev pub InScope : Option String → List String → Type 0
InScope none scope = Unit
InScope (some a) scope = member a scope ≡ true

-- The grant may be used for the action at the clock.
pub record IsUsable (p : Platform) (g : SessionGrant) (clock : Float) (action : Option String)
    : Type 0 where
  pub interval : time_problem p g ≡ none
  pub clean : IsClean p.unicode (obj (to_dict g))
  pub status : g.status ≡ granted
  pub unexpired : fle g.expires_at_epoch clock ≡ false
  pub in_scope : InScope action g.scope

module _ (p : Platform) where
  action_iff :
      (action : Option String) (g : SessionGrant)
      → ((check_action action g).is_ok ≡ true) ↔ InScope action g.scope
  action_iff none g = (λ h. tt, λ h. refl)
  action_iff (some a) g = elim (Bool-cases (member a g.scope)) [
    | inl e ↦ rw e (λ h. refl, λ h. refl)
    | inr e ↦ rw e (λ h. cc, λ h. cc)
  ]

  if_denied :
      {Q : Type 0} (b : Bool) (x y : GrantValidation)
      → x.is_ok ≡ false
      → ((y.is_ok ≡ true) ↔ Q)
      → ((if b then x else y).is_ok ≡ true) ↔ ((b ≡ false) × Q)
  if_denied true x y e q = (λ h. cc, λ h. cc)
  if_denied false x y e q = (λ h. (refl, q.0 h), λ h. q.1 h.1)

  expiry_iff :
      (clock : Float) (action : Option String) (g : SessionGrant)
      → ((check_expiry clock action g).is_ok ≡ true)
        ↔ ((fle g.expires_at_epoch clock ≡ false) × InScope action g.scope)
  expiry_iff clock action g =
      if_denied (fle g.expires_at_epoch clock) _ (check_action action g) refl (action_iff action g)

  -- The call returns, and accepts exactly where `Q` holds.
  abbrev Decides : Result GrantValidation → Type 0 → Type 0
  Decides m Q = (r : GrantValidation) × (m ≡ ok r) × ((r.is_ok ≡ true) ↔ Q)

  status_decides :
      (o : Option String) (now : Value) (wall clock : Float) (action : Option String)
      (g : SessionGrant)
      → read_clock p now wall ≡ ok clock
      → Decides (check_status p o now wall action g) (
          (o ≡ none)
          × (g.status ≡ granted)
          × (fle g.expires_at_epoch clock ≡ false)
          × InScope action g.scope)
  status_decides (some k) now wall clock action g h = (_, refl, (λ e. cc, λ q. cc))
  status_decides none now wall clock action g h = by_status g.status refl
    where
      by_status :
          (s : Status)
          → g.status ≡ s
          → Decides (check_status p none now wall action g) (
              (◌≡◌ {A = Option String} none none)
              × (g.status ≡ granted)
              × (fle g.expires_at_epoch clock ≡ false)
              × InScope action g.scope)
      by_status Status.revoked e = rw e (_, refl, (λ k. cc, λ q. cc))
      by_status Status.granted e =
          let (to, from) = expiry_iff clock action g in
          (
            check_expiry clock action g,
            rw (e, h) refl,
            (λ k. (refl, e, (to k).0, (to k).1), λ q. from (q.2, q.3)),
          )

  time_decides :
      (o : Option Problem) (now : Value) (wall clock : Float) (action : Option String)
      (g : SessionGrant)
      → read_clock p now wall ≡ ok clock
      → o ≡ time_problem p g
      → Decides (check_time p o now wall action g) (IsUsable p g clock action)
  time_decides (some e) now wall clock action g h t =
      (_, refl, (λ k. cc, λ q. let none' = q.interval in cc))
  time_decides none now wall clock action g h t =
      let found = find_raw_credential p.unicode (obj (to_dict g)) in
      let (r, e, iff) = status_decides found now wall clock action g h in
      (
        r,
        e,
        (
          λ k.
              let (none', status, unexpired, in_scope) = iff.0 k in
              record {
                interval = sym t;
                clean = (find-none_iff p.unicode (obj (to_dict g))).0 none';
                status = status;
                unexpired = unexpired;
                in_scope = in_scope;
              },
          λ q. iff.1 (
            (find-none_iff p.unicode (obj (to_dict g))).1 q.clean,
            q.status,
            q.unexpired,
            q.in_scope,
          ),
        ),
      )

  grant_decides :
      (o : Result SessionGrant) (now : Value) (wall clock : Float) (action : Option String)
      → read_clock p now wall ≡ ok clock
      → Decides
          (check_grant p o now wall action)
          ((g : SessionGrant) × (o ≡ ok g) × IsUsable p g clock action)
  grant_decides (err (grant_error e)) now wall clock action h =
      (_, refl, (λ k. cc, λ q. let bad = q.1 in cc))
  grant_decides (err overflow_error) now wall clock action h =
      (_, refl, (λ k. cc, λ q. let bad = q.1 in cc))
  grant_decides (ok g) now wall clock action h =
      let (r, e, iff) = time_decides (time_problem p g) now wall clock action g h refl in
      (
        r,
        e,
        (
          λ k. (g, refl, iff.0 k),
          λ q. iff.1 (subst (λ x. IsUsable p x clock action) (same g q.0 q.1) q.2),
        ),
      )
    where
      same : (a b : SessionGrant) → ◌≡◌ {A = Result SessionGrant} (ok a) (ok b) → b ≡ a
      same a b e = cc

  -- The input is a grant that may be used for the action at the call's clock.
  abbrev pub MayUse : Result SessionGrant → Value → Float → Option String → Type 0
  MayUse o now wall action =
      (clock : Float) × (g : SessionGrant) × IsClock p now wall clock
      × (o ≡ ok g)
      × IsUsable p g clock action

  grant_verdict :
      (o : Result SessionGrant) (now : Value) (wall : Float) (action : Option String)
      (c : Result Float)
      → read_clock p now wall ≡ c
      → Decides (check_grant p o now wall action) (MayUse o now wall action)
        ⊎ ((check_grant p o now wall action ≡ err overflow_error)
            × (require_number p now ≡ err overflow_error))
  grant_verdict o now wall action (ok clock) h =
      let (r, e, iff) = grant_decides o now wall clock action h in
      inl (
        r,
        e,
        (
          λ k.
              let (g, parsed, usable) = iff.0 k in
              (clock, g, (IsClock-iff p now wall clock).0 h, parsed, usable),
          λ (clock', g, is, parsed, usable).
              let read = (IsClock-iff p now wall clock').1 is in
              let same : clock' ≡ clock = cc in
              iff.1 (g, parsed, subst (λ x. IsUsable p g x action) same usable),
        ),
      )
  grant_verdict o now wall action (err e) h = elim (unread_grant p o now wall action e h) [
    | inl (r, k, denied) ↦ inl (
      r,
      k,
      (
        λ yes_ok. cc,
        λ (clock, g, is, parsed, usable). let read = (IsClock-iff p now wall clock).1 is in cc,
      ),
    )
    | inr (raised, overflow) ↦ inr (raised, clock_overflow p now wall (rw overflow at h))
  ]

  -- On every input and every clock, `validate_grant` either returns, and then it accepts exactly
  -- where the clock is the machine's or a number that was given, and the input parses to a grant with
  -- a sound validity interval, no credential anywhere in it, not revoked, not expired at the clock,
  -- and with the action, if one is asked, in its scope; or it raises OverflowError, and then the
  -- given clock is an integer too large for a float.
  pub validate_iff :
      (v now : Value) (action : Option String) (wall : Float)
      → ((r : GrantValidation) × (validate_grant p v action now wall ≡ ok r)
          × ((r.is_ok ≡ true) ↔ (
              (clock : Float) × (g : SessionGrant) × IsClock p now wall clock
              × (normalize_session_grant p v ≡ ok g)
              × IsUsable p g clock action)))
        ⊎ ((validate_grant p v action now wall ≡ err overflow_error)
            × (require_number p now ≡ err overflow_error))
  unfolding validate_grant
  validate_iff v now action wall =
      grant_verdict (normalize_session_grant p v) now wall action (read_clock p now wall) refl
