-- ===== src/Grants/Validate/Live.antt =====
-- What `validate_grant` says of the grant that it hands back.
use hermes_plugin_dynamic_wo.Prelude.{
  String, ◌≡◌, refl, true, false, Option, none, some, member, ◌⊎◌, inl, inr, Bool-cases,
}
use hermes_plugin_dynamic_wo.Python.Float.{Float, fle}
use hermes_plugin_dynamic_wo.Python.Value.{Value, obj}
use hermes_plugin_dynamic_wo.Grants.Credentials.{find_raw_credential}
use hermes_plugin_dynamic_wo.Grants.Records.{
  Problem, Result, ok, err, Platform, SessionGrant, Status, granted, revoked, grant_error,
  overflow_error,
}
use hermes_plugin_dynamic_wo.Grants.Codec.{to_dict, normalize_session_grant}
use hermes_plugin_dynamic_wo.Grants.Resolve.{time_problem, is_granted_status}
use hermes_plugin_dynamic_wo.Grants.Validate.{
  GrantValidation, check_action, check_expiry, check_clock, check_status, check_time, check_grant,
  read_clock, validate_grant,
}

status-eq-granted : (s : Status) → is_granted_status s ≡ true → s ≡ granted
status-eq-granted granted h = refl
status-eq-granted revoked h = cc

module _ (p : Platform) where
  -- A grant that is handed back as valid is granted, and its times are in order.
  abbrev pub Vouched : GrantValidation → Type 0
  Vouched v =
      (v.is_ok ≡ false)
      ⊎ ((g : SessionGrant) × (v.grant ≡ some g) × (time_problem p g ≡ none) × (g.status ≡ granted))

  abbrev pub VouchedResult : Result GrantValidation → Type 0
  VouchedResult (err e) = Unit
  VouchedResult (ok v) = Vouched v

  module _ (g : SessionGrant) (time : time_problem p g ≡ none) (status : g.status ≡ granted) where
    action-Vouched : (action : Option String) → Vouched (check_action action g)
    action-Vouched none = inr (g, refl, time, status)
    action-Vouched (some a) = elim (Bool-cases (member a g.scope)) [
      | inl e ↦ rw e (inr (g, refl, time, status))
      | inr e ↦ rw e (inl refl)
    ]

    expiry-Vouched :
        (clock : Float) (action : Option String) → Vouched (check_expiry clock action g)
    expiry-Vouched clock action = elim (Bool-cases (fle g.expires_at_epoch clock)) [
      | inl e ↦ rw e (inl refl)
      | inr e ↦ rw e (action-Vouched action)
    ]

    clock-Vouched :
        (o : Result Float) (action : Option String) → VouchedResult (check_clock p o action g)
    clock-Vouched (err (grant_error e)) action = inl refl
    clock-Vouched (err overflow_error) action = tt
    clock-Vouched (ok clock) action = expiry-Vouched clock action

  status-Vouched :
      (o : Option String) (now : Value) (wall : Float) (action : Option String) (g : SessionGrant)
      → time_problem p g ≡ none
      → VouchedResult (check_status p o now wall action g)
  status-Vouched (some k) now wall action g time = inl refl
  status-Vouched none now wall action g time = elim (Bool-cases (is_granted_status g.status)) [
    | inl e ↦
        rw e (clock-Vouched g time (status-eq-granted g.status e) (read_clock p now wall) action)
    | inr e ↦ rw e (inl refl)
  ]

  time-Vouched :
      (o : Option Problem) (now : Value) (wall : Float) (action : Option String) (g : SessionGrant)
      → time_problem p g ≡ o
      → VouchedResult (check_time p o now wall action g)
  time-Vouched (some e) now wall action g time = inl refl
  time-Vouched none now wall action g time =
      status-Vouched (find_raw_credential p.unicode (obj (to_dict g))) now wall action g time

  grant-Vouched :
      (o : Result SessionGrant) (now : Value) (wall : Float) (action : Option String)
      → VouchedResult (check_grant p o now wall action)
  grant-Vouched (err (grant_error e)) now wall action = inl refl
  grant-Vouched (err overflow_error) now wall action = inl refl
  grant-Vouched (ok g) now wall action = time-Vouched (time_problem p g) now wall action g refl

  pub validate-Vouched :
      (v : Value) (action : Option String) (now : Value) (wall : Float)
      → VouchedResult (validate_grant p v action now wall)
  unfolding validate_grant
  validate-Vouched v action now wall = grant-Vouched (normalize_session_grant p v) now wall action
