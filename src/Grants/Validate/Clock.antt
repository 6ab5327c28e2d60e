-- ===== src/Grants/Validate/Clock.antt =====
-- The clock of `validate_grant` of grants.py, and what becomes of a call whose clock cannot be read.
use hermes_plugin_dynamic_wo.Prelude.{
  String, ◌≡◌, refl, ◌↔◌, false, Option, none, some, inl, inr, ◌⊎◌,
}
use hermes_plugin_dynamic_wo.Python.Float.{Float}
use hermes_plugin_dynamic_wo.Python.Value.{Value, null, bool, int, float, str, arr, obj, cls}
use hermes_plugin_dynamic_wo.Grants.Credentials.{find_raw_credential}
use hermes_plugin_dynamic_wo.Grants.Records.{
  Problem, Raised, Result, ok, err, Platform, SessionGrant, Status, grant_error, overflow_error,
}
use hermes_plugin_dynamic_wo.Grants.Checks.{require_number}
use hermes_plugin_dynamic_wo.Grants.Codec.{to_dict}
use hermes_plugin_dynamic_wo.Grants.Resolve.{time_problem}
use hermes_plugin_dynamic_wo.Grants.Validate.{
  GrantValidation, read_clock, check_clock, check_status, check_time, check_grant,
}

module _ (p : Platform) where
  -- The clock of a call: the machine's where none is given, else the number that is given.
  abbrev pub IsClock : Value → Float → Float → Type 0
  IsClock now wall clock = ((now ≡ null) × (clock ≡ wall)) ⊎ (require_number p now ≡ ok clock)

  no_number : {x : Float} → require_number p null ≡ ok x → ⊥
  unfolding require_number
  no_number h = cc

  null-IsClock_iff :
      (wall clock : Float) → (read_clock p null wall ≡ ok clock) ↔ IsClock null wall clock
  null-IsClock_iff wall clock = (
    λ h. inl (refl, cc),
    λ k. elim k [ inl (e, same) ↦ rw same refl | inr h ↦ absurd (no_number h) ],
  )

  given-IsClock_iff :
      (now : Value) (wall clock : Float)
      → (now ≡ null → ⊥)
      → (require_number p now ≡ ok clock) ↔ IsClock now wall clock
  given-IsClock_iff now wall clock given =
      (λ h. inr h, λ k. elim k [ inl (e, same) ↦ absurd (given e) | inr h ↦ h ])

  pub IsClock-iff :
      (now : Value) (wall clock : Float)
      → (read_clock p now wall ≡ ok clock) ↔ IsClock now wall clock
  IsClock-iff null wall clock = null-IsClock_iff wall clock
  IsClock-iff (bool b) wall clock = given-IsClock_iff _ wall clock (λ e. cc)
  IsClock-iff (int n) wall clock = given-IsClock_iff _ wall clock (λ e. cc)
  IsClock-iff (float x) wall clock = given-IsClock_iff _ wall clock (λ e. cc)
  IsClock-iff (str s) wall clock = given-IsClock_iff _ wall clock (λ e. cc)
  IsClock-iff (arr xs) wall clock = given-IsClock_iff _ wall clock (λ e. cc)
  IsClock-iff (obj d) wall clock = given-IsClock_iff _ wall clock (λ e. cc)
  IsClock-iff (cls c) wall clock = given-IsClock_iff _ wall clock (λ e. cc)

  pub clock_overflow :
      (now : Value) (wall : Float)
      → read_clock p now wall ≡ err overflow_error
      → require_number p now ≡ err overflow_error
  clock_overflow null wall h = cc
  clock_overflow (bool b) wall h = h
  clock_overflow (int n) wall h = h
  clock_overflow (float x) wall h = h
  clock_overflow (str s) wall h = h
  clock_overflow (arr xs) wall h = h
  clock_overflow (obj d) wall h = h
  clock_overflow (cls c) wall h = h

  -- The call refuses, or it raises the error of the clock.
  abbrev pub Refuses : Result GrantValidation → Raised → Type 0
  Refuses m e =
      ((r : GrantValidation) × (m ≡ ok r) × (r.is_ok ≡ false))
      ⊎ ((m ≡ err overflow_error) × (e ≡ overflow_error))

  unread_clock :
      (e : Raised) (action : Option String) (g : SessionGrant)
      → Refuses (check_clock p (err e) action g) e
  unread_clock (grant_error e) action g = inl (_, refl, refl)
  unread_clock overflow_error action g = inr (refl, refl)

  unread_status :
      (o : Option String) (now : Value) (wall : Float) (action : Option String) (g : SessionGrant)
      (e : Raised)
      → read_clock p now wall ≡ err e
      → Refuses (check_status p o now wall action g) e
  unread_status (some k) now wall action g e h = inl (_, refl, refl)
  unread_status none now wall action g e h = by_status g.status refl
    where
      by_status : (s : Status) → g.status ≡ s → Refuses (check_status p none now wall action g) e
      by_status Status.revoked k = rw k (inl (_, refl, refl))
      by_status Status.granted k = rw (k, h) (unread_clock e action _)

  pub unread_grant :
      (o : Result SessionGrant) (now : Value) (wall : Float) (action : Option String) (e : Raised)
      → read_clock p now wall ≡ err e
      → Refuses (check_grant p o now wall action) e
  unread_grant (err (grant_error e')) now wall action e h = inl (_, refl, refl)
  unread_grant (err overflow_error) now wall action e h = inl (_, refl, refl)
  unread_grant (ok g) now wall action e h = by_time (time_problem p g)
    where
      by_time : (t : Option Problem) → Refuses (check_time p t now wall action g) e
      by_time (some t) = inl (_, refl, refl)
      by_time none =
          unread_status (find_raw_credential p.unicode (obj (to_dict g))) now wall action g e h
