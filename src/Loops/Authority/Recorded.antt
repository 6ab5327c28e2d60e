-- ===== src/Loops/Authority/Recorded.antt =====
-- The grants that `_handle_actuator_grant` records.
use hermes_plugin_dynamic_wo.Prelude.{
  ℕ, String, ◌≡◌, refl, Bool, true, false, Option, none, some, [], ◌∷◌, ◌++◌, All-append, ◌⊎◌, inl,
  inr, Bool-cases,
}
use hermes_plugin_dynamic_wo.Python.Value.{
  Value, Fields, null, bool, int, float, str, arr, obj, cls, get_or_null, as_str,
}
use hermes_plugin_dynamic_wo.Grants.Records.{
  Platform, SessionGrant, GrantRequest, Result, ok, err, grant_error, overflow_error,
}
use hermes_plugin_dynamic_wo.Grants.Codec.{to_dict}
use hermes_plugin_dynamic_wo.Grants.Resolve.{GrantDecision, issued}
use hermes_plugin_dynamic_wo.Grants.Resolve.Within.{IsWithin, time_none}
use hermes_plugin_dynamic_wo.Grants.Resolve.Sound.{Outcome, resolve-Outcome}
use hermes_plugin_dynamic_wo.Grants.Validate.{GrantValidation}
use hermes_plugin_dynamic_wo.Grants.Validate.Live.{Vouched, VouchedResult, validate-Vouched}
use hermes_plugin_dynamic_wo.Loops.Records.{Message, Denial}
use hermes_plugin_dynamic_wo.Loops.Action.{Suspension}
use hermes_plugin_dynamic_wo.Loops.World.{World, Setup, Run}
use hermes_plugin_dynamic_wo.Loops.World.Kept.{
  IsLive, Kept, Kept-refl, Kept-trans, record_event-Kept,
}
use hermes_plugin_dynamic_wo.Loops.Authority.{
  Handled, record_grant, decided, resolved, requested, scan_request, read_request, judged,
  validated, scan_action, check_suspension, check_envelopes, handle_grant, deny, is_null,
}

module _ {S : Type 0} (p : Platform) (w : World S) (setup : Setup) where
  abbrev pub Keeps : Run S → Handled p w setup → Type 0
  Keeps r (err e) = Unit
  Keeps r (ok (reason, r')) = Kept p r r'

  deny-Keeps :
      (code : String) (reason : Denial) (i : ℕ) (r : Run S)
      → Keeps r (deny p w setup code reason i r)
  deny-Keeps code reason i r = record_event-Kept p w setup _ _ _ _ _ r

  within-IsLive : (r : GrantRequest) (g : SessionGrant) → IsWithin p r g → IsLive p (to_dict g)
  within-IsLive r g h = record {
    grant = g;
    dict = refl;
    status = h.status;
    finite_start = h.finite_start;
    finite_end = h.finite_end;
    positive = h.positive;
  }

  record_grant-Keeps :
      (kind : String) (summary : Message) (code : String) (g : SessionGrant) (i : ℕ) (r : Run S)
      → IsLive p (to_dict g)
      → Keeps r (record_grant p w setup kind summary code g i r)
  record_grant-Keeps kind summary code g i r live =
      let noted =
        record_event-Kept p w setup kind _ i summary _
          (record r { status = record r.status { grants = r.status.grants ++ to_dict g ∷ [] } }) in
      record {
        iterations = noted.iterations;
        actions = noted.actions;
        sensed = noted.sensed;
        finalized = noted.finalized;
        good = λ h. noted.good (record {
          numbered = h.numbered;
          live = All-append (IsLive p) r.status.grants (to_dict g ∷ []) h.live (live, tt);
        });
      }

  decided-Keeps :
      (d : GrantDecision) (i : ℕ) (r : Run S)
      → (d.is_granted ≡ false) ⊎ ((g : SessionGrant) × (d.grant ≡ issued g) × IsLive p (to_dict g))
      → Keeps r (decided p w setup d.is_granted d i r)
  decided-Keeps d i r (inl e) = rw e (deny-Keeps _ _ i r)
  decided-Keeps d i r (inr (g, e, live)) = elim (Bool-cases d.is_granted) [
    | inr k ↦ rw k (deny-Keeps _ _ i r)
    | inl k ↦ rw (k, e) (record_grant-Keeps _ _ _ g i r live)
  ]

  Keeps-outside :
      (r : Run S) (s : S) (o : Handled p w setup) → Keeps (record r { outside = s }) o → Keeps r o
  Keeps-outside r s (err e) h = tt
  Keeps-outside r s (ok (reason, r')) h = Kept-trans p (Kept-refl p r s) h

  resolved-Keeps :
      (q : GrantRequest) (o : GrantDecision × S) (i : ℕ) (r : Run S)
      → Outcome p w.grant_save q r.outside o
      → Keeps r (resolved p w setup o i r)
  resolved-Keeps q (d, s) i r h =
      Keeps-outside r s _ (decided-Keeps d i (record r { outside = s }) (live h))
    where
      live :
          Outcome p w.grant_save q r.outside (d, s)
          → (d.is_granted ≡ false)
            ⊎ ((g : SessionGrant) × (d.grant ≡ issued g) × IsLive p (to_dict g))
      live (inl (e, _)) = inl e
      live (inr (_, (g, e, within, _, _))) = inr (g, e, within-IsLive q g within)

  requested-Keeps :
      (o : Result GrantRequest) (i : ℕ) (r : Run S) → Keeps r (requested p w setup o i r)
  requested-Keeps (err (grant_error e)) i r = deny-Keeps _ _ i r
  requested-Keeps (err overflow_error) i r = tt
  requested-Keeps (ok q) i r =
      resolved-Keeps q _ i r (resolve-Outcome p (w.broker r.outside) q w.grant_save r.outside)

  scan_request-Keeps :
      (o : Option String) (d : Fields) (i : ℕ) (r : Run S)
      → Keeps r (scan_request p w setup o d i r)
  scan_request-Keeps (some k) d i r = deny-Keeps _ _ i r
  scan_request-Keeps none d i r = requested-Keeps _ i r

  read_request-Keeps : (v : Value) (i : ℕ) (r : Run S) → Keeps r (read_request p w setup v i r)
  read_request-Keeps (obj d) i r = scan_request-Keeps _ d i r
  read_request-Keeps null i r = deny-Keeps _ _ i r
  read_request-Keeps (bool b) i r = deny-Keeps _ _ i r
  read_request-Keeps (int n) i r = deny-Keeps _ _ i r
  read_request-Keeps (float x) i r = deny-Keeps _ _ i r
  read_request-Keeps (str s) i r = deny-Keeps _ _ i r
  read_request-Keeps (arr xs) i r = deny-Keeps _ _ i r
  read_request-Keeps (cls c) i r = deny-Keeps _ _ i r

  judged-Keeps :
      (v : GrantValidation) (i : ℕ) (r : Run S)
      → Vouched p v
      → Keeps r (judged p w setup v.is_ok v i r)
  judged-Keeps v i r (inl e) = rw e (deny-Keeps _ _ i r)
  judged-Keeps v i r (inr (g, e, time, status)) = elim (Bool-cases v.is_ok) [
    | inr k ↦ rw k (deny-Keeps _ _ i r)
    | inl k ↦
        let (start, end', positive) = time_none p g time in
        let live : IsLive p (to_dict g) = record {
          grant = g;
          dict = refl;
          status = status;
          finite_start = start;
          finite_end = end';
          positive = positive;
        } in
        rw (k, e) (record_grant-Keeps _ _ _ g i r live)
  ]

  validated-Keeps :
      (o : Result GrantValidation) (i : ℕ) (r : Run S)
      → VouchedResult p o
      → Keeps r (validated p w setup o i r)
  validated-Keeps (err e) i r h = tt
  validated-Keeps (ok v) i r h = judged-Keeps v i r h

  scan_action-Keeps :
      (o : Option String) (action : Fields) (i : ℕ) (r : Run S)
      → Keeps r (scan_action p w setup o action i r)
  scan_action-Keeps (some k) action i r = deny-Keeps _ _ i r
  scan_action-Keeps none action i r =
      elim (Bool-cases (is_null (get_or_null "grant_request" action))) [
        | inl e ↦ rw e (
            validated-Keeps _ i r (
              validate-Vouched p (get_or_null "grant" action)
                (as_str (get_or_null "grant_action" action)) null (w.wall r.outside)))
        | inr e ↦ rw e (read_request-Keeps _ i r)
      ]

  suspension-Keeps :
      (x : Suspension) (action : Fields) (i : ℕ) (r : Run S)
      → Keeps r (check_suspension p w setup x action i r)
  suspension-Keeps (some x) action i r = deny-Keeps _ _ i r
  suspension-Keeps none action i r = scan_action-Keeps _ action i r

  envelopes-Keeps :
      (a b : Bool) (x : Suspension) (action : Fields) (i : ℕ) (r : Run S)
      → Keeps r (check_envelopes p w setup a b x action i r)
  envelopes-Keeps false false x action i r = Kept-refl p r r.outside
  envelopes-Keeps true true x action i r = deny-Keeps _ _ i r
  envelopes-Keeps true false x action i r = suspension-Keeps x action i r
  envelopes-Keeps false true x action i r = suspension-Keeps x action i r

  pub handle_grant-Keeps :
      (x : Suspension) (action : Fields) (i : ℕ) (r : Run S)
      → Keeps r (handle_grant p w setup x action i r)
  unfolding handle_grant
  handle_grant-Keeps x action i r = envelopes-Keeps _ _ x action i r
