-- ===== src/Events/Records/Made.antt =====
-- `_with_version` changes nothing but the version of an event that the constructor made.
use mathlib.Core.Path.{subst}
use hermes_plugin_dynamic_wo.Prelude.{ℕ, String, ◌≡◌, refl, sym, ap, ◌∙◌, false, ◌==◌, arith}
use hermes_plugin_dynamic_wo.Prelude.Except.{>>=-eq-ok}
use hermes_plugin_dynamic_wo.Python.Value.{Value, null, bool, int, float, str, arr, obj, cls}
use hermes_plugin_dynamic_wo.Python.Text.{Unicode, strip}
use hermes_plugin_dynamic_wo.Python.Text.Strip.{strip_twice}
use hermes_plugin_dynamic_wo.Grants.Credentials.{redacted, looks_like_credential, redact_fields}
use hermes_plugin_dynamic_wo.Grants.Credentials.Redacted.{redact_twice_fields}
use hermes_plugin_dynamic_wo.Events.Records.{
  WorkflowEvent, EventArgs, Result, ok, require_safe_text, require_subject, check_text,
  check_subject, make, require_version, require_payload, with_version,
}

-- What the checks return is their input.
check_text-eq-ok : (name t : String) {s : String} → check_text name t ≡ ok s → t ≡ s
check_text-eq-ok name t h = ground arith

check_subject-eq-ok : (t : String) {s : String} → check_subject t ≡ ok s → t ≡ s
check_subject-eq-ok t h = ground arith

same_event : {d e : WorkflowEvent} → ◌≡◌ {A = Result WorkflowEvent} (ok d) (ok e) → d ≡ e
same_event h = cc

module _ (u : Unicode) where
  -- A text that a check returned passes it again.
  text_again :
      (name : String) (v : Value) {s : String}
      → require_safe_text u name v ≡ ok s
      → require_safe_text u name (str s) ≡ ok s
  unfolding require_safe_text
  text_again name (str t) {s = s} h =
      let e = check_text-eq-ok name (strip u t) h in rw (← e, strip_twice u t) (h ∙ ap ok (sym e))
  text_again name null h = cc
  text_again name (bool b) h = cc
  text_again name (int n) h = cc
  text_again name (float x) h = cc
  text_again name (arr xs) h = cc
  text_again name (obj d) h = cc
  text_again name (cls c) h = cc

  subject_again :
      (v : Value) {s : String} → require_subject u v ≡ ok s → require_subject u (str s) ≡ ok s
  unfolding require_subject
  subject_again (str t) {s = s} h =
      let e = check_subject-eq-ok (strip u t) h in rw (← e, strip_twice u t) (h ∙ ap ok (sym e))
  subject_again null h = cc
  subject_again (bool b) h = cc
  subject_again (int n) h = cc
  subject_again (float x) h = cc
  subject_again (arr xs) h = cc
  subject_again (obj d) h = cc
  subject_again (cls c) h = cc

module _ (u : Unicode) (text : Value → String) (now : String) where
  -- Each field of an event that the constructor made.
  pub record IsMade (e : WorkflowEvent) : Type 0 where
    pub event_id : require_safe_text u "event_id" (str e.event_id) ≡ ok e.event_id
    pub source : require_safe_text u "source" (str e.source) ≡ ok e.source
    pub event_type : require_safe_text u "event_type" (str e.event_type) ≡ ok e.event_type
    pub subject : require_subject u (str e.subject) ≡ ok e.subject
    pub payload : redact_fields u e.payload ≡ e.payload

  pub make-IsMade :
      (a : EventArgs) {e : WorkflowEvent}
      → looks_like_credential u redacted ≡ false
      → make u text now a ≡ ok e
      → IsMade e
  unfolding make
  make-IsMade a {e = e} safe h =
      let (event_id, p0, h0) = >>=-eq-ok (require_safe_text u "event_id" a.event_id) _ h in
      let (source, p1, h1) = >>=-eq-ok (require_safe_text u "source" a.source) _ h0 in
      let (event_type, p2, h2) = >>=-eq-ok (require_safe_text u "event_type" a.event_type) _ h1 in
      let (subject, p3, h3) = >>=-eq-ok (require_subject u a.subject) _ h2 in
      let (version, p4, h4) = >>=-eq-ok (require_version a.version) _ h3 in
      let (payload, p5, h5) = >>=-eq-ok (require_payload a.payload) _ h4 in
      subst IsMade (same_event h5) (record {
        event_id = text_again u "event_id" a.event_id p0;
        source = text_again u "source" a.source p1;
        event_type = text_again u "event_type" a.event_type p2;
        subject = subject_again u a.subject p3;
        payload = redact_twice_fields u payload safe;
      })

  -- Where the placeholder of the redaction does not look like a credential, an event that the
  -- constructor made, with a time, takes any version, and nothing else of it changes.
  pub with_version-make :
      (a : EventArgs) (e : WorkflowEvent) (n : ℕ)
      → looks_like_credential u redacted ≡ false
      → make u text now a ≡ ok e
      → (e.occurred_at == "") ≡ false
      → with_version u text now e n ≡ ok (record e { version = n })
  unfolding with_version make
  with_version-make a e n safe h t =
      let m = make-IsMade a safe h in
      rw (m.event_id, m.source, m.event_type, m.subject, t, m.payload, m.payload) refl
