-- ===== src/Controls/Verbs/Retries.antt =====
-- `retry` of controls.py over any store: it is idempotent, and forced attempts are numbered upwards.
use Prim.Native.String.{◌++◌ as str_append}
use text.Mathlib.TextLemmas.{cons-append, cons-ne-nil}
use hermes_plugin_dynamic_wo.Prelude.{
  String, ◌≡◌, refl, sym, ◌∙◌, ◌⊎◌, inl, inr, Bool, true, false, Option, none, some, List, [], ◌∷◌,
  ◌++◌, ◌==◌, arith, last?, Option-cases, Bool-cases, ==_ne, eq_refl,
}
use hermes_plugin_dynamic_wo.Python.Int.{ℤ, pos}
use hermes_plugin_dynamic_wo.Controls.Records.{WorkflowControl, Result, ok, opt_str, retry}
use hermes_plugin_dynamic_wo.Controls.Store.Interface.{ControlStore, find_control, extended}
use hermes_plugin_dynamic_wo.Controls.Options.{
  Ambient, Note, mint, retry_options, retries_of, is_retry_of, next_attempt, replacement_or_default,
  reused,
}
use hermes_plugin_dynamic_wo.Controls.Verbs.{record_control, retry_call, retry_with}

-- The record of one attempt.
abbrev pub retry_record : Ambient → String → String → Option String → Note → ℤ → WorkflowControl
retry_record w run_id target replacement n attempt =
    let text = w.int_text attempt in
    record {
      control_id = str_append "ctl_retry_" (w.short_hash run_id target text);
      run_id = run_id;
      action = retry;
      created_at = w.now;
      actor = opt_str n.actor;
      reason = opt_str n.reason;
      target_ref = some target;
      replacement_ref = opt_str (
          some (
            replacement_or_default (opt_str replacement)
              (str_append target (str_append "#retry" text))));
      attempt = some attempt;
      decision = none;
      metadata = n.metadata;
    }

retry_id_nonempty : (s : String) → (str_append "ctl_retry_" s == "") ≡ false
retry_id_nonempty s = ==_ne _ _ (λ e. cons-ne-nil _ _ (sym (cons-append _ "tl_retry_" s) ∙ e))

mint_retry :
    (w : Ambient) (run_id target : String) (rep : Option String) (n : Note) (k : ℤ)
    → (run_id == "") ≡ false
    → (target == "") ≡ false
    → mint w run_id "retry" (retry_options w run_id target rep n k)
      ≡ ok (retry_record w run_id target rep n k)
unfolding mint
mint_retry w run_id target rep n k hr ht =
    ground (arith, retry_id_nonempty (w.short_hash run_id target (w.int_text k)))

retries_of-append :
    (t : String) (cs ds : List WorkflowControl)
    → retries_of t (cs ++ ds) ≡ retries_of t cs ++ retries_of t ds
unfolding retries_of
retries_of-append t [] ds = refl
retries_of-append t (c ∷ cs) ds = ground (arith, retries_of-append t cs ds)

module _ (store : ControlStore) (w : Ambient) (run_id target : String) where
  open store use {
    Store, IsValid, IsRun, IsStorable, append, list_for, view, list_for_view, append_result,
    append-IsValid, view_append,
  }

  -- What `retry` does where it records an attempt.
  pub retry_records :
      (s : Store) (rep : Option String) (force : Bool) (n : Note)
      → (run_id == "") ≡ false
      → (target == "") ≡ false
      → IsValid s
      → IsRun run_id
      → reused force (retries_of target (view s run_id)) ≡ none
      → retry_call store w s run_id target rep force n
        ≡ append s
            (retry_record w run_id target rep n (next_attempt (retries_of target (view s run_id))))
  unfolding retry_call record_control
  retry_records s rep force n hr ht v r e =
      rw (hr, ht, list_for_view s run_id v r)
        (rw (e, retry_with)
          (rw
            (mint_retry w run_id target rep n (next_attempt (retries_of target (view s run_id))) hr
              ht)
            refl))

  -- What it does where an attempt is on record.
  retry_reuses :
      (s : Store) (rep : Option String) (force : Bool) (n : Note) (c : WorkflowControl)
      → (run_id == "") ≡ false
      → (target == "") ≡ false
      → IsValid s
      → IsRun run_id
      → reused force (retries_of target (view s run_id)) ≡ some c
      → retry_call store w s run_id target rep force n ≡ (ok c, s)
  unfolding retry_call record_control
  retry_reuses s rep force n c hr ht v r e =
      rw (hr, ht, list_for_view s run_id v r) (rw (e, retry_with) refl)

find-append :
    (k : String) (cs : List WorkflowControl) (c : WorkflowControl)
    → find_control k cs ≡ none
    → c.control_id ≡ k
    → find_control k (cs ++ c ∷ []) ≡ some c
unfolding find_control
find-append k [] c h e = rw (e, eq_refl k)
find-append k (d ∷ cs) c h e = elim (Bool-cases (d.control_id == k)) [
  | inl same ↦ let taken = rw same at h in cc
  | inr other ↦ rw other (find-append k cs c (rw other at h) e)
]

retry_record-is_retry_of :
    (w : Ambient) (run_id target : String) (rep : Option String) (n : Note) (k : ℤ)
    → is_retry_of target (retry_record w run_id target rep n k) ≡ true
retry_record-is_retry_of w run_id target rep n k = eq_refl target

-- After an attempt is on record, `retry` without force finds it.
reused-extended :
    (t : String) (c : WorkflowControl) (cs : List WorkflowControl)
    → is_retry_of t c ≡ true
    → retries_of t cs ≡ []
    → find_control c.control_id cs ≡ none
    → reused false (retries_of t (extended c (find_control c.control_id cs) cs)) ≡ some c
unfolding retries_of
reused-extended t c cs h e f = rw (f, retries_of-append t cs (c ∷ []), e, h) refl

last?-cases {ℓ} : {A : Type ℓ} (xs : List A) → (xs ≡ []) ⊎ ((x : A) × (last? xs ≡ some x))
last?-cases [] = inl refl
last?-cases (x ∷ xs) =
    inr (elim (Option-cases (last? xs)) [ inl e ↦ (x, rw e) | inr (y, e) ↦ (y, rw e) ])

-- The ambient of a later call: another fresh id and another time, the same digests.
abbrev pub later : Ambient → String → String → Ambient
later w fresh now = record w { fresh = fresh; now = now }

module _ (store : ControlStore) (w : Ambient) (run_id target fresh now : String) where
  open store use {
    Store, IsValid, IsRun, IsStorable, append, view, append_result, append-IsValid, view_append,
  }

  -- The record that a first `retry` mints.
  abbrev first_record : Option String → Note → WorkflowControl
  first_record rep n = retry_record w run_id target rep n (pos 1)

  abbrev Twice : Result WorkflowControl × Store → Option String → Note → Type 0
  Twice first rep n =
      let second = retry_call store (later w fresh now) first.1 run_id target rep false n in
      (second.0 ≡ first.0) × (view second.1 run_id ≡ view first.1 run_id)

  module _ (s : Store) (rep rep' : Option String) (n n' : Note) (hr : (run_id == "") ≡ false)
      (ht : (target == "") ≡ false) (v : IsValid s) (r : IsRun run_id)
      (fits : IsStorable (retry_record w run_id target rep n (pos 1)))
      (fits' : IsStorable (retry_record (later w fresh now) run_id target rep' n' (pos 1)))
      (e : retries_of target (view s run_id) ≡ []) where
    abbrev c : WorkflowControl
    c = first_record rep n

    abbrev t : Store
    t = (append s c).1

    Twice-new : find_control c.control_id (view s run_id) ≡ none → Twice (append s c) rep' n'
    Twice-new f =
        rw
          (retry_reuses store (later w fresh now) run_id target t rep' false n' c hr ht
            (append-IsValid s c v) r
            (rw (view_append s c v fits) (
              reused-extended target c (view s run_id)
                (retry_record-is_retry_of w run_id target rep n (pos 1)) e f)))
          (sym (rw f at (append_result s c v fits)), refl)

    Twice-old :
        (old : WorkflowControl)
        → find_control c.control_id (view s run_id) ≡ some old
        → Twice (append s c) rep' n'
    Twice-old old f =
        let c' = retry_record (later w fresh now) run_id target rep' n' (pos 1) in
        let same : view t run_id ≡ view s run_id = (rw f at (view_append s c v fits)) in
        let ok' = fits' in
        let again : retry_call store (later w fresh now) t run_id target rep' false n'
            ≡ append t c' =
          retry_records store (later w fresh now) run_id target t rep' false n' hr ht
            (append-IsValid s c v) r (rw (same, e) refl)
          ∙ rw (same, e) refl in
        rw again (
          append_result t c' (append-IsValid s c v) ok'
              ∙ rw (same, f) refl
              ∙ sym (rw f at (append_result s c v fits)),
          view_append t c' (append-IsValid s c v) ok' ∙ rw (same, f) refl,
        )

    Twice-recorded : Twice (append s c) rep' n'
    Twice-recorded = elim (Option-cases (find_control c.control_id (view s run_id))) [
      | inl f ↦ Twice-new f
      | inr (old, f) ↦ Twice-old old f
    ]

  -- Calling `retry` twice without force, on a valid store that takes the run and the two records
  -- of a first attempt that these calls can mint: the second call returns what the first returned
  -- and leaves the run's log as it was, whatever its replacement, its note and its time.
  pub retry_idempotent :
      (s : Store) (rep rep' : Option String) (n n' : Note)
      → (run_id == "") ≡ false
      → (target == "") ≡ false
      → IsValid s
      → IsRun run_id
      → IsStorable (retry_record w run_id target rep n (pos 1))
      → IsStorable (retry_record (later w fresh now) run_id target rep' n' (pos 1))
      → let first = retry_call store w s run_id target rep false n in
        let second = retry_call store (later w fresh now) first.1 run_id target rep' false n' in
        (second.0 ≡ first.0) × (view second.1 run_id ≡ view first.1 run_id)
  retry_idempotent s rep rep' n n' hr ht v r fits fits' =
      elim (last?-cases (retries_of target (view s run_id))) [
        | inr (c, e) ↦ rw (retry_reuses store w run_id target s rep false n c hr ht v r e) (
            rw (retry_reuses store (later w fresh now) run_id target s rep' false n' c hr ht v r e)
              (refl, refl))
        | inl e ↦
            rw (retry_records store w run_id target s rep false n hr ht v r (rw e refl))
              (rw e (Twice-recorded s rep rep' n n' hr ht v r fits fits' e))
      ]
