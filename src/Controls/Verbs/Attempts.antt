-- ===== src/Controls/Verbs/Attempts.antt =====
-- Forced retries of controls.py: each attempt is numbered above every attempt on record.
use hermes_plugin_dynamic_wo.Prelude.{
  String, ◌≡◌, refl, true, false, Option, none, List, [], ◌∷◌, ◌++◌, ◌==◌, arith, All, ◌∙◌,
}
use hermes_plugin_dynamic_wo.Python.Int.{ℤ, pos, ◌+ℤ◌, ◌<ℤ◌, ◌≤ℤ◌}
use hermes_plugin_dynamic_wo.Controls.Records.{WorkflowControl, ok}
use hermes_plugin_dynamic_wo.Controls.Store.Interface.{ControlStore, find_control}
use hermes_plugin_dynamic_wo.Controls.Options.{
  Ambient, Note, retries_of, next_attempt, max_attempt, max_ℤ, attempt_or_zero,
}
use hermes_plugin_dynamic_wo.Controls.Verbs.{retry_call}
use hermes_plugin_dynamic_wo.Controls.Verbs.Retries.{retry_record, retry_records}

abbrev attempt : WorkflowControl → ℤ
attempt c = attempt_or_zero c.attempt

max_ℤ-le : (a b : ℤ) → (a ≤ℤ max_ℤ a b) × (b ≤ℤ max_ℤ a b)
max_ℤ-le a b = ground arith

≤ℤ_trans : (a b c : ℤ) → a ≤ℤ b → b ≤ℤ c → a ≤ℤ c
≤ℤ_trans a b c h k = omega arith

max_attempt-le : (m : ℤ) (cs : List WorkflowControl) → m ≤ℤ max_attempt m cs
unfolding max_attempt
max_attempt-le m [] = omega arith
max_attempt-le m (c ∷ cs) =
    ≤ℤ_trans m (max_ℤ m (attempt c)) _ (max_ℤ-le m (attempt c)).0
      (max_attempt-le (max_ℤ m (attempt c)) cs)

attempts-le :
    (m : ℤ) (cs : List WorkflowControl) (top : ℤ)
    → max_attempt m cs ≤ℤ top
    → All (λ c. attempt c ≤ℤ top) cs
unfolding max_attempt
attempts-le m [] top h = tt
attempts-le m (c ∷ cs) top h =
    let step = max_ℤ m (attempt c) in
    (
      ≤ℤ_trans (attempt c) step top (max_ℤ-le m (attempt c)).1
          (≤ℤ_trans step (max_attempt step cs) top (max_attempt-le step cs) h),
      attempts-le step cs top h,
    )

lt_of_le : (n k : ℤ) → n ≤ℤ k → n <ℤ (k +ℤ pos 1)
unfolding ◌+ℤ◌
lt_of_le n k h = ground arith

All-lt :
    (k : ℤ) (cs : List WorkflowControl)
    → All (λ c. attempt c ≤ℤ k) cs
    → All (λ c. attempt c <ℤ (k +ℤ pos 1)) cs
All-lt k [] h = tt
All-lt k (c ∷ cs) h = (lt_of_le (attempt c) k h.0, All-lt k cs h.1)

next_attempt-lt : (cs : List WorkflowControl) → All (λ c. attempt c <ℤ next_attempt cs) cs
next_attempt-lt [] = tt
next_attempt-lt (c ∷ cs) =
    let top = max_attempt (attempt c) cs in
    All-lt top (c ∷ cs)
      (max_attempt-le (attempt c) cs, attempts-le (attempt c) cs top (omega arith))

module _ (store : ControlStore) (w : Ambient) (run_id target : String) where
  open store use {Store, IsValid, IsRun, IsStorable, view, append_result, view_append}

  -- A forced `retry`, on a valid store that takes the run and the record, whose id is not in the
  -- log yet: it returns a record whose attempt is above every recorded attempt of the target, and
  -- the log is extended by that record.
  pub retry_forced :
      (s : Store) (rep : Option String) (n : Note)
      → (run_id == "") ≡ false
      → (target == "") ≡ false
      → IsValid s
      → IsRun run_id
      → let prior = retries_of target (view s run_id) in
        let c = retry_record w run_id target rep n (next_attempt prior) in
        IsStorable c
        → find_control c.control_id (view s run_id) ≡ none
        → ((retry_call store w s run_id target rep true n).0 ≡ ok c)
          × (view (retry_call store w s run_id target rep true n).1 run_id
              ≡ view s run_id ++ c ∷ [])
          × All (λ p. attempt p <ℤ attempt c) prior
  retry_forced s rep n hr ht v r st f =
      let k = next_attempt (retries_of target (view s run_id)) in
      let c = retry_record w run_id target rep n k in
      rw (retry_records store w run_id target s rep true n hr ht v r refl) (
        append_result s c v st ∙ rw f refl,
        view_append s c v st ∙ rw f refl,
        next_attempt-lt (retries_of target (view s run_id)),
      )
