-- ===== src/Tests/Controls.antt =====
-- The theorems about controls.py at concrete inputs, and runs of its functions.
use hermes_plugin_dynamic_wo.Prelude.{
  String, ◌≡◌, refl, true, false, none, some, [], ◌∷◌, ◌++◌, All, if◌then◌else◌, ◌==◌,
}
use hermes_plugin_dynamic_wo.Prelude.Dict.{get}
use hermes_plugin_dynamic_wo.Python.Int.{pos, ◌<ℤ◌}
use hermes_plugin_dynamic_wo.Python.Value.{Value, obj, end, get_or_null, get_field, str_of}
use hermes_plugin_dynamic_wo.Controls.Records.{Action, WorkflowControl, ok, Result}
use hermes_plugin_dynamic_wo.Controls.Codec.{to_dict, from_dict, from_dict-to_dict}
use hermes_plugin_dynamic_wo.Controls.Store.Interface.{find_control}
use hermes_plugin_dynamic_wo.Controls.Store.File
use hermes_plugin_dynamic_wo.Controls.Store.File.{Codec, Files, IsStorable, is_segment}
use hermes_plugin_dynamic_wo.Controls.Store.File.Laws.{file_store}
use hermes_plugin_dynamic_wo.Python.Lines.{nil-IsComplete, is_one_line}
use hermes_plugin_dynamic_wo.Python.Text.{strip}
use hermes_plugin_dynamic_wo.Tests.Samples.{ascii}
use hermes_plugin_dynamic_wo.Controls.Store.Memory.{MemoryStore, memory_store, view}
use hermes_plugin_dynamic_wo.Controls.Options.{
  Ambient, Note, retries_of, next_attempt, attempt_or_zero,
}
use hermes_plugin_dynamic_wo.Controls.Verbs.{retry_call}
use hermes_plugin_dynamic_wo.Controls.Verbs.Retries.{retry_record, retry_idempotent, later}
use hermes_plugin_dynamic_wo.Controls.Verbs.Attempts.{retry_forced}
use hermes_plugin_dynamic_wo.Controls.Projection.{project, DesiredState}
use hermes_plugin_dynamic_wo.Controls.Projection.Terminal.{StoppedBy, project-StoppedBy}
use hermes_plugin_dynamic_wo.Controls.Projection.Toggle.{has_stop, last_toggle, project_toggle}
use hermes_plugin_dynamic_wo.Controls.Decisions.{Operation, evaluate}
use hermes_plugin_dynamic_wo.Controls.Decisions.FromLog.{permitted, evaluate-permitted, Answers}

abbrev control : String → Action → WorkflowControl
control id a = record {
  control_id = id;
  run_id = "run";
  action = a;
  created_at = "now";
  actor = some "op";
  reason = none;
  target_ref = some "task";
  replacement_ref = none;
  attempt = none;
  decision = none;
  metadata = end;
}

abbrev pause_it : WorkflowControl
pause_it = control "c1" Action.pause

abbrev stop_it : WorkflowControl
stop_it = control "c2" Action.stop

abbrev resume_it : WorkflowControl
resume_it = control "c3" Action.resume

project-StoppedBy_example :
    StoppedBy stop_it (project "run" ((pause_it ∷ []) ++ stop_it ∷ resume_it ∷ []))
    × ((project "run" ((pause_it ∷ []) ++ stop_it ∷ resume_it ∷ [])).desired_state
        ≡ DesiredState.stopped)
project-StoppedBy_example =
    project-StoppedBy "run" (pause_it ∷ []) (resume_it ∷ []) stop_it ((λ e. cc), tt) refl

project_toggle_example :
    ((project "run" (pause_it ∷ [])).stopped ≡ has_stop (pause_it ∷ []))
    × ((project "run" (pause_it ∷ [])).paused
        ≡ (if has_stop (pause_it ∷ []) then false else last_toggle false (pause_it ∷ [])))
project_toggle_example = project_toggle "run" (pause_it ∷ [])

evaluate-permitted_example :
    Answers
      (evaluate (project "run" (pause_it ∷ [])) "start_child" none)
      (permitted (pause_it ∷ []) Operation.start_child none)
evaluate-permitted_example = evaluate-permitted "run" Operation.start_child none (pause_it ∷ [])

from_dict-to_dict_example : from_dict (λ v. "") "now" (obj (to_dict stop_it)) ≡ ok stop_it
from_dict-to_dict_example =
    from_dict-to_dict (λ v. "") "now" stop_it
      (record {
        control_id = refl;
        run_id = refl;
        created_at = refl;
        actor = refl;
        reason = tt;
        target_ref = refl;
        replacement_ref = tt;
        decision = refl;
      })

abbrev ambient : Ambient
ambient = record { fresh = "0001"; now = "now"; int_text = λ n. "1"; short_hash = λ a b c. "abcd" }

abbrev note : Note
note = record { actor = none; reason = none; metadata = end }

abbrev one_pause : MemoryStore
one_pause = ("run", ("c1", pause_it) ∷ []) ∷ []

abbrev first_record : WorkflowControl
first_record = retry_record ambient "run" "task" none note (pos 1)

abbrev second_record : WorkflowControl
second_record = retry_record (later ambient "0002" "then") "run" "task" (some "x") note (pos 1)

-- A writer that names a record by its time, and its reader.
abbrev time_of : Value → Value
time_of (obj d) = get_or_null "created_at" d
time_of v = v

abbrev codec : Codec
codec = record {
  dumps = λ v. str_of (λ w. "") (time_of v);
  loads = λ t.
      if t == "now" then some (obj (to_dict first_record)) else some (obj (to_dict second_record));
  unicode = ascii;
  text = λ v. "";
  now = "now";
}

first-IsStorable : IsStorable codec first_record
unfolding is_segment to_dict get_field strip is_one_line
first-IsStorable = record {
  run_id = refl;
  control_id = refl;
  well_formed = record {
    control_id = refl;
    run_id = refl;
    created_at = refl;
    actor = tt;
    reason = tt;
    target_ref = refl;
    replacement_ref = refl;
    decision = refl;
  };
  nonempty = λ e. cc;
  one_line = refl;
  stripped = refl;
  carried = refl;
}

second-IsStorable : IsStorable codec second_record
unfolding is_segment to_dict get_field strip is_one_line
second-IsStorable = record {
  run_id = refl;
  control_id = refl;
  well_formed = record {
    control_id = refl;
    run_id = refl;
    created_at = refl;
    actor = tt;
    reason = tt;
    target_ref = refl;
    replacement_ref = refl;
    decision = refl;
  };
  nonempty = λ e. cc;
  one_line = refl;
  stripped = refl;
  carried = refl;
}

no_files-IsValid : File.IsValid codec []
unfolding get
no_files-IsValid r = nil-IsComplete

run_is_segment : is_segment "run" ≡ true
unfolding is_segment
run_is_segment = refl

abbrev first_retry : Result WorkflowControl × Files
first_retry = retry_call (file_store codec) ambient [] "run" "task" none false note

abbrev second_retry : Result WorkflowControl × Files
second_retry =
    retry_call (file_store codec) (later ambient "0002" "then") first_retry.1 "run" "task"
      (some "x") false note

retry_idempotent_example :
    (second_retry.0 ≡ first_retry.0)
    × (File.view codec second_retry.1 "run" ≡ File.view codec first_retry.1 "run")
retry_idempotent_example =
    retry_idempotent (file_store codec) ambient "run" "task" "0002" "then" [] none (some "x") note
      note refl refl no_files-IsValid run_is_segment first-IsStorable second-IsStorable

abbrev forced : WorkflowControl
forced =
    retry_record ambient "run" "task" none note
      (next_attempt (retries_of "task" (view one_pause "run")))

retry_forced_example :
    ((retry_call memory_store ambient one_pause "run" "task" none true note).0 ≡ ok forced)
    × (view (retry_call memory_store ambient one_pause "run" "task" none true note).1 "run"
        ≡ view one_pause "run" ++ forced ∷ [])
    × All
        (λ p. attempt_or_zero p.attempt <ℤ attempt_or_zero forced.attempt)
        (retries_of "task" (view one_pause "run"))
unfolding find_control get
retry_forced_example =
    retry_forced memory_store ambient "run" "task" one_pause none note refl refl ((refl, tt), tt) tt
      tt refl
