-- ===== src/Resources/Records.antt =====
-- The value objects of resources.py and their `to_dict`.
pub use hermes_plugin_dynamic_wo.Prelude.Except.{Except, ok, err, guard, ◌>>=◌, ◌>>◌}
use hermes_plugin_dynamic_wo.Prelude.{
  String, Option, none, some, List, [], ◌∷◌, ◌==◌, if◌then◌else◌, map,
}
use hermes_plugin_dynamic_wo.Python.Value.{
  Fields, str, arr, obj, end, field, dict_items, text_items, opt_text,
}

-- FINALIZER_TRIGGERS
abbrev pub triggers : List String
triggers = "success" ∷ "failure" ∷ "timeout" ∷ "cancelled" ∷ "superseded" ∷ "manual" ∷ []

-- FINALIZER_POLICIES
pub data Policy : Type 0 where
  required best_effort preserve_only manual_approval_required : Policy

abbrev pub policy_name : Policy → String
policy_name required = "required"
policy_name best_effort = "best_effort"
policy_name preserve_only = "preserve_only"
policy_name manual_approval_required = "manual_approval_required"

unfoldable pub policy_of : String → Option Policy
policy_of s =
    if s == "required"
    then some required
    else if s == "best_effort"
    then some best_effort
    else if s == "preserve_only"
    then some preserve_only
    else if s == "manual_approval_required"
    then some manual_approval_required
    else none

-- FINALIZER_RESULT_STATUSES
pub data Status : Type 0 where
  succeeded failed skipped preserved approval_required : Status

abbrev pub status_name : Status → String
status_name succeeded = "succeeded"
status_name failed = "failed"
status_name skipped = "skipped"
status_name preserved = "preserved"
status_name approval_required = "approval_required"

pub record ResourceFinalizer : Type 0 where
  pub finalizer_id : String
  pub action : String
  pub when : List String
  pub policy : Policy
  pub args : Fields
  pub verification : Fields

pub record WorkflowResource : Type 0 where
  pub resource_id : String
  pub kind : String
  pub owner : Fields
  pub handle : Fields
  pub metadata : Fields
  pub finalizers : List ResourceFinalizer

pub record FinalizerResult : Type 0 where
  pub resource_id : String
  pub finalizer_id : String
  pub action : String
  pub trigger : String
  pub policy : Policy
  pub status : Status
  pub summary : String
  pub evidence : List Fields
  pub error : Option String

-- What the module raises, without the texts.
pub data Problem : Type 0 where
  not_an_object bad_id bad_action bad_when empty_when bad_policy bad_args bad_verification : Problem
  bad_kind bad_owner bad_handle bad_metadata bad_finalizers bad_resources : Problem
  bad_handler already_registered unknown_trigger missing_action unknown_action : Problem
  raw_credential : String → Problem

abbrev pub Result : Type 0 → Type 0
Result A = Except Problem A

-- `ResourceFinalizer.to_dict`: `id` stands last, where `asdict` had `finalizer_id` first
unfoldable pub finalizer_to_dict : ResourceFinalizer → Fields
finalizer_to_dict f = field "action" (str f.action) (
    field "when" (arr (text_items f.when)) (
      field "policy" (str (policy_name f.policy)) (
        field "args" (obj f.args)
          (field "verification" (obj f.verification) (field "id" (str f.finalizer_id) end)))))

-- `WorkflowResource.to_dict`
unfoldable pub to_dict : WorkflowResource → Fields
unfolding finalizer_to_dict
to_dict r = field "id" (str r.resource_id) (
    field "kind" (str r.kind) (
      field "owner" (obj r.owner) (
        field "handle" (obj r.handle) (
          field "metadata" (obj r.metadata)
            (field "finalizers" (arr (dict_items (map finalizer_to_dict r.finalizers))) end)))))

-- `FinalizerResult.to_dict`
unfoldable pub result_to_dict : FinalizerResult → Fields
result_to_dict r = field "resource_id" (str r.resource_id) (
    field "finalizer_id" (str r.finalizer_id) (
      field "action" (str r.action) (
        field "trigger" (str r.trigger) (
          field "policy" (str (policy_name r.policy)) (
            field "status" (str (status_name r.status)) (
              field "summary" (str r.summary) (
                field "evidence" (arr (dict_items r.evidence))
                  (field "error" (opt_text r.error) end))))))))
