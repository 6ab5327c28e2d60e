-- ===== src/Capabilities/Records.antt =====
-- The value objects of capabilities.py and their checks.
use Prim.Native.Char.{Char, code}
use hermes_plugin_dynamic_wo.Prelude.{
  ℕ, String, Bool, not, ◌&&◌, ◌||◌, Option, none, some, List, [], ◌∷◌, ◌==◌, nat_eq, leb,
  if◌then◌else◌,
}
pub use hermes_plugin_dynamic_wo.Prelude.Except.{Except, ok, err, guard, ◌>>=◌, ◌>>◌}
use hermes_plugin_dynamic_wo.Python.Value.{Value, Fields, str}
use hermes_plugin_dynamic_wo.Python.Text.{Unicode, all_chars, strip, is_ascii_alnum}
use hermes_plugin_dynamic_wo.Grants.Records.{SideEffect, side_effect_of}

-- What a call is refused for: a ValueError, or a CapabilityDenied with its code.
pub data Refusal : Type 0 where
  bad_name unknown_class already_registered small_result : Refusal
  unknown_capability : String → Refusal
  capability_credential : String → Refusal
  capability_denied capability_side_effect_denied capability_approval_required : Refusal
  capability_handler_error : String → Refusal
  denied_by_handler : String → Refusal
  capability_result_too_large capability_result_invalid : Refusal

abbrev pub Result : Type 0 → Type 0
Result A = Except Refusal A

-- How a call of a handler ends: a CapabilityDenied with its code, another exception, or a value. A
-- KeyboardInterrupt is left out.
pub data Answer : Type 0 where
  denied raised : String → Answer
  returned : Value → Answer

pub record WorkflowCapability (S : Type 0) : Type 0 where
  pub name : String
  pub handler : Fields → S → Answer × S
  pub side_effect_class : SideEffect
  pub description : String
  pub replayable : Bool

pub record CapabilityPolicy : Type 0 where
  pub allowed_names : Option (List String)
  pub allowed_side_effect_classes : List SideEffect
  pub approval_required_classes : List SideEffect
  pub approved_approval_ids : List String
  pub interactive_approval : Bool
  pub max_result_bytes : ℕ
  pub max_stream_bytes : ℕ

unfoldable pub classes_of : List String → Result (List SideEffect)
unfolding side_effect_of
classes_of [] = ok []
classes_of (s ∷ ss) = do
  c ← elim (side_effect_of s) [ none ↦ err unknown_class | some c ↦ ok c ]
  cs ← classes_of ss
  ok (c ∷ cs)

module _ (u : Unicode) where
  abbrev is_name_char : Char → Bool
  is_name_char c =
      is_ascii_alnum c
      || nat_eq (code c) b'.'
      || nat_eq (code c) b'_'
      || nat_eq (code c) b':'
      || nat_eq (code c) b'-'
      || nat_eq (code c) b'/'

  -- `normalize_capability_name`
  unfoldable pub normalize_name : Value → Result String
  unfolding strip all_chars
  normalize_name (str s) =
      let stripped = strip u s in
      if not (stripped == "") && all_chars is_name_char stripped then ok stripped else err bad_name
  normalize_name v = err bad_name

  unfoldable pub names_of : List Value → Result (List String)
  unfolding normalize_name
  names_of [] = ok []
  names_of (v ∷ vs) = do s ← normalize_name v; ss ← names_of vs; ok (s ∷ ss)

  abbrev names_or_none : Option (List Value) → Result (Option (List String))
  names_or_none none = ok none
  names_or_none (some vs) = do ss ← names_of vs; ok (some ss)

  -- `CapabilityPolicy(...)`; a size is not negative
  unfoldable pub make_policy :
      Option (List Value)
      → List String
      → List String
      → List String
      → Bool
      → ℕ
      → ℕ
      → Result CapabilityPolicy
  unfolding names_of classes_of
  make_policy names allowed required approved interactive max_result max_stream = do
    names ← names_or_none names
    allowed ← classes_of allowed
    required ← classes_of required
    guard (leb 256 max_result) small_result
    ok (record {
      allowed_names = names;
      allowed_side_effect_classes = allowed;
      approval_required_classes = required;
      approved_approval_ids = approved;
      interactive_approval = interactive;
      max_result_bytes = max_result;
      max_stream_bytes = max_stream;
    })

  -- `WorkflowCapability(...)`
  unfoldable pub make_capability :
      {S : Type 0}
      → Value
      → (Fields → S → Answer × S)
      → String
      → String
      → Bool
      → Result (WorkflowCapability S)
  unfolding normalize_name side_effect_of
  make_capability name handler class' description replayable = do
    name ← normalize_name name
    side_effect_class ← elim (side_effect_of class') [ none ↦ err unknown_class | some c ↦ ok c ]
    ok (record {
      name = name;
      handler = handler;
      side_effect_class = side_effect_class;
      description = description;
      replayable = replayable;
    })
