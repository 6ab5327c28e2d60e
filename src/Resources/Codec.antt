-- ===== src/Resources/Codec.antt =====
-- `ResourceFinalizer.from_dict`, `WorkflowResource.from_dict` and their checks, of resources.py.
use Prim.Native.Char.{Char, code}
use hermes_plugin_dynamic_wo.Prelude.{
  String, Bool, not, ◌&&◌, ◌||◌, Option, none, some, List, [], ◌∷◌, ◌++◌, ◌==◌, nat_eq, member,
  if◌then◌else◌,
}
use hermes_plugin_dynamic_wo.Python.Value.{
  Value, Items, Fields, null, str, arr, obj, nil, cons, end, get_field, get_or_null, get_or,
  or_else, update, truthy,
}
use hermes_plugin_dynamic_wo.Python.Text.{Unicode, all_chars}
use hermes_plugin_dynamic_wo.Grants.Credentials.{find_raw_credential}
use hermes_plugin_dynamic_wo.Resources.Records.{
  ResourceFinalizer, WorkflowResource, Policy, Problem, Result, ok, err, ◌>>=◌, ◌>>◌, triggers,
  policy_of, not_an_object, bad_id, bad_action, bad_when, empty_when, bad_policy, bad_args,
  bad_verification, bad_kind, bad_owner, bad_handle, bad_metadata, bad_finalizers, raw_credential,
}

abbrev pub no_credential : Option String → Result (Unit {0})
no_credential none = ok tt
no_credential (some k) = err (raw_credential k)

-- A dict, or the error.
abbrev pub need_dict : Problem → Value → Result Fields
need_dict e (obj d) = ok d
need_dict e v = err e

-- The triggers of a list, each once, in their order.
unfoldable pub when_from : List String → Items → Result (List String)
when_from seen nil = ok seen
when_from seen (cons (str s) xs) =
    let rest = when_from (if member s seen then seen else seen ++ s ∷ []) xs in
    if member s triggers then rest else err bad_when
when_from seen (cons v xs) = err bad_when

-- `_normalize_when`
unfoldable pub normalize_when : Value → Result (List String)
unfolding when_from
normalize_when null = ok ("success" ∷ "failure" ∷ "timeout" ∷ "cancelled" ∷ "superseded" ∷ [])
normalize_when (str s) = when_from [] (cons (str s) nil)
normalize_when (arr nil) = err empty_when
normalize_when (arr (cons v xs)) = when_from [] (cons v xs)
normalize_when v = err bad_when

abbrev read_policy : Value → Result Policy
read_policy (str s) = elim (policy_of s) [ none ↦ err bad_policy | some p ↦ ok p ]
read_policy v = err bad_policy

-- `_dedupe_finalizers`, from the finalizers kept so far
abbrev pub finalizer_ids : List ResourceFinalizer → List String
finalizer_ids [] = []
finalizer_ids (f ∷ fs) = f.finalizer_id ∷ finalizer_ids fs

unfoldable pub dedupe_from :
    List ResourceFinalizer → List ResourceFinalizer → List ResourceFinalizer
dedupe_from kept [] = kept
dedupe_from kept (f ∷ fs) =
    dedupe_from (if member f.finalizer_id (finalizer_ids kept) then kept else kept ++ f ∷ []) fs

module _ (u : Unicode) where
  abbrev is_identifier_char : Char → Bool
  is_identifier_char c =
      u.is_alnum c || nat_eq (code c) b'.' || nat_eq (code c) b'_' || nat_eq (code c) b'-'

  -- `_identifier_safe`
  unfoldable pub is_identifier : String → Bool
  unfolding all_chars
  is_identifier s = not (s == "") && all_chars is_identifier_char s

  abbrev pub need_identifier : Problem → Value → Result String
  need_identifier e (str s) = if is_identifier s then ok s else err e
  need_identifier e v = err e

  -- `ResourceFinalizer.from_dict`
  unfoldable pub finalizer_from_dict : Value → Result ResourceFinalizer
  unfolding find_raw_credential is_identifier normalize_when policy_of get_field truthy
  finalizer_from_dict (obj d) = do
    no_credential (find_raw_credential u (obj d))
    ident ← need_identifier bad_id (or_else (get_or_null "id" d) (get_or_null "finalizer_id" d))
    action ← need_identifier bad_action (get_or_null "action" d)
    when ← normalize_when (get_or_null "when" d)
    policy ← read_policy (get_or "policy" (str "best_effort") d)
    args ← need_dict bad_args (get_or "args" (obj end) d)
    verification ← need_dict bad_verification (get_or "verification" (obj end) d)
    ok (record {
      finalizer_id = ident;
      action = action;
      when = when;
      policy = policy;
      args = args;
      verification = verification;
    })
  finalizer_from_dict v = err not_an_object

  unfoldable pub finalizers_of : Items → Result (List ResourceFinalizer)
  unfolding finalizer_from_dict
  finalizers_of nil = ok []
  finalizers_of (cons v xs) = do f ← finalizer_from_dict v; fs ← finalizers_of xs; ok (f ∷ fs)

  abbrev pub read_finalizers : Value → Result (List ResourceFinalizer)
  read_finalizers (arr xs) = do fs ← finalizers_of xs; ok (dedupe_from [] fs)
  read_finalizers v = err bad_finalizers

  -- `WorkflowResource.from_dict`: the controller's owner fields replace those of the data
  unfoldable pub from_dict : Value → Fields → Result WorkflowResource
  unfolding find_raw_credential is_identifier finalizers_of dedupe_from get_field truthy update
  from_dict (obj d) default_owner = do
    no_credential (find_raw_credential u (obj d))
    ident ← need_identifier bad_id (or_else (get_or_null "id" d) (get_or_null "resource_id" d))
    kind ← need_identifier bad_kind (get_or_null "kind" d)
    owner ← need_dict bad_owner (get_or "owner" (obj end) d)
    handle ← need_dict bad_handle (get_or "handle" (obj end) d)
    metadata ← need_dict bad_metadata (get_or "metadata" (obj end) d)
    finalizers ← read_finalizers (get_or "finalizers" (arr nil) d)
    ok (record {
      resource_id = ident;
      kind = kind;
      owner = update owner default_owner;
      handle = handle;
      metadata = metadata;
      finalizers = finalizers;
    })
  from_dict v default_owner = err not_an_object
