-- ===== src/Grants/Codec.antt =====
-- `to_dict` and `from_dict` of handles and grants in grants.py.
use hermes_plugin_dynamic_wo.Prelude.{
  String, Option, none, some, List, [], ◌∷◌, ◌==◌, if◌then◌else◌,
}
use hermes_plugin_dynamic_wo.Python.Value.{
  Value, Items, Fields, null, float, str, arr, obj, nil, cons, end, field, get_field, get_or_null,
}
use hermes_plugin_dynamic_wo.Grants.Records.{
  Problem, Result, ok, err, ◌>>=◌, Platform, Status, GrantHandle, SessionGrant, side_effect_name,
  status_name, granted, revoked, grant_error, overflow_error, no_grant, not_an_object, missing_text,
  bad_handle, bad_extra, bad_audit, bad_status, conversion,
}
use hermes_plugin_dynamic_wo.Grants.Checks.{
  safe_backend, safe_grant_id, normalize_request_id, normalize_scope, require_number, opt_str,
  need_text, read_side_effect, safe_identifier,
}

abbrev pub opt_text : Option String → Value
opt_text none = null
opt_text (some s) = str s

abbrev pub texts : List String → Items
texts [] = nil
texts (s ∷ ss) = cons (str s) (texts ss)

unfoldable pub handle_to_dict : GrantHandle → Fields
handle_to_dict h = field "backend" (str h.backend) (
    field "session_id" (opt_text h.session_id) (
      field "work_context_id" (opt_text h.work_context_id)
        (field "handle_ref" (opt_text h.handle_ref) (field "extra" (obj h.extra) end))))

abbrev opt_handle : Option GrantHandle → Value
opt_handle none = null
opt_handle (some h) = obj (handle_to_dict h)

unfoldable pub to_dict : SessionGrant → Fields
unfolding handle_to_dict
to_dict g = field "grant_id" (str g.grant_id) (
    field "request_id" (str g.request_id) (
      field "scope" (arr (texts g.scope)) (
        field "side_effect_class" (str (side_effect_name g.side_effect_class)) (
          field "subject" (str g.subject) (
            field "issued_at" (str g.issued_at) (
              field "expires_at" (str g.expires_at) (
                field "issued_at_epoch" (float g.issued_at_epoch) (
                  field "expires_at_epoch" (float g.expires_at_epoch) (
                    field "backend" (str g.backend) (
                      field "handle" (opt_handle g.handle) (
                        field "audit" (obj g.audit)
                          (field "status" (str (status_name g.status)) end))))))))))))

-- `data.get(k, {})`, which must be a dict
abbrev pub dict_or_empty : Problem → Option Value → Result Fields
dict_or_empty e none = ok end
dict_or_empty e (some (obj d)) = ok d
dict_or_empty e (some v) = err (grant_error e)

abbrev read_status : Option Value → Result Status
read_status none = ok granted
read_status (some (str s)) =
    if s == "granted"
    then ok granted
    else if s == "revoked"
    then ok revoked
    else err (grant_error bad_status)
read_status (some v) = err (grant_error bad_status)

module _ (p : Platform) where
  -- `GrantHandle.from_dict`
  unfoldable pub handle_from_dict : Value → Result GrantHandle
  unfolding safe_identifier
  handle_from_dict (obj d) = do
    backend ← safe_backend p (get_or_null "backend" d)
    extra ← dict_or_empty bad_extra (get_field "extra" d)
    session_id ← opt_str (get_or_null "session_id" d)
    work_context_id ← opt_str (get_or_null "work_context_id" d)
    handle_ref ← opt_str (get_or_null "handle_ref" d)
    ok (record {
      backend = backend;
      session_id = session_id;
      work_context_id = work_context_id;
      handle_ref = handle_ref;
      extra = extra;
    })
  handle_from_dict v = err (grant_error bad_handle)

  abbrev read_handle : Value → Result (Option GrantHandle)
  read_handle null = ok none
  read_handle v = do h ← handle_from_dict v; ok (some h)

  -- `str(data.get(k, ""))`
  abbrev time_text : Option Value → String
  time_text none = ""
  time_text (some (str s)) = s
  time_text (some v) = p.text v

  -- `SessionGrant.from_dict`
  unfoldable pub from_dict : Value → Result SessionGrant
  unfolding handle_from_dict normalize_request_id normalize_scope require_number read_side_effect
  from_dict (obj d) = do
    grant_id ← need_text missing_text (get_or_null "grant_id" d)
    request_id ← need_text missing_text (get_or_null "request_id" d)
    class' ← need_text missing_text (get_or_null "side_effect_class" d)
    subject ← need_text missing_text (get_or_null "subject" d)
    backend ← safe_backend p (get_or_null "backend" d)
    grant_id ← safe_grant_id p (str grant_id)
    request_id ← normalize_request_id p (str request_id)
    side_effect_class ← read_side_effect (str class')
    scope ← normalize_scope p (get_or_null "scope" d)
    issued_epoch ← require_number p (get_or_null "issued_at_epoch" d)
    expires_epoch ← require_number p (get_or_null "expires_at_epoch" d)
    handle ← read_handle (get_or_null "handle" d)
    audit ← dict_or_empty bad_audit (get_field "audit" d)
    status ← read_status (get_field "status" d)
    ok (record {
      grant_id = grant_id;
      request_id = request_id;
      scope = scope;
      side_effect_class = side_effect_class;
      subject = subject;
      issued_at = time_text (get_field "issued_at" d);
      expires_at = time_text (get_field "expires_at" d);
      issued_at_epoch = issued_epoch;
      expires_at_epoch = expires_epoch;
      backend = backend;
      handle = handle;
      audit = audit;
      status = status;
    })
  from_dict v = err (grant_error not_an_object)

  -- Any other exception becomes a `GrantError`.
  abbrev as_grant_error : Result SessionGrant → Result SessionGrant
  as_grant_error (ok g) = ok g
  as_grant_error (err overflow_error) = err (grant_error conversion)
  as_grant_error (err (grant_error e)) = err (grant_error e)

  -- `_normalize_session_grant`; a `SessionGrant` object is given as its `to_dict`.
  unfoldable pub normalize_session_grant : Value → Result SessionGrant
  unfolding from_dict
  normalize_session_grant null = err (grant_error no_grant)
  normalize_session_grant v = as_grant_error (from_dict v)
