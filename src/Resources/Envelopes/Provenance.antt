-- ===== src/Resources/Envelopes/Provenance.antt =====
-- The owners and the ids of what `normalize_resource_envelopes` of resources.py returns.
use mathlib.Core.Path.{subst}
use hermes_plugin_dynamic_wo.Prelude.{
  ℕ, String, ◌≡◌, refl, ap, some, List, [], ◌∷◌, ◌++◌, member, All, if◌then◌else◌, Bool-cases, inl,
  inr, All-append,
}
use hermes_plugin_dynamic_wo.Prelude.Except.{>>=-eq-ok}
use hermes_plugin_dynamic_wo.Python.Int.{pos}
use hermes_plugin_dynamic_wo.Python.Value.{
  Value, Items, Fields, null, bool, int, float, str, arr, obj, cls, nil, cons, end, get_field,
  update, or_else, get_or, get_or_null,
}
use hermes_plugin_dynamic_wo.Python.Text.{Unicode}
use hermes_plugin_dynamic_wo.Resources.Records.{
  WorkflowResource, Result, ok, bad_id, bad_kind, bad_owner, bad_handle, bad_metadata,
}
use hermes_plugin_dynamic_wo.Resources.Codec.{
  from_dict, no_credential, need_identifier, need_dict, read_finalizers,
}
use hermes_plugin_dynamic_wo.Python.Fields.{get-put_field, IsDistinct, IsDistinct-snoc}
use hermes_plugin_dynamic_wo.Grants.Credentials.{find_raw_credential}
use hermes_plugin_dynamic_wo.Resources.Envelopes.{
  default_owner, raw_items, resource_ids, collect, normalize_resource_envelopes,
}

-- The owner names the run, the loop and the iteration.
pub record IsOwned (run_id : String) (loop_name : Value) (iteration : ℕ) (r : WorkflowResource)
    : Type 0 where
  pub of_run : get_field "run_id" r.owner ≡ some (str run_id)
  pub of_loop : get_field "loop_name" r.owner ≡ some loop_name
  pub of_iteration : get_field "iteration" r.owner ≡ some (int (pos iteration))

resource_ids-append :
    (rs : List WorkflowResource) (r : WorkflowResource)
    → resource_ids (rs ++ r ∷ []) ≡ resource_ids rs ++ r.resource_id ∷ []
resource_ids-append [] r = refl
resource_ids-append (x ∷ rs) r = rw (resource_ids-append rs r) refl

module _ (u : Unicode) where
  -- The owner of a resource is the declared one, overwritten by the controller's.
  from_dict-owner :
      (v : Value) (theirs : Fields) {r : WorkflowResource}
      → from_dict u v theirs ≡ ok r
      → (d : Fields) × (update d theirs ≡ r.owner)
  unfolding from_dict
  from_dict-owner (obj d) theirs {r = r} h =
      let (a, p0, h0) = >>=-eq-ok (no_credential (find_raw_credential u (obj d))) _ h in
      let (ident, p1, h1) =
        >>=-eq-ok
          (need_identifier u bad_id (or_else (get_or_null "id" d) (get_or_null "resource_id" d))) _
          h0 in
      let (kind, p2, h2) = >>=-eq-ok (need_identifier u bad_kind (get_or_null "kind" d)) _ h1 in
      let (owner, p3, h3) = >>=-eq-ok (need_dict bad_owner (get_or "owner" (obj end) d)) _ h2 in
      let (handle, p4, h4) = >>=-eq-ok (need_dict bad_handle (get_or "handle" (obj end) d)) _ h3 in
      let (metadata, p5, h5) =
        >>=-eq-ok (need_dict bad_metadata (get_or "metadata" (obj end) d)) _ h4 in
      let (finalizers, p6, h6) =
        >>=-eq-ok (read_finalizers u (get_or "finalizers" (arr nil) d)) _ h5 in
      (owner, ap (λ (x : WorkflowResource). x.owner) (same h6))
    where
      same : {x y : WorkflowResource} → ◌≡◌ {A = Result WorkflowResource} (ok x) (ok y) → x ≡ y
      same k = cc
  from_dict-owner null theirs h = cc
  from_dict-owner (bool b) theirs h = cc
  from_dict-owner (int n) theirs h = cc
  from_dict-owner (float x) theirs h = cc
  from_dict-owner (str s) theirs h = cc
  from_dict-owner (arr xs) theirs h = cc
  from_dict-owner (cls c) theirs h = cc

  module _ (run_id : String) (loop_name : Value) (iteration : ℕ) where
    abbrev Owned : WorkflowResource → Type 0
    Owned r = IsOwned run_id loop_name iteration r

    from_dict-IsOwned :
        (v : Value) {r : WorkflowResource}
        → from_dict u v (default_owner run_id loop_name iteration) ≡ ok r
        → Owned r
    unfolding update
    from_dict-IsOwned v {r = r} h =
        let (d, e) = from_dict-owner v (default_owner run_id loop_name iteration) h in
        record {
          of_run = rw (← e) (rw (get-put_field, get-put_field, get-put_field) refl);
          of_loop = rw (← e) (rw (get-put_field, get-put_field) refl);
          of_iteration = rw (← e) (rw get-put_field refl);
        }

    abbrev IsKept : List WorkflowResource → Type 0
    IsKept rs = All Owned rs × IsDistinct (resource_ids rs)

    keep-IsKept :
        (rs : List WorkflowResource) (r : WorkflowResource)
        → IsKept rs
        → Owned r
        → IsKept (if member r.resource_id (resource_ids rs) then rs else rs ++ r ∷ [])
    keep-IsKept rs r (owned, distinct) o =
        elim (Bool-cases (member r.resource_id (resource_ids rs))) [
          | inl e ↦ rw e (owned, distinct)
          | inr e ↦ rw e (
            All-append Owned rs (r ∷ []) owned (o, tt),
            rw (resource_ids-append rs r)
                (IsDistinct-snoc (resource_ids rs) r.resource_id distinct e),
          )
        ]

    collect-IsKept :
        (xs : Items) (kept : List WorkflowResource) {rs : List WorkflowResource}
        → IsKept kept
        → collect u (default_owner run_id loop_name iteration) kept xs ≡ ok rs
        → IsKept rs
    unfolding collect
    collect-IsKept nil kept h e = subst IsKept (same e) h
      where
        same :
            {x y : List WorkflowResource}
            → ◌≡◌ {A = Result (List WorkflowResource)} (ok x) (ok y)
            → x ≡ y
        same k = cc
    collect-IsKept (cons v xs) kept h e =
        let (r, p, q) = >>=-eq-ok (from_dict u v (default_owner run_id loop_name iteration)) _ e in
        collect-IsKept xs _ (keep-IsKept kept r h (from_dict-IsOwned v p)) q

    -- Every resource that an action declares, whatever owner it writes, is owned by the run, the loop
    -- and the iteration that the controller gives, and no id stands twice among them.
    pub normalize-IsOwned :
        (action : Fields) {rs : List WorkflowResource}
        → normalize_resource_envelopes u action run_id loop_name iteration ≡ ok rs
        → All (IsOwned run_id loop_name iteration) rs × IsDistinct (resource_ids rs)
    unfolding normalize_resource_envelopes
    normalize-IsOwned action h =
        let (items, p, q) = >>=-eq-ok (raw_items action) _ h in collect-IsKept items [] (tt, tt) q
