-- ===== src/Controls/Store/File/Laws.antt =====
-- `FileControlStore` of controls.py keeps the promises of `ControlStore`.
use Prim.Native.String.{◌++◌ as str_append}
use hermes_plugin_dynamic_wo.Prelude.{
  String, ◌≡◌, refl, ap, ◌∙◌, true, false, ◌&&◌, Option, none, some, List, [], ◌∷◌, ◌++◌, ◌==◌,
  Option-cases, Bool-cases, eq_refl, ==_ne, inl, inr,
}
use hermes_plugin_dynamic_wo.Prelude.Dict
use hermes_plugin_dynamic_wo.Prelude.Dict.{Dict, get, put, get-put, values-append, put_new}
use hermes_plugin_dynamic_wo.Python.Lines.{split_lines, split_lines-append, append-IsComplete}
use hermes_plugin_dynamic_wo.Controls.Records.{WorkflowControl, ok}
use hermes_plugin_dynamic_wo.Controls.Codec.{from_dict-to_dict}
use hermes_plugin_dynamic_wo.Controls.Store.Buckets.{IsKeyed, find-values, IsKeyed-put}
use hermes_plugin_dynamic_wo.Controls.Store.Interface.{ControlStore, find_control, stored, extended}
use hermes_plugin_dynamic_wo.Controls.Store.File.{
  Codec, Files, file_text, read_line, file_under, load_lines, load, line_of, write_line, append,
  append_known, list_for, view, IsValid, IsStorable, is_segment,
}

module _ (w : Codec) where
  -- The line of a storable record reads back as the record.
  read-line_of :
      (c : WorkflowControl) → IsStorable w c → read_line w c.run_id (line_of w c) ≡ some c
  unfolding read_line
  read-line_of c h =
      rw (h.stripped, ==_ne _ _ h.nonempty, h.carried)
        (rw (from_dict-to_dict w.text w.now c h.well_formed, eq_refl c.run_id) refl)

  load_lines-append :
      (r : String) (out : Dict WorkflowControl) (ls : List String) (l : String)
      → load_lines w r out (ls ++ l ∷ []) ≡ file_under w (read_line w r l) (load_lines w r out ls)
  unfolding load_lines
  load_lines-append r out [] l = refl
  load_lines-append r out (k ∷ ls) l = load_lines-append r (file_under w (read_line w r k) out) ls l

  file_under-IsKeyed :
      (o : Option WorkflowControl) (out : Dict WorkflowControl)
      → IsKeyed out
      → IsKeyed (file_under w o out)
  file_under-IsKeyed none out h = h
  file_under-IsKeyed (some c) out h = elim (Option-cases (get c.control_id out)) [
    | inl e ↦ rw e (IsKeyed-put c out h e)
    | inr (old, e) ↦ rw e h
  ]

  load_lines-IsKeyed :
      (r : String) (out : Dict WorkflowControl) (ls : List String)
      → IsKeyed out
      → IsKeyed (load_lines w r out ls)
  unfolding load_lines
  load_lines-IsKeyed r out [] h = h
  load_lines-IsKeyed r out (l ∷ ls) h =
      load_lines-IsKeyed r (file_under w (read_line w r l) out) ls
        (file_under-IsKeyed (read_line w r l) out h)

  find-load :
      (s : Files) (k r : String) → find_control k (Dict.values (load w s r)) ≡ get k (load w s r)
  unfolding load
  find-load s k r = find-values k _ (load_lines-IsKeyed r [] (split_lines (file_text (get r s))) tt)

  -- The file of a run after a line was written to it.
  load-write_line :
      (s : Files) (c : WorkflowControl)
      → IsValid w s
      → IsStorable w c
      → load w (write_line w s c) c.run_id ≡ file_under w (some c) (load w s c.run_id)
  unfolding load
  load-write_line s c v h =
      let t = file_text (get c.run_id s) in
      rw
        (
          get-put c.run_id c.run_id (str_append t (str_append (line_of w c) "\n")) s,
          eq_refl c.run_id,
          split_lines-append t (line_of w c) (v c.run_id) h.nonempty h.one_line,
          load_lines-append c.run_id [] (split_lines t) (line_of w c),
          read-line_of c h,
        )
        refl

  pub append_result :
      (s : Files) (c : WorkflowControl)
      → IsStorable w c
      → (append w s c).0 ≡ ok (stored c (find_control c.control_id (view w s c.run_id)))
  unfolding append
  append_result s c h =
      rw (h.run_id, h.control_id, find-load s c.control_id c.run_id)
        (elim (Option-cases (get c.control_id (load w s c.run_id))) [
          | inl e ↦ rw (e, append_known) refl
          | inr (old, e) ↦ rw (e, append_known) refl
        ])

  write_line-IsValid :
      (s : Files) (c : WorkflowControl) → IsValid w s → IsValid w (write_line w s c)
  write_line-IsValid s c v r =
      let t = file_text (get c.run_id s) in
      elim (Bool-cases (c.run_id == r)) [
        | inl e ↦
            rw (get-put c.run_id r (str_append t (str_append (line_of w c) "\n")) s, e)
              (append-IsComplete t (line_of w c))
        | inr e ↦ rw (get-put c.run_id r (str_append t (str_append (line_of w c) "\n")) s, e) (v r)
      ]

  pub append-IsValid : (s : Files) (c : WorkflowControl) → IsValid w s → IsValid w (append w s c).1
  unfolding append
  append-IsValid s c v = elim (Bool-cases (is_segment c.run_id && is_segment c.control_id)) [
    | inr e ↦ rw e v
    | inl e ↦ rw e (elim (Option-cases (get c.control_id (load w s c.run_id))) [
      | inl k ↦ rw (k, append_known) (write_line-IsValid s c v)
      | inr (old, k) ↦ rw (k, append_known) v
    ])
  ]

  pub view_append :
      (s : Files) (c : WorkflowControl)
      → IsValid w s
      → IsStorable w c
      → view w (append w s c).1 c.run_id
        ≡ extended c (find_control c.control_id (view w s c.run_id)) (view w s c.run_id)
  unfolding append
  view_append s c v h =
      rw (h.run_id, h.control_id, find-load s c.control_id c.run_id)
        (elim (Option-cases (get c.control_id (load w s c.run_id))) [
          | inl e ↦
              rw (e, append_known)
                (rw (load-write_line s c v h, e)
                  (ap Dict.values (put_new c.control_id c (load w s c.run_id) e)
                    ∙ values-append (load w s c.run_id) ((c.control_id, c) ∷ [])))
          | inr (old, e) ↦ rw (e, append_known) refl
        ])

  pub view_other :
      (s : Files) (c : WorkflowControl) (r : String)
      → (c.run_id == r) ≡ false
      → view w (append w s c).1 r ≡ view w s r
  unfolding append
  view_other s c r h = elim (Bool-cases (is_segment c.run_id && is_segment c.control_id)) [
    | inr e ↦ rw e refl
    | inl e ↦ rw e (elim (Option-cases (get c.control_id (load w s c.run_id))) [
      | inl k ↦ rw (k, append_known) (unchanged s c r h)
      | inr (old, k) ↦ rw (k, append_known) refl
    ])
  ]
    where
      unchanged :
          (s : Files) (c : WorkflowControl) (r : String)
          → (c.run_id == r) ≡ false
          → view w (write_line w s c) r ≡ view w s r
      unchanged s c r h =
          unfold load in
          rw
            (
              get-put c.run_id r
                  (str_append (file_text (get c.run_id s)) (str_append (line_of w c) "\n")) s,
              h,
            )
            refl

  pub list_for_view :
      (s : Files) (r : String) → is_segment r ≡ true → list_for w s r ≡ ok (view w s r)
  unfolding list_for
  list_for_view s r h = rw h refl

  -- The file store keeps the promises for records whose line survives the round trip.
  abbrev pub file_store : ControlStore
  file_store = record {
    Store = Files;
    IsValid = IsValid w;
    append = append w;
    list_for = list_for w;
    view = view w;
    IsRun = λ r. is_segment r ≡ true;
    IsStorable = IsStorable w;
    list_for_view = λ s r v h. list_for_view s r h;
    append_result = λ s c v h. append_result s c h;
    append-IsValid = append-IsValid;
    view_append = view_append;
    view_other = view_other;
  }
