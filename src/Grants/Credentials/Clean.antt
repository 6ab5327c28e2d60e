-- ===== src/Grants/Credentials/Clean.antt =====
-- `find_raw_credential` of grants.py finds nothing exactly in the values that hold no credential.
use hermes_plugin_dynamic_wo.Prelude.{String, ◌≡◌, refl, false, none, arith, ◌↔◌}
use hermes_plugin_dynamic_wo.Python.Value.{
  Value, Items, Fields, str, arr, obj, nil, cons, end, field, null, bool, int, float, cls,
}
use hermes_plugin_dynamic_wo.Python.Text.{Unicode}
use hermes_plugin_dynamic_wo.Grants.Credentials.{
  is_credential_key, looks_like_credential, find_raw_credential, find_in_items, find_in_fields,
}
use hermes_plugin_dynamic_wo.Grants.Credentials.Occurs.{
  KeyIn, KeyInItems, KeyInFields, TextIn, TextInItems, TextInFields,
}

-- No key of the value is credential-shaped, and no text in it.
pub record IsClean (u : Unicode) (v : Value) : Type 0 where
  pub keys : (k : String) → KeyIn k v → is_credential_key u k ≡ false
  pub texts : (t : String) → TextIn t v → looks_like_credential u t ≡ false

module _ (u : Unicode) where
  mutual
    unfolding find_raw_credential

    key_clean :
        (k : String) {v : Value}
        → KeyIn k v
        → find_raw_credential u v ≡ none
        → is_credential_key u k ≡ false
    key_clean k (KeyIn.of_obj o) h = key_clean_fields k o h
    key_clean k (KeyIn.of_arr o) h = key_clean_items k o h

    key_clean_items :
        (k : String) {xs : Items}
        → KeyInItems k xs
        → find_in_items u xs ≡ none
        → is_credential_key u k ≡ false
    key_clean_items k (KeyInItems.head {v = v} {xs = xs} o) h = key_clean k o (ground arith)
    key_clean_items k (KeyInItems.tail {v = v} {xs = xs} o) h = key_clean_items k o (ground arith)

    key_clean_fields :
        (k : String) {d : Fields}
        → KeyInFields k d
        → find_in_fields u d ≡ none
        → is_credential_key u k ≡ false
    key_clean_fields k KeyInFields.this h = ground arith
    key_clean_fields k (KeyInFields.below o) h = key_clean k o (ground arith)
    key_clean_fields k (KeyInFields.later o) h = key_clean_fields k o (ground arith)

  mutual
    unfolding find_raw_credential

    text_clean :
        (t : String) {v : Value}
        → TextIn t v
        → find_raw_credential u v ≡ none
        → looks_like_credential u t ≡ false
    text_clean t TextIn.itself h = ground arith
    text_clean t (TextIn.of_obj o) h = text_clean_fields t o h
    text_clean t (TextIn.of_arr o) h = text_clean_items t o h

    text_clean_items :
        (t : String) {xs : Items}
        → TextInItems t xs
        → find_in_items u xs ≡ none
        → looks_like_credential u t ≡ false
    text_clean_items t (TextInItems.head o) h = text_clean t o (ground arith)
    text_clean_items t (TextInItems.tail o) h = text_clean_items t o (ground arith)

    text_clean_fields :
        (t : String) {d : Fields}
        → TextInFields t d
        → find_in_fields u d ≡ none
        → looks_like_credential u t ≡ false
    text_clean_fields t (TextInFields.below o) h = text_clean t o (ground arith)
    text_clean_fields t (TextInFields.later o) h = text_clean_fields t o (ground arith)

  mutual
    unfolding find_raw_credential

    clean_none :
        (v : Value)
        → ((k : String) → KeyIn k v → is_credential_key u k ≡ false)
        → ((t : String) → TextIn t v → looks_like_credential u t ≡ false)
        → find_raw_credential u v ≡ none
    clean_none (obj d) ks ts =
        clean_none_fields d (λ k o. ks k (KeyIn.of_obj o)) (λ t o. ts t (TextIn.of_obj o))
    clean_none (arr xs) ks ts =
        clean_none_items xs (λ k o. ks k (KeyIn.of_arr o)) (λ t o. ts t (TextIn.of_arr o))
    clean_none (str s) ks ts = rw (ts s TextIn.itself) refl
    clean_none null ks ts = refl
    clean_none (bool b) ks ts = refl
    clean_none (int n) ks ts = refl
    clean_none (float x) ks ts = refl
    clean_none (cls c) ks ts = refl

    clean_none_items :
        (xs : Items)
        → ((k : String) → KeyInItems k xs → is_credential_key u k ≡ false)
        → ((t : String) → TextInItems t xs → looks_like_credential u t ≡ false)
        → find_in_items u xs ≡ none
    clean_none_items nil ks ts = refl
    clean_none_items (cons v xs) ks ts =
        let here =
          clean_none v (λ k o. ks k (KeyInItems.head o)) (λ t o. ts t (TextInItems.head o)) in
        let rest =
          clean_none_items xs (λ k o. ks k (KeyInItems.tail o))
            (λ t o. ts t (TextInItems.tail o)) in
        ground arith

    clean_none_fields :
        (d : Fields)
        → ((k : String) → KeyInFields k d → is_credential_key u k ≡ false)
        → ((t : String) → TextInFields t d → looks_like_credential u t ≡ false)
        → find_in_fields u d ≡ none
    clean_none_fields end ks ts = refl
    clean_none_fields (field j v d) ks ts =
        let key = ks j KeyInFields.this in
        let here =
          clean_none v (λ k o. ks k (KeyInFields.below o)) (λ t o. ts t (TextInFields.below o)) in
        let rest =
          clean_none_fields d (λ k o. ks k (KeyInFields.later o))
            (λ t o. ts t (TextInFields.later o)) in
        ground arith

  -- The scan finds nothing exactly where no key anywhere in the value is credential-shaped and no
  -- text in it looks like a credential.
  pub find-none_iff : (v : Value) → (find_raw_credential u v ≡ none) ↔ IsClean u v
  find-none_iff v = (
    λ h. record { keys = λ k o. key_clean k o h; texts = λ t o. text_clean t o h },
    λ c. clean_none v c.keys c.texts,
  )
