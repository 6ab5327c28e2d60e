-- ===== src/Grants/Credentials/Redacted.antt =====
-- `redact_credentials` of grants.py: what it masks, and what it leaves.
use mathlib.Core.Option
use hermes_plugin_dynamic_wo.Prelude.{
  eq_iff, String, ◌≡◌, refl, ap, ap₂, Bool, true, false, ◌⊎◌, inl, inr, none, arith, if◌then◌else◌,
  Bool-cases,
}
use hermes_plugin_dynamic_wo.Python.Value.{
  Value, Items, Fields, str, arr, obj, nil, cons, end, field, null, bool, int, float, cls,
  get_field,
}
use hermes_plugin_dynamic_wo.Python.Text.{Unicode}
use hermes_plugin_dynamic_wo.Grants.Credentials.{
  redacted, is_credential_key, looks_like_credential, find_raw_credential, find_in_items,
  find_in_fields, redact_credentials, redact_items, redact_fields,
}
use hermes_plugin_dynamic_wo.Grants.Credentials.Occurs.{TextIn, TextInItems, TextInFields}

module _ (u : Unicode) where
  mutual
    unfolding find_raw_credential redact_credentials

    redact_clean : (v : Value) → find_raw_credential u v ≡ none → redact_credentials u v ≡ v
    redact_clean (obj d) h = ap obj (redact_clean_fields d h)
    redact_clean (arr xs) h = ap arr (redact_clean_items xs h)
    redact_clean (str s) h = ground arith
    redact_clean null h = refl
    redact_clean (bool b) h = refl
    redact_clean (int n) h = refl
    redact_clean (float x) h = refl
    redact_clean (cls c) h = refl

    redact_clean_items : (xs : Items) → find_in_items u xs ≡ none → redact_items u xs ≡ xs
    redact_clean_items nil h = refl
    redact_clean_items (cons v xs) h =
        ap₂ cons (redact_clean v (ground arith)) (redact_clean_items xs (ground arith))

    redact_clean_fields : (d : Fields) → find_in_fields u d ≡ none → redact_fields u d ≡ d
    redact_clean_fields end h = refl
    redact_clean_fields (field k v d) h =
        let safe : is_credential_key u k ≡ false = ground arith in
        rw safe
          (ap₂ (field k) (redact_clean v (ground arith)) (redact_clean_fields d (ground arith)))

  -- A value in which the scan finds nothing is left as it is.
  pub redact-eq_of_clean : (v : Value) → find_raw_credential u v ≡ none → redact_credentials u v ≡ v
  redact-eq_of_clean v h = redact_clean v h

  -- What is left of a text of the value.
  abbrev IsMasked : String → Type 0
  IsMasked t = (t ≡ redacted) ⊎ (looks_like_credential u t ≡ false)

  IsMasked-text :
      (s t : String) (b : Bool)
      → looks_like_credential u s ≡ b
      → TextIn t (if b then str redacted else str s)
      → IsMasked t
  IsMasked-text s t true h TextIn.itself = inl refl
  IsMasked-text s t false h TextIn.itself = inr h

  IsMasked-field :
      (k t : String) (v : Value) (d : Fields) (b : Bool)
      → (TextIn t v → IsMasked t)
      → (TextInFields t d → IsMasked t)
      → TextInFields t (field k (if b then str redacted else v) d)
      → IsMasked t
  IsMasked-field k t v d true f g (TextInFields.below TextIn.itself) = inl refl
  IsMasked-field k t v d false f g (TextInFields.below o) = f o
  IsMasked-field k t v d true f g (TextInFields.later o) = g o
  IsMasked-field k t v d false f g (TextInFields.later o) = g o

  IsMasked-item :
      (t : String) (v : Value) (xs : Items)
      → (TextIn t v → IsMasked t)
      → (TextInItems t xs → IsMasked t)
      → TextInItems t (cons v xs)
      → IsMasked t
  IsMasked-item t v xs f g (TextInItems.head o) = f o
  IsMasked-item t v xs f g (TextInItems.tail o) = g o

  under_obj : {t : String} {d : Fields} → TextIn t (obj d) → TextInFields t d
  under_obj (TextIn.of_obj o) = o

  under_arr : {t : String} {xs : Items} → TextIn t (arr xs) → TextInItems t xs
  under_arr (TextIn.of_arr o) = o

  mutual
    unfolding redact_credentials

    IsMasked-redact : (v : Value) (t : String) → TextIn t (redact_credentials u v) → IsMasked t
    IsMasked-redact (obj d) t o = IsMasked-fields d t (under_obj o)
    IsMasked-redact (arr xs) t o = IsMasked-items xs t (under_arr o)
    IsMasked-redact (str s) t o = IsMasked-text s t (looks_like_credential u s) refl o
    IsMasked-redact null t o = elim o [ ]
    IsMasked-redact (bool b) t o = elim o [ ]
    IsMasked-redact (int n) t o = elim o [ ]
    IsMasked-redact (float x) t o = elim o [ ]
    IsMasked-redact (cls c) t o = elim o [ ]

    IsMasked-items : (xs : Items) (t : String) → TextInItems t (redact_items u xs) → IsMasked t
    IsMasked-items nil t o = elim o [ ]
    IsMasked-items (cons v xs) t o =
        IsMasked-item t (redact_credentials u v) (redact_items u xs) (IsMasked-redact v t)
          (IsMasked-items xs t) o

    IsMasked-fields : (d : Fields) (t : String) → TextInFields t (redact_fields u d) → IsMasked t
    IsMasked-fields end t o = elim o [ ]
    IsMasked-fields (field k v d) t o =
        IsMasked-field k t (redact_credentials u v) (redact_fields u d) (is_credential_key u k)
          (IsMasked-redact v t) (IsMasked-fields d t) o

  mutual
    unfolding redact_credentials

    redact_twice :
        (v : Value)
        → looks_like_credential u redacted ≡ false
        → redact_credentials u (redact_credentials u v) ≡ redact_credentials u v
    redact_twice (obj d) h = ap obj (redact_twice_fields d h)
    redact_twice (arr xs) h = ap arr (redact_twice_items xs h)
    redact_twice (str s) h = elim (Bool-cases (looks_like_credential u s)) [
      | inl e ↦ rw e (rw h refl)
      | inr e ↦ rw e (rw e refl)
    ]
    redact_twice null h = refl
    redact_twice (bool b) h = refl
    redact_twice (int n) h = refl
    redact_twice (float x) h = refl
    redact_twice (cls c) h = refl

    redact_twice_items :
        (xs : Items)
        → looks_like_credential u redacted ≡ false
        → redact_items u (redact_items u xs) ≡ redact_items u xs
    redact_twice_items nil h = refl
    redact_twice_items (cons v xs) h = ap₂ cons (redact_twice v h) (redact_twice_items xs h)

    pub redact_twice_fields :
        (d : Fields)
        → looks_like_credential u redacted ≡ false
        → redact_fields u (redact_fields u d) ≡ redact_fields u d
    redact_twice_fields end h = refl
    redact_twice_fields (field k v d) h = elim (Bool-cases (is_credential_key u k)) [
      | inl e ↦ rw e (ap (field k (str redacted)) (redact_twice_fields d h))
      | inr e ↦ rw e (ap₂ (field k) (redact_twice v h) (redact_twice_fields d h))
    ]

  -- A dict keeps its keys; the value of a credential-shaped key is the placeholder, and any other
  -- value is redacted in turn.
  pub get-redact_fields :
      (k : String) (d : Fields)
      → get_field k (redact_fields u d)
        ≡ Option.map
            (λ v. if is_credential_key u k then str redacted else redact_credentials u v)
            (get_field k d)
  unfolding get_field redact_credentials
  get-redact_fields k end = refl
  get-redact_fields k (field j v d) = ground (arith, get-redact_fields k d, eq_iff j k)

  -- Every text left in a redacted value is the placeholder or does not look like a credential,
  -- and redacting again changes nothing where the placeholder itself does not look like one.
  pub redact_safe :
      (v : Value)
      → looks_like_credential u redacted ≡ false
      → ((t : String)
          → TextIn t (redact_credentials u v)
          → (t ≡ redacted) ⊎ (looks_like_credential u t ≡ false))
        × (redact_credentials u (redact_credentials u v) ≡ redact_credentials u v)
  redact_safe v h = (IsMasked-redact v, redact_twice v h)
