-- ===== src/Grants/Credentials/Occurs.antt =====
-- What occurs in a value, as relations.
use hermes_plugin_dynamic_wo.Prelude.{String}
use hermes_plugin_dynamic_wo.Python.Value.{Value, Items, Fields, str, arr, obj, cons, field}

-- A text stands in a value, as a key of some dict in it or as a text in it.
mutual
  pub data KeyIn (k : String) : Value → Type 0 where
    of_obj : {d : Fields} → KeyInFields k d → KeyIn k (obj d)
    of_arr : {xs : Items} → KeyInItems k xs → KeyIn k (arr xs)

  pub data KeyInItems (k : String) : Items → Type 0 where
    head : {v : Value} {xs : Items} → KeyIn k v → KeyInItems k (cons v xs)
    tail : {v : Value} {xs : Items} → KeyInItems k xs → KeyInItems k (cons v xs)

  pub data KeyInFields (k : String) : Fields → Type 0 where
    this : {v : Value} {d : Fields} → KeyInFields k (field k v d)
    below : {j : String} {v : Value} {d : Fields} → KeyIn k v → KeyInFields k (field j v d)
    later : {j : String} {v : Value} {d : Fields} → KeyInFields k d → KeyInFields k (field j v d)

mutual
  pub data TextIn (t : String) : Value → Type 0 where
    itself : TextIn t (str t)
    of_obj : {d : Fields} → TextInFields t d → TextIn t (obj d)
    of_arr : {xs : Items} → TextInItems t xs → TextIn t (arr xs)

  pub data TextInItems (t : String) : Items → Type 0 where
    head : {v : Value} {xs : Items} → TextIn t v → TextInItems t (cons v xs)
    tail : {v : Value} {xs : Items} → TextInItems t xs → TextInItems t (cons v xs)

  pub data TextInFields (t : String) : Fields → Type 0 where
    below : {j : String} {v : Value} {d : Fields} → TextIn t v → TextInFields t (field j v d)
    later : {j : String} {v : Value} {d : Fields} → TextInFields t d → TextInFields t (field j v d)
