-- ===== src/Grants/Stores.antt =====
-- `InMemoryGrantStore` and `FileGrantStore` of grants.py: the grants that were issued, by their ids.
-- A file store is a map from a grant's id to the text of its file, replaced as a whole.
use Prim.Native.String.{◌++◌ as str_append}
use hermes_plugin_dynamic_wo.Prelude.{
  String, ◌≡◌, refl, ap, Bool, true, false, Option, none, some, ◌==◌, arith, ◌⊎◌, inl, inr,
}
use hermes_plugin_dynamic_wo.Prelude.Dict.{Dict, get, put, get-put, get-put_self}
use hermes_plugin_dynamic_wo.Python.Value.{Value, Fields, str, obj, value_eq}
use hermes_plugin_dynamic_wo.Grants.Records.{Result, ok, err, Platform, GrantRequest, SessionGrant}
use hermes_plugin_dynamic_wo.Grants.Checks.{safe_identifier, safe_grant_id}
use hermes_plugin_dynamic_wo.Grants.Codec.{to_dict}
use hermes_plugin_dynamic_wo.Grants.Resolve.{Answer, issued, resolve_grant}
use hermes_plugin_dynamic_wo.Grants.Resolve.Sound.{resolve-Outcome}

abbrev pub GrantMemory : Type 0
GrantMemory = Dict Fields

-- `InMemoryGrantStore.save_grant`
unfoldable pub save_grant : SessionGrant → GrantMemory → Bool × GrantMemory
unfolding to_dict
save_grant g s = (true, put g.grant_id (to_dict g) s)

-- `InMemoryGrantStore.get_grant`
abbrev pub get_grant : GrantMemory → String → Option Fields
get_grant s grant_id = get grant_id s

abbrev pub GrantFiles : Type 0
GrantFiles = Dict String

-- `json.loads` of a file's text: a value, or an error.
abbrev parsed : Option Value → Option (Option Value)
parsed none = none
parsed (some v) = some (some v)

-- `dumps` is `json.dumps` with sorted keys and an indent of 2, `none` where it raises, and `loads`
-- is `json.loads`.
module _ (p : Platform) (dumps : Value → Option String) (loads : String → Option Value) where
  abbrev write_text : Option String → String → GrantFiles → Bool × GrantFiles
  write_text none name s = (false, s)
  write_text (some text) name s = (true, put name (str_append text "\n") s)

  abbrev write_file : Result String → SessionGrant → GrantFiles → Bool × GrantFiles
  write_file (err e) g s = (false, s)
  write_file (ok name) g s = write_text (dumps (obj (to_dict g))) name s

  -- `FileGrantStore.save_grant`: it raises, before any grant's file is touched, on an unsafe id and
  -- on a dict that `json.dumps` does not take.
  unfoldable pub save_file : SessionGrant → GrantFiles → Bool × GrantFiles
  unfolding safe_identifier to_dict
  save_file g s = write_file (safe_grant_id p (str g.grant_id)) g s

  -- A missing file, a file that does not parse (which raises), or what it holds.
  abbrev parse_file : Option String → Option (Option Value)
  parse_file none = some none
  parse_file (some t) = parsed (loads t)

  abbrev read_file : Result String → GrantFiles → Option (Option Value)
  read_file (err e) s = none
  read_file (ok name) s = parse_file (get name s)

  -- `FileGrantStore.get_grant`: `none` where it raises
  unfoldable pub get_file : GrantFiles → String → Option (Option Value)
  unfolding safe_identifier
  get_file s grant_id = read_file (safe_grant_id p (str grant_id)) s

-- The ids of a stored grant and of the others.
abbrev pub IsStored : SessionGrant → GrantMemory → GrantMemory → Type 0
IsStored g s s' =
    (get_grant s' g.grant_id ≡ some (to_dict g))
    × ((j : String) → (g.grant_id == j) ≡ false → get_grant s' j ≡ get_grant s j)

save_grant-IsStored :
    (g : SessionGrant) (b : Bool) (s s' : GrantMemory) → save_grant g s ≡ (b, s') → IsStored g s s'
unfolding save_grant
save_grant-IsStored g b s s' h =
    let e = ap (λ o. o.1) h in
    (
      rw (← e) (get-put_self g.grant_id (to_dict g) s),
      λ j k. rw (← e) (rw (get-put g.grant_id j (to_dict g) s, k) refl),
    )

-- The store in memory does not raise.
save_grant_returns : (g : SessionGrant) (s s' : GrantMemory) → save_grant g s ≡ (false, s') → ⊥
unfolding save_grant
save_grant_returns g s s' h = let e = ap (λ o. o.0) h in cc

module _ (p : Platform) where
  -- With a store in memory, `resolve_grant` refuses and remembers nothing, or the grant that it
  -- returns is read back by its id as it was returned, and the grants of other ids are as before.
  pub resolve-IsStored :
      (broker : Option (GrantRequest → Answer)) (r : GrantRequest) (s : GrantMemory)
      → (((resolve_grant p broker r (some save_grant) s).0.is_granted ≡ false)
          × ((resolve_grant p broker r (some save_grant) s).1 ≡ s))
        ⊎ ((g : SessionGrant) × ((resolve_grant p broker r (some save_grant) s).0.grant ≡ issued g)
            × IsStored g s (resolve_grant p broker r (some save_grant) s).1)
  resolve-IsStored broker r s = elim (resolve-Outcome p broker r (some save_grant) s) [
    | inl (e, inl kept) ↦ inl (e, kept)
    | inl (e, inr (code, none_sent, (g, within, provenance, raised))) ↦
        absurd (save_grant_returns g s _ raised)
    | inr (granted, (g, e, within, provenance, saved)) ↦
        inr (g, e, save_grant-IsStored g true s _ saved)
  ]

-- An id that passes is returned.
safe_grant_id-eq-ok :
    (p : Platform) (s : String) {t : String} → safe_grant_id p (str s) ≡ ok t → t ≡ s
unfolding safe_identifier
safe_grant_id-eq-ok p s h = ground arith

module _ (p : Platform) (dumps : Value → Option String) (loads : String → Option Value) where
  -- A file under a name is not read by another id.
  read_other :
      (name j t : String) (s : GrantFiles)
      → (name == j) ≡ false
      → read_file p dumps loads (safe_grant_id p (str j)) (put name t s)
        ≡ read_file p dumps loads (safe_grant_id p (str j)) s
  read_other name j t s h = by_id (safe_grant_id p (str j)) refl
    where
      by_id :
          (o : Result String)
          → safe_grant_id p (str j) ≡ o
          → read_file p dumps loads o (put name t s) ≡ read_file p dumps loads o s
      by_id (err e) k = refl
      by_id (ok i) k =
          ap (parse_file p dumps loads)
            (rw (safe_grant_id-eq-ok p j k) (rw (get-put name j t s, h) refl))

  -- Where `json.dumps` takes a grant's dict, and `json.loads` of its text and a newline gives a value
  -- that Python finds equal to the dict (the keys may come back in another order), a grant that the
  -- file store saved without an error is read back by its id as such a value, and what is read by
  -- any other id is as before.
  pub get_file-save_file :
      (g : SessionGrant) (s s' : GrantFiles) (text : String) (v : Value)
      → dumps (obj (to_dict g)) ≡ some text
      → loads (str_append text "\n") ≡ some v
      → value_eq v (obj (to_dict g)) ≡ true
      → save_file p dumps loads g s ≡ (true, s')
      → ((w : Value) × (get_file p dumps loads s' g.grant_id ≡ some (some w))
          × (value_eq w (obj (to_dict g)) ≡ true))
        × ((j : String)
            → (g.grant_id == j) ≡ false
            → get_file p dumps loads s' j ≡ get_file p dumps loads s j)
  unfolding save_file get_file
  get_file-save_file g s s' text v written carried same h =
      by_name (safe_grant_id p (str g.grant_id)) refl h
    where
      by_name :
          (o : Result String)
          → safe_grant_id p (str g.grant_id) ≡ o
          → write_file p dumps loads o g s ≡ (true, s')
          → ((w : Value) × (read_file p dumps loads (safe_grant_id p (str g.grant_id)) s'
                ≡ some (some w))
              × (value_eq w (obj (to_dict g)) ≡ true))
            × ((j : String)
                → (g.grant_id == j) ≡ false
                → read_file p dumps loads (safe_grant_id p (str j)) s'
                  ≡ read_file p dumps loads (safe_grant_id p (str j)) s)
      by_name (err e) k h' = let bad = ap (λ o. o.0) h' in cc
      by_name (ok name) k h' =
          let e : put name (str_append text "\n") s ≡ s' = ap (λ o. o.1) (rw written at h') in
          (
            (v, rw (k, ← e, get-put_self name (str_append text "\n") s) (ap parsed carried), same),
            λ j other. rw (← e) (
                read_other name j (str_append text "\n") s
                  (rw (safe_grant_id-eq-ok p g.grant_id k) other)),
          )
