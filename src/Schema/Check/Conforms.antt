-- ===== src/Schema/Check/Conforms.antt =====
-- What it means that a value conforms to a schema: no order of checks, no errors, no paths.
use hermes_plugin_dynamic_wo.Prelude.{
  String, ◌≡◌, Bool, true, false, Option, none, some, List, member, All, ◌⊎◌,
}
use hermes_plugin_dynamic_wo.Python.Value.{
  Value, Items, Fields, null, bool, int, float, str, arr, obj, nil, cons, get_field, has_field,
  field_keys, value_eq,
}
use hermes_plugin_dynamic_wo.Schema.Nodes.{
  TypeName, Node, Props, Sub, Entries, object_name, array_name, string_name, number_name,
  integer_name, boolean_name, null_name, node, no_properties, properties, no_items, items, no_more,
  entry, entries_of, names_of,
}

-- The values of each type: a bool is neither a number nor an integer.
pub data HasType : TypeName → Value → Type 0 where
  of_object : {d : Fields} → HasType object_name (obj d)
  of_array : {xs : Items} → HasType array_name (arr xs)
  of_string : {s : String} → HasType string_name (str s)
  of_number : {n : _} → HasType number_name (int n)
  of_float : {x : _} → HasType number_name (float x)
  of_integer : {n : _} → HasType integer_name (int n)
  of_boolean : {b : Bool} → HasType boolean_name (bool b)
  of_null : HasType null_name null

abbrev pub TypeFits : Option TypeName → Value → Type 0
TypeFits none v = Unit
TypeFits (some t) v = HasType t v

-- A value equal to one of a list.
pub data Among (v : Value) : Items → Type 0 where
  here : {w : Value} {ws : Items} → value_eq v w ≡ true → Among v (cons w ws)
  there : {w : Value} {ws : Items} → Among v ws → Among v (cons w ws)

abbrev pub EnumFits : Option Items → Value → Type 0
EnumFits none v = Unit
EnumFits (some ws) v = Among v ws

abbrev pub HasFields : List String → Fields → Type 0
HasFields ks d = All (λ k. has_field k d ≡ true) ks

-- With `additionalProperties: false`, every key is one of the declared properties. `Conforms` asks
-- this of a schema for a dict only.
abbrev pub Closed : Option Bool → List String → Fields → Type 0
Closed (some false) ks d = All (λ j. member j ks ≡ true) (field_keys d)
Closed _ ks d = Unit

abbrev pub Each : (Value → Type 0) → Items → Type 0
Each P nil = Unit
Each P (cons v xs) = P v × Each P xs

-- A schema for a dict has the type object, or names required keys, or declares properties.
abbrev pub IsObjectSchema : Option TypeName → Option (List String) → Props → Type 0
IsObjectSchema t required ps =
    (t ≡ some object_name)
    ⊎ ((ks : List String) × (required ≡ some ks))
    ⊎ ((es : Entries) × (ps ≡ properties es))

-- The keys that must be there.
abbrev pub RequiredFits : Option (List String) → Fields → Type 0
RequiredFits none d = Unit
RequiredFits (some ks) d = HasFields ks d

-- What is asked of a dict or of a list.
abbrev pub Inside : (Fields → Type 0) → (Items → Type 0) → Value → Type 0
Inside P Q (obj d) = P d
Inside P Q (arr xs) = Q xs
Inside P Q _ = Unit

abbrev pub Optionally : (Value → Type 0) → Option Value → Type 0
Optionally P none = Unit
Optionally P (some v) = P v

unfoldable mutual
  pub Conforms : Node → Value → Type 0
  Conforms (node t required ps sub enum extra) v =
      TypeFits t v
      × EnumFits enum v
      × Inside
          (λ d.
            RequiredFits required d
            × PropertiesConform ps d
            × ((¬ IsObjectSchema t required ps) ⊎ Closed extra (names_of (entries_of ps)) d))
          (λ xs. ItemsConform sub xs) v

  pub PropertiesConform : Props → Fields → Type 0
  PropertiesConform no_properties d = Unit
  PropertiesConform (properties es) d = EntriesConform es d

  pub EntriesConform : Entries → Fields → Type 0
  EntriesConform no_more d = Unit
  EntriesConform (entry k n es) d =
      Optionally (λ v. Conforms n v) (get_field k d) × EntriesConform es d

  pub ItemsConform : Sub → Items → Type 0
  ItemsConform no_items xs = Unit
  ItemsConform (items n) xs = Each (λ v. Conforms n v) xs
