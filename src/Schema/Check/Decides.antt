-- ===== src/Schema/Check/Decides.antt =====
-- `_check_value` decides `Conforms`, check by check.
use hermes_plugin_dynamic_wo.Prelude.{
  String, ◌≡◌, refl, ◌↔◌, inl, inr, Bool, true, false, Option, none, some, List, [], ◌∷◌, arith,
  Bool-cases, ◌⊎◌, if◌then◌else◌,
}
use hermes_plugin_dynamic_wo.Python.Value.{
  Value, Items, Fields, null, bool, int, float, str, arr, obj, cls, get_field,
}
use hermes_plugin_dynamic_wo.Prelude.Except.{>>-eq-ok_iff}
use hermes_plugin_dynamic_wo.Schema.Nodes.{
  Checked, TypeName, Node, Props, Sub, Entries, Step, ok, ◌>>◌, object_name, node, no_properties,
  properties, no_items, items, no_more, entry, property, element, entries_of, names_of,
}
use hermes_plugin_dynamic_wo.Schema.Check.{
  is_object_name, check_required, check_inside, reads_object, reads_array, required_of, check_value,
  check_properties, check_entries, check_items,
}
use hermes_plugin_dynamic_wo.Schema.Check.Conforms.{
  RequiredFits, IsObjectSchema, Inside, Optionally, Conforms, PropertiesConform, EntriesConform,
  ItemsConform,
}
use hermes_plugin_dynamic_wo.Schema.Check.Parts.{
  type_iff, enum_iff, required_iff, Closed-iff, Each-iff,
}

Inside-iff :
    (as_object as_array : Bool) (object : Fields → Checked) (array : Items → Checked)
    (P : Fields → Type 0) (Q : Items → Type 0)
    → ((d : Fields) → ((if as_object then object d else ok tt) ≡ ok tt) ↔ P d)
    → ((xs : Items) → ((if as_array then array xs else ok tt) ≡ ok tt) ↔ Q xs)
    → (v : Value) → (check_inside as_object object as_array array v ≡ ok tt) ↔ Inside P Q v
Inside-iff as_object as_array object array P Q p q (obj d) = p d
Inside-iff as_object as_array object array P Q p q (arr xs) = q xs
Inside-iff as_object as_array object array P Q p q null = (λ h. tt, λ h. refl)
Inside-iff as_object as_array object array P Q p q (bool b) = (λ h. tt, λ h. refl)
Inside-iff as_object as_array object array P Q p q (int n) = (λ h. tt, λ h. refl)
Inside-iff as_object as_array object array P Q p q (float x) = (λ h. tt, λ h. refl)
Inside-iff as_object as_array object array P Q p q (str s) = (λ h. tt, λ h. refl)
Inside-iff as_object as_array object array P Q p q (cls c) = (λ h. tt, λ h. refl)

object_name-eq : (t : Option TypeName) → is_object_name t ≡ true → t ≡ some object_name
object_name-eq (some object_name) h = refl
object_name-eq _ h = cc

-- Whether the code looks into a dict: exactly for a schema for a dict, and another schema names no
-- required keys and no properties.
reads-IsObjectSchema :
    (t : Option TypeName) (required : Option (List String)) (ps : Props)
    → ((reads_object t required ps ≡ true) × IsObjectSchema t required ps)
      ⊎ ((reads_object t required ps ≡ false)
          × (required ≡ none)
          × (ps ≡ no_properties)
          × (¬ IsObjectSchema t required ps))
reads-IsObjectSchema t (some ks) ps = inl (ground arith, inr (inl (ks, refl)))
reads-IsObjectSchema t none (properties es) = inl (ground arith, inr (inr (es, refl)))
reads-IsObjectSchema t none no_properties = elim (Bool-cases (is_object_name t)) [
  | inl e ↦ inl (rw e refl, inl (object_name-eq t e))
  | inr e ↦ inr (
    rw e refl,
    refl,
    refl,
    λ h. elim h [
      | inl k ↦ let bad = rw k at e in cc
      | inr (inl (ks, k)) ↦ cc
      | inr (inr (es, k)) ↦ cc
    ],
  )
]

required_of_iff :
    (o : Option (List String)) (d : Fields) (path : List Step)
    → (check_required (required_of o) d path ≡ ok tt) ↔ RequiredFits o d
required_of_iff none d path = required_iff [] d path
required_of_iff (some ks) d path = required_iff ks d path

-- A check of three parts.
all_iff :
    {P Q R : Type 0} (a b c : Checked)
    → ((a ≡ ok tt) ↔ P)
    → ((b ≡ ok tt) ↔ Q)
    → ((c ≡ ok tt) ↔ R)
    → (a >> b >> c ≡ ok tt) ↔ (P × Q × R)
all_iff a b c p q r = (
  λ h.
      let (ab, z) = (>>-eq-ok_iff (a >> b) c).0 h in
      let (x, y) = (>>-eq-ok_iff a b).0 ab in (p.0 x, q.0 y, r.0 z),
  λ h. (>>-eq-ok_iff (a >> b) c).1 ((>>-eq-ok_iff a b).1 (p.1 h.0, q.1 h.1), r.1 h.2),
)

-- A check under an optional value, and then another.
Optionally-iff :
    {R : Type 0} (P : Value → Type 0) (check : Value → Checked) (o : Option Value) (next : Checked)
    → ((v : Value) → (check v ≡ ok tt) ↔ P v)
    → ((next ≡ ok tt) ↔ R)
    → (elim o [ none ↦ ok tt | some v ↦ check v ] >> next ≡ ok tt) ↔ (Optionally P o × R)
Optionally-iff P check none next p r = (λ h. (tt, r.0 h), λ h. r.1 h.1)
Optionally-iff P check (some v) next p r = (
  λ h. let (x, y) = (>>-eq-ok_iff (check v) next).0 h in ((p v).0 x, r.0 y),
  λ h. (>>-eq-ok_iff (check v) next).1 ((p v).1 h.0, r.1 h.1),
)

-- The check of a dict, behind its condition.
dict_iff :
    {P Q R : Type 0} (t : Option TypeName) (required : Option (List String)) (ps : Props)
    (a b c : Checked)
    → ((a ≡ ok tt) ↔ P)
    → ((b ≡ ok tt) ↔ Q)
    → ((c ≡ ok tt) ↔ R)
    → (required ≡ none → P)
    → (ps ≡ no_properties → Q)
    → ((if reads_object t required ps then a >> b >> c else ok tt) ≡ ok tt)
      ↔ (P × Q × ((¬ IsObjectSchema t required ps) ⊎ R))
dict_iff t required ps a b c p q r bare_p bare_q = elim (reads-IsObjectSchema t required ps) [
  | inl (e, is) ↦ (
    λ h. let (x, y, z) = (all_iff a b c p q r).0 (rw e at h) in (x, y, inr z),
    λ (x, y, z). elim z [
      | inl not_dict ↦ absurd (not_dict is)
      | inr k ↦ rw e ((all_iff a b c p q r).1 (x, y, k))
    ],
  )
  | inr (e, no_keys, no_props, not_dict) ↦
      (λ h. (bare_p no_keys, bare_q no_props, inl not_dict), λ h. rw e refl)
]

required_bare : (o : Option (List String)) (d : Fields) → o ≡ none → RequiredFits o d
required_bare none d e = tt
required_bare (some ks) d e = cc

properties_bare : (ps : Props) (d : Fields) → ps ≡ no_properties → PropertiesConform ps d
unfolding Conforms
properties_bare no_properties d e = tt
properties_bare (properties es) d e = cc

items_bare : (sub : Sub) (xs : Items) → sub ≡ no_items → ItemsConform sub xs
unfolding Conforms
items_bare no_items xs e = tt
items_bare (items n) xs e = cc

-- The check of a list, behind its condition: without it there are no items to conform to.
list_iff :
    (t : Option TypeName) (sub : Sub) (xs : Items) (a : Checked)
    → ((a ≡ ok tt) ↔ ItemsConform sub xs)
    → ((if reads_array t sub then a else ok tt) ≡ ok tt) ↔ ItemsConform sub xs
list_iff t (items n) xs a p = rw (reads_items t n) p
  where
    reads_items : (t : Option TypeName) (n : Node) → reads_array t (items n) ≡ true
    reads_items t n = ground arith
list_iff t no_items xs a p = elim (Bool-cases (reads_array t no_items)) [
  | inl e ↦ rw e p
  | inr e ↦ (λ h. items_bare no_items xs refl, λ h. rw e refl)
]

mutual
  unfolding check_value Conforms

  pub value_iff :
      (n : Node) (v : Value) (path : List Step) → (check_value n v path ≡ ok tt) ↔ Conforms n v
  value_iff (node t required ps sub enum extra) v path =
      all_iff _ _ _ (type_iff t v path) (enum_iff enum v path) (
        Inside-iff (reads_object t required ps) (reads_array t sub) _ _ _ _
          (λ d.
            dict_iff t required ps _ _ _ (required_of_iff required d path)
              (properties_iff ps d path) (Closed-iff extra (names_of (entries_of ps)) d path)
              (required_bare required d) (properties_bare ps d))
          (λ xs. list_iff t sub xs _ (items_iff sub xs path)) v)

  properties_iff :
      (ps : Props) (d : Fields) (path : List Step)
      → (check_properties ps d path ≡ ok tt) ↔ PropertiesConform ps d
  properties_iff no_properties d path = (λ h. tt, λ h. refl)
  properties_iff (properties es) d path = entries_iff es d path

  entries_iff :
      (es : Entries) (d : Fields) (path : List Step)
      → (check_entries es d path ≡ ok tt) ↔ EntriesConform es d
  entries_iff no_more d path = (λ h. tt, λ h. refl)
  entries_iff (entry k n es) d path =
      Optionally-iff (λ v. Conforms n v) (λ v. check_value n v (property k ∷ path)) (get_field k d)
        _ (λ v. value_iff n v (property k ∷ path)) (entries_iff es d path)

  items_iff :
      (sub : Sub) (xs : Items) (path : List Step)
      → (check_items sub xs path ≡ ok tt) ↔ ItemsConform sub xs
  items_iff no_items xs path = (λ h. tt, λ h. refl)
  items_iff (items n) xs path =
      Each-iff (λ v. Conforms n v) (λ v i. check_value n v (element i ∷ path))
        (λ v i. value_iff n v (element i ∷ path)) 0 xs
