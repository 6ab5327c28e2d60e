-- ===== src/Schema/Check/Errors/Payloads.antt =====
-- `_check_value` raises about the payload alone.
use hermes_plugin_dynamic_wo.Prelude.{
  ℕ, suc, not, ◌||◌, if◌then◌else◌, String, refl, Bool, true, false, Option, none, some, List, [],
  ◌∷◌,
}
use hermes_plugin_dynamic_wo.Python.Value.{
  Value, Items, Fields, null, bool, int, float, str, arr, obj, nil, cons, cls, get_field, has_field,
  field_keys,
}
use hermes_plugin_dynamic_wo.Schema.Nodes.{
  Checked, TypeName, Node, Props, Sub, Entries, Step, Mismatch, ok, guard, node, no_properties,
  properties, no_items, items, no_more, entry, property, element, mismatch, got_bool, wrong_class,
  not_in_enum, missing_field, entries_of, names_of,
}
use hermes_plugin_dynamic_wo.Schema.Check.{
  is_instance, is_bool, is_boolean_name, check_type, is_among, check_enum, check_required,
  unexpected, check_none_left, check_additional, check_each, check_inside, reads_object,
  reads_array, required_of, check_value, check_properties, check_entries, check_items,
}
use hermes_plugin_dynamic_wo.Schema.Check.Errors.Kinds.{Only, Only->>=}

guard-Only : (b : Bool) (path : List Step) (m : Mismatch) → Only false (guard b (mismatch path m))
guard-Only true path m = tt
guard-Only false path m = refl

type_check-Only :
    (t : Option TypeName) (v : Value) (path : List Step) → Only false (check_type t v path)
type_check-Only none v path = tt
type_check-Only (some t) v path =
    Only->>= _ _ _ (guard-Only (is_boolean_name t || not (is_bool v)) path (got_bool t))
      (λ x. guard-Only (is_instance t v) path (wrong_class t))

enum_check-Only :
    (o : Option Items) (v : Value) (path : List Step) → Only false (check_enum o v path)
enum_check-Only none v path = tt
enum_check-Only (some ws) v path = guard-Only (is_among v ws) path not_in_enum

required_check-Only :
    (ks : List String) (d : Fields) (path : List Step) → Only false (check_required ks d path)
required_check-Only [] d path = tt
required_check-Only (k ∷ ks) d path =
    Only->>= _ _ _ (guard-Only (has_field k d) path (missing_field k))
      (λ x. required_check-Only ks d path)

none_left-Only : (ks : List String) (path : List Step) → Only false (check_none_left ks path)
none_left-Only [] path = tt
none_left-Only (k ∷ ks) path = refl

closed_check-Only :
    (o : Option Bool) (ks : List String) (d : Fields) (path : List Step)
    → Only false (check_additional o ks d path)
closed_check-Only none ks d path = tt
closed_check-Only (some true) ks d path = tt
closed_check-Only (some false) ks d path = none_left-Only (unexpected ks (field_keys d)) path

each-Only :
    (check : Value → ℕ → Checked)
    → ((v : Value) (i : ℕ) → Only false (check v i))
    → (i : ℕ) (xs : Items) → Only false (check_each check i xs)
unfolding check_each
each-Only check h i nil = tt
each-Only check h i (cons v xs) = Only->>= _ _ _ (h v i) (λ x. each-Only check h (suc i) xs)

when-Only : (b : Bool) (m : Checked) → Only false m → Only false (if b then m else ok tt)
when-Only true m h = h
when-Only false m h = tt

inside-Only :
    (as_object as_array : Bool) (object : Fields → Checked) (array : Items → Checked)
    → ((d : Fields) → Only false (object d))
    → ((xs : Items) → Only false (array xs))
    → (v : Value) → Only false (check_inside as_object object as_array array v)
inside-Only as_object as_array object array p q (obj d) = when-Only as_object (object d) (p d)
inside-Only as_object as_array object array p q (arr xs) = when-Only as_array (array xs) (q xs)
inside-Only as_object as_array object array p q null = tt
inside-Only as_object as_array object array p q (bool b) = tt
inside-Only as_object as_array object array p q (int n) = tt
inside-Only as_object as_array object array p q (float x) = tt
inside-Only as_object as_array object array p q (str s) = tt
inside-Only as_object as_array object array p q (cls c) = tt

found-Only :
    (o : Option Value) (check : Value → Checked)
    → ((v : Value) → Only false (check v))
    → Only false (elim o [ none ↦ ok tt | some v ↦ check v ])
found-Only none check h = tt
found-Only (some v) check h = h v

mutual
  unfolding check_value

  pub value-Only : (n : Node) (v : Value) (path : List Step) → Only false (check_value n v path)
  value-Only (node t required ps sub enum extra) v path =
      Only->>= _ _ _ (Only->>= _ _ _ (type_check-Only t v path) (λ x. enum_check-Only enum v path))
        (λ x.
          inside-Only (reads_object t required ps) (reads_array t sub) _ _
            (λ d.
              Only->>= _ _ _
                (Only->>= _ _ _ (required_check-Only (required_of required) d path)
                  (λ y. declared_check-Only ps d path))
                (λ y. closed_check-Only extra (names_of (entries_of ps)) d path))
            (λ xs. items_check-Only sub xs path) v)

  declared_check-Only :
      (ps : Props) (d : Fields) (path : List Step) → Only false (check_properties ps d path)
  declared_check-Only no_properties d path = tt
  declared_check-Only (properties es) d path = entries_check-Only es d path

  entries_check-Only :
      (es : Entries) (d : Fields) (path : List Step) → Only false (check_entries es d path)
  entries_check-Only no_more d path = tt
  entries_check-Only (entry k n es) d path =
      Only->>= _ _ _ (found-Only (get_field k d) _ (λ v. value-Only n v (property k ∷ path)))
        (λ x. entries_check-Only es d path)

  items_check-Only :
      (sub : Sub) (xs : Items) (path : List Step) → Only false (check_items sub xs path)
  items_check-Only no_items xs path = tt
  items_check-Only (items n) xs path = each-Only _ (λ v i. value-Only n v (element i ∷ path)) 0 xs
