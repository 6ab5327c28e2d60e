-- ===== src/Python/Value.antt =====
-- The Python values that a JSON document, a schema or an adapter's answer holds. A dict has text
-- keys, each once, in insertion order.
use hermes_plugin_dynamic_wo.Prelude.{
  ℕ, suc, ◌*◌, ◌^◌, String, Bool, true, false, Option, none, some, List, [], ◌∷◌, ◌&&◌, ◌==◌,
  nat_eq, if◌then◌else◌,
}
use hermes_plugin_dynamic_wo.Python.Int.{ℤ, pos, negsuc, int_eq}
use hermes_plugin_dynamic_wo.Python.Float.{Float, fin, feq}

-- A class object, as a schema may hold one.
pub data PyClass : Type 0 where
  str_class int_class float_class bool_class dict_class list_class other_class : PyClass

mutual
  pub data Value : Type 0 where
    null : Value
    bool : Bool → Value
    int : ℤ → Value
    float : Float → Value
    str : String → Value
    arr : Items → Value
    obj : Fields → Value
    cls : PyClass → Value

  pub data Items : Type 0 where
    nil : Items
    cons : Value → Items → Items

  pub data Fields : Type 0 where
    end : Fields
    field : String → Value → Fields → Fields

-- d.get(k)
unfoldable pub get_field : String → Fields → Option Value
get_field k end = none
get_field k (field j v d) = if j == k then some v else get_field k d

-- d[k] = v
unfoldable pub put_field : String → Value → Fields → Fields
put_field k v end = field k v end
put_field k v (field j w d) = if j == k then field j v d else field j w (put_field k v d)

-- k in d
abbrev pub has_field : String → Fields → Bool
has_field k d = elim (get_field k d) [ none ↦ false | some v ↦ true ]

abbrev pub field_keys : Fields → List String
field_keys end = []
field_keys (field k v d) = k ∷ field_keys d

abbrev pub items_list : Items → List Value
items_list nil = []
items_list (cons v xs) = v ∷ items_list xs

abbrev pub items_of : List Value → Items
items_of [] = nil
items_of (v ∷ vs) = cons v (items_of vs)

abbrev pub fields_list : Fields → List (String × Value)
fields_list end = []
fields_list (field k v d) = (k, v) ∷ fields_list d

abbrev pub fields_of : List (String × Value) → Fields
fields_of [] = end
fields_of ((k, v) ∷ d) = field k v (fields_of d)

-- bool(x)
unfoldable pub truthy : Value → Bool
truthy null = false
truthy (bool b) = b
truthy (int (pos n)) = if nat_eq n 0 then false else true
truthy (int (negsuc n)) = true
truthy (float (fin (pos n))) = if nat_eq n 0 then false else true
truthy (float _) = true
truthy (str s) = if s == "" then false else true
truthy (arr nil) = false
truthy (arr (cons v xs)) = true
truthy (obj end) = false
truthy (obj (field k v d)) = true
truthy (cls c) = true

-- x.get(k) with `None` for a missing key
abbrev pub get_or_null : String → Fields → Value
get_or_null k d = elim (get_field k d) [ none ↦ null | some v ↦ v ]

-- A text, where the value is one.
abbrev pub as_str : Value → Option String
as_str (str s) = some s
as_str _ = none

-- A class of the source's tables.
abbrev pub class_eq : PyClass → PyClass → Bool
class_eq str_class str_class = true
class_eq int_class int_class = true
class_eq float_class float_class = true
class_eq bool_class bool_class = true
class_eq dict_class dict_class = true
class_eq list_class list_class = true
class_eq other_class other_class = true
class_eq _ _ = false

abbrev bool_int : Bool → ℤ
bool_int true = pos 1
bool_int false = pos 0

-- n == x for an int and a float, exactly
abbrev int_float_eq : ℤ → Float → Bool
int_float_eq (pos n) (fin k) = int_eq (pos (n * 2 ^ 1074)) k
int_float_eq (negsuc n) (fin (negsuc k)) = nat_eq (suc n * 2 ^ 1074) (suc k)
int_float_eq _ _ = false

abbrev field_count : Fields → ℕ
field_count end = 0
field_count (field k v d) = suc (field_count d)

-- x == y: numbers by value, whatever their class; dicts without their order
unfoldable mutual
  pub value_eq : Value → Value → Bool
  value_eq null null = true
  value_eq (bool a) (bool b) = int_eq (bool_int a) (bool_int b)
  value_eq (bool a) (int b) = int_eq (bool_int a) b
  value_eq (bool a) (float b) = int_float_eq (bool_int a) b
  value_eq (int a) (bool b) = int_eq a (bool_int b)
  value_eq (int a) (int b) = int_eq a b
  value_eq (int a) (float b) = int_float_eq a b
  value_eq (float a) (bool b) = int_float_eq (bool_int b) a
  value_eq (float a) (int b) = int_float_eq b a
  value_eq (float a) (float b) = feq a b
  value_eq (str s) (str t) = s == t
  value_eq (arr xs) (arr ys) = items_eq xs ys
  value_eq (obj c) (obj d) = nat_eq (field_count c) (field_count d) && fields_in c d
  value_eq (cls c) (cls d) = class_eq c d
  value_eq _ _ = false

  pub items_eq : Items → Items → Bool
  items_eq nil nil = true
  items_eq (cons x xs) (cons y ys) = value_eq x y && items_eq xs ys
  items_eq _ _ = false

  pub fields_in : Fields → Fields → Bool
  fields_in end d = true
  fields_in (field k v c) d =
      elim (get_field k d) [ none ↦ false | some w ↦ value_eq v w ] && fields_in c d

-- x or y
abbrev pub or_else : Value → Value → Value
or_else x y = if truthy x then x else y

-- x.get(k, default)
abbrev pub get_or : String → Value → Fields → Value
get_or k default d = elim (get_field k d) [ none ↦ default | some v ↦ v ]

-- d.update(e)
unfoldable pub update : Fields → Fields → Fields
unfolding put_field
update d end = d
update d (field k v e) = update (put_field k v d) e

-- str(x), where `text` is `str(x)` of a value that is no text
abbrev pub str_of : (Value → String) → Value → String
str_of text (str s) = s
str_of text v = text v

-- [x for x in xs if isinstance(x, dict)]
abbrev pub dicts_of : Items → List Fields
dicts_of nil = []
dicts_of (cons (obj d) xs) = d ∷ dicts_of xs
dicts_of (cons v xs) = dicts_of xs

abbrev pub dict_items : List Fields → Items
dict_items [] = nil
dict_items (d ∷ ds) = cons (obj d) (dict_items ds)

abbrev pub text_items : List String → Items
text_items [] = nil
text_items (s ∷ ss) = cons (str s) (text_items ss)

abbrev pub opt_text : Option String → Value
opt_text none = null
opt_text (some s) = str s
