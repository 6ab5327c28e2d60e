-- ===== src/Schema/Check/Parts.antt =====
-- The checks of `_check_value`, one by one, and what each decides.
use hermes_plugin_dynamic_wo.Prelude.{
  ℕ, suc, String, ◌≡◌, refl, ◌↔◌, inl, inr, Bool, true, false, not, ◌||◌, Option, none, some, List,
  [], ◌∷◌, member, All, arith, Bool-cases,
}
use hermes_plugin_dynamic_wo.Python.Value.{
  Value, Items, Fields, null, bool, int, float, str, arr, obj, nil, cons, field_keys, value_eq,
}
use hermes_plugin_dynamic_wo.Prelude.Except.{>>-eq-ok_iff, guard-eq-ok_iff}
use hermes_plugin_dynamic_wo.Schema.Nodes.{
  Checked, TypeName, Step, ok, object_name, array_name, string_name, number_name, integer_name,
  boolean_name, null_name,
}
use hermes_plugin_dynamic_wo.Schema.Check.{
  is_instance, is_bool, is_boolean_name, check_type, is_among, check_enum, check_required,
  unexpected, check_none_left, check_additional, check_each,
}
use hermes_plugin_dynamic_wo.Schema.Check.Conforms.{
  TypeFits, EnumFits, HasType, Among, HasFields, Closed, Each,
}

-- The two tests of a type, together, are `HasType`.
tests-HasType :
    (t : TypeName) (v : Value)
    → (is_boolean_name t || not (is_bool v)) ≡ true
    → is_instance t v ≡ true
    → HasType t v
tests-HasType object_name (obj d) h k = HasType.of_object
tests-HasType array_name (arr xs) h k = HasType.of_array
tests-HasType string_name (str s) h k = HasType.of_string
tests-HasType number_name (int n) h k = HasType.of_number
tests-HasType number_name (float x) h k = HasType.of_float
tests-HasType integer_name (int n) h k = HasType.of_integer
tests-HasType boolean_name (bool b) h k = HasType.of_boolean
tests-HasType null_name null h k = HasType.of_null
tests-HasType _ _ h k = cc

HasType-tests :
    {t : TypeName} {v : Value}
    → HasType t v
    → ((is_boolean_name t || not (is_bool v)) ≡ true) × (is_instance t v ≡ true)
HasType-tests HasType.of_object = (refl, refl)
HasType-tests HasType.of_array = (refl, refl)
HasType-tests HasType.of_string = (refl, refl)
HasType-tests HasType.of_number = (refl, refl)
HasType-tests HasType.of_float = (refl, refl)
HasType-tests HasType.of_integer = (refl, refl)
HasType-tests HasType.of_boolean = (refl, refl)
HasType-tests HasType.of_null = (refl, refl)

pub type_iff :
    (t : Option TypeName) (v : Value) (path : List Step)
    → (check_type t v path ≡ ok tt) ↔ TypeFits t v
type_iff none v path = (λ h. tt, λ h. refl)
type_iff (some t) v path = (
  λ h.
      let (p, q) = (>>-eq-ok_iff _ _).0 h in
      tests-HasType t v ((guard-eq-ok_iff _ _).0 p) ((guard-eq-ok_iff _ _).0 q),
  λ h.
      let (p, q) = HasType-tests h in
      (>>-eq-ok_iff _ _).1 ((guard-eq-ok_iff _ _).1 p, (guard-eq-ok_iff _ _).1 q),
)

Among-intro : (v : Value) (ws : Items) → is_among v ws ≡ true → Among v ws
unfolding is_among
Among-intro v nil h = cc
Among-intro v (cons w ws) h = elim (Bool-cases (value_eq v w)) [
  | inl e ↦ Among.here e
  | inr e ↦ Among.there (Among-intro v ws (rw e at h))
]

Among-elim : {v : Value} {ws : Items} → Among v ws → is_among v ws ≡ true
unfolding is_among
Among-elim (Among.here e) = rw e refl
Among-elim (Among.there a) = let rest = Among-elim a in ground arith

pub enum_iff :
    (o : Option Items) (v : Value) (path : List Step) → (check_enum o v path ≡ ok tt) ↔ EnumFits o v
enum_iff none v path = (λ h. tt, λ h. refl)
enum_iff (some ws) v path =
    (λ h. Among-intro v ws ((guard-eq-ok_iff _ _).0 h), λ a. (guard-eq-ok_iff _ _).1 (Among-elim a))

pub required_iff :
    (ks : List String) (d : Fields) (path : List Step)
    → (check_required ks d path ≡ ok tt) ↔ HasFields ks d
required_iff [] d path = (λ h. tt, λ h. refl)
required_iff (k ∷ ks) d path =
    let (to, from) = required_iff ks d path in
    (
      λ h. let (p, q) = (>>-eq-ok_iff _ _).0 h in ((guard-eq-ok_iff _ _).0 p, to q),
      λ h. (>>-eq-ok_iff _ _).1 ((guard-eq-ok_iff _ _).1 h.0, from h.1),
    )

none-left_iff :
    (ks js : List String) (path : List Step)
    → (check_none_left (unexpected ks js) path ≡ ok tt) ↔ All (λ j. member j ks ≡ true) js
none-left_iff ks [] path = (λ h. tt, λ h. refl)
none-left_iff ks (j ∷ js) path =
    let (to, from) = none-left_iff ks js path in
    elim (Bool-cases (member j ks)) [
      | inl e ↦ (λ h. (e, to (rw e at h)), λ h. rw e (from h.1))
      | inr e ↦ (λ h. let bad = rw e at h in cc, λ h. let bad = h.0 in cc)
    ]

pub Closed-iff :
    (o : Option Bool) (ks : List String) (d : Fields) (path : List Step)
    → (check_additional o ks d path ≡ ok tt) ↔ Closed o ks d
Closed-iff none ks d path = (λ h. tt, λ h. refl)
Closed-iff (some true) ks d path = (λ h. tt, λ h. refl)
Closed-iff (some false) ks d path = none-left_iff ks (field_keys d) path

pub Each-iff :
    (P : Value → Type 0) (check : Value → ℕ → Checked)
    → ((v : Value) (i : ℕ) → (check v i ≡ ok tt) ↔ P v)
    → (i : ℕ) (xs : Items) → (check_each check i xs ≡ ok tt) ↔ Each P xs
unfolding check_each
Each-iff P check iff i nil = (λ h. tt, λ h. refl)
Each-iff P check iff i (cons v xs) =
    let (to, from) = Each-iff P check iff (suc i) xs in
    (
      λ h. let (p, q) = (>>-eq-ok_iff _ _).0 h in ((iff v i).0 p, to q),
      λ h. (>>-eq-ok_iff _ _).1 ((iff v i).1 h.0, from h.1),
    )
