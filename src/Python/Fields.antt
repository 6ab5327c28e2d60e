-- ===== src/Python/Fields.antt =====
-- Laws of the dicts of Python/Value, and of lists of texts with no repetition.
use hermes_plugin_dynamic_wo.Prelude.{
  String, ◌≡◌, refl, false, ◌||◌, some, List, [], ◌∷◌, ◌++◌, ◌==◌, arith, member, if◌then◌else◌,
  eq_iff,
}
use hermes_plugin_dynamic_wo.Python.Value.{Value, Fields, get_field, put_field}

pub get-put_field :
    (k j : String) (v : Value) (d : Fields)
    → get_field j (put_field k v d) ≡ (if k == j then some v else get_field j d)
unfolding get_field put_field
get-put_field k j v Fields.end = refl
get-put_field k j v (Fields.field i w d) =
    ground (arith, eq_iff k j, eq_iff i k, eq_iff i j, get-put_field k j v d)

-- No text twice.
abbrev pub IsDistinct : List String → Type 0
IsDistinct [] = Unit
IsDistinct (k ∷ ks) = (member k ks ≡ false) × IsDistinct ks

pub member-snoc :
    (j k : String) (ks : List String) → member j (ks ++ k ∷ []) ≡ (member j ks || k == j)
member-snoc j k [] = ground arith
member-snoc j k (i ∷ ks) = ground (arith, member-snoc j k ks)

pub IsDistinct-snoc :
    (ks : List String) (k : String)
    → IsDistinct ks
    → member k ks ≡ false
    → IsDistinct (ks ++ k ∷ [])
IsDistinct-snoc [] k h new = (refl, tt)
IsDistinct-snoc (j ∷ ks) k h new = (
  ground (arith, member-snoc j k ks, eq_iff j k, eq_iff k j, h.0),
  IsDistinct-snoc ks k h.1 (ground arith),
)
