-- ===== src/Capabilities/Clip/Bound.antt =====
-- How long the streams of a clipped result of capabilities.py are.
use mathlib.Core.Path.{subst}
use Prim.Native.String.{◌++◌ as str_append}
use hermes_plugin_dynamic_wo.Prelude.{
  ℕ, ◌-◌, ◌≤◌, String, ◌≡◌, Bool, true, false, arith, leb, leb→le, member, ◌==◌, Bool-cases, inl,
  inr, sym, eq_iff,
}
use hermes_plugin_dynamic_wo.Python.Value.{
  Value, Items, Fields, null, bool, int, float, str, arr, obj, cls, nil, cons, end, field,
  put_field,
}
use hermes_plugin_dynamic_wo.Capabilities.Clip.{
  width, byte_length, clip, clip_string, stream_keys, put_clipped, put_item, clip_value, clip_items,
  clip_fields,
}

-- A text under a stream key has at most so many bytes.
abbrev pub IsShort : ℕ → String → Value → Type 0
IsShort n k (str s) = member k stream_keys ≡ true → byte_length s ≤ n
IsShort n k v = Unit

-- So it is everywhere in a value.
unfoldable mutual
  pub IsClipped : ℕ → Value → Type 0
  IsClipped n (obj d) = FieldsClipped n d
  IsClipped n (arr xs) = ItemsClipped n xs
  IsClipped n v = Unit

  pub ItemsClipped : ℕ → Items → Type 0
  ItemsClipped n nil = Unit
  ItemsClipped n (cons v xs) = IsClipped n v × ItemsClipped n xs

  pub FieldsClipped : ℕ → Fields → Type 0
  FieldsClipped n end = Unit
  FieldsClipped n (field k v d) = IsShort n k v × IsClipped n v × FieldsClipped n d

byte_length-clip : (s : String) (n : ℕ) → byte_length (clip s n) ≤ n
unfolding byte_length clip
byte_length-clip String.[] n = omega arith
byte_length-clip (String.◌∷◌ c s) n = elim (Bool-cases (leb (width c) n)) [
  | inl e ↦
      let le = leb→le (width c) n e in
      let rest = byte_length-clip s (n - width c) in rw e (omega arith)
  | inr e ↦ rw e (omega arith)
]

byte_length-clip_string : (s : String) (n : ℕ) → byte_length (clip_string s n).0 ≤ n
unfolding clip_string
byte_length-clip_string s n = elim (Bool-cases (leb (byte_length s) n)) [
  | inl e ↦ rw e (leb→le (byte_length s) n e)
  | inr e ↦ rw e (byte_length-clip s n)
]

put-FieldsClipped :
    (n : ℕ) (k : String) (v : Value) (d : Fields)
    → IsShort n k v
    → IsClipped n v
    → FieldsClipped n d
    → FieldsClipped n (put_field k v d)
unfolding put_field IsClipped
put-FieldsClipped n k v end short clipped h = (short, clipped, tt)
put-FieldsClipped n k v (field j w d) short clipped h = elim (Bool-cases (j == k)) [
  | inl e ↦ rw e (subst (λ i. IsShort n i v) (sym ((eq_iff j k).0 e)) short, clipped, h.2)
  | inr e ↦ rw e (h.0, h.1, put-FieldsClipped n k v d short clipped h.2)
]

clipped-FieldsClipped :
    (n : ℕ) (k s : String) (b : Bool) (out : Fields)
    → byte_length s ≤ n
    → FieldsClipped n out
    → FieldsClipped n (put_clipped k (s, b) out)
unfolding IsClipped
clipped-FieldsClipped n k s false out le h = put-FieldsClipped n k (str s) out (λ _. le) tt h
clipped-FieldsClipped n k s true out le h =
    put-FieldsClipped n (str_append k "_truncated") (bool true) _ tt tt
      (put-FieldsClipped n k (str s) out (λ _. le) tt h)

item-FieldsClipped :
    (n : ℕ) (k : String) (v : Value) (out : Fields)
    → IsClipped n (clip_value n v)
    → FieldsClipped n out
    → FieldsClipped n (put_item n k v (clip_value n v) out)
unfolding IsClipped clip_value
item-FieldsClipped n k (str s) out clipped h = elim (Bool-cases (member k stream_keys)) [
  | inl e ↦ rw e (
      clipped-FieldsClipped n k (clip_string s n).0 (clip_string s n).1 out
        (byte_length-clip_string s n) h)
  | inr e ↦ rw e (put-FieldsClipped n k (str s) out (λ m. let bad = rw e at m in cc) tt h)
]
item-FieldsClipped n k (obj d) out clipped h = put-FieldsClipped n k _ out tt clipped h
item-FieldsClipped n k (arr xs) out clipped h = put-FieldsClipped n k _ out tt clipped h
item-FieldsClipped n k null out clipped h = put-FieldsClipped n k null out tt tt h
item-FieldsClipped n k (bool b) out clipped h = put-FieldsClipped n k (bool b) out tt tt h
item-FieldsClipped n k (int i) out clipped h = put-FieldsClipped n k (int i) out tt tt h
item-FieldsClipped n k (float x) out clipped h = put-FieldsClipped n k (float x) out tt tt h
item-FieldsClipped n k (cls c) out clipped h = put-FieldsClipped n k (cls c) out tt tt h

mutual
  unfolding IsClipped clip_value

  pub clip-IsClipped : (n : ℕ) (v : Value) → IsClipped n (clip_value n v)
  clip-IsClipped n (obj d) = fields-IsClipped n d end tt
  clip-IsClipped n (arr xs) = items-IsClipped n xs
  clip-IsClipped n null = tt
  clip-IsClipped n (bool b) = tt
  clip-IsClipped n (int i) = tt
  clip-IsClipped n (float x) = tt
  clip-IsClipped n (str s) = tt
  clip-IsClipped n (cls c) = tt

  items-IsClipped : (n : ℕ) (xs : Items) → ItemsClipped n (clip_items n xs)
  items-IsClipped n nil = tt
  items-IsClipped n (cons v xs) = (clip-IsClipped n v, items-IsClipped n xs)

  fields-IsClipped :
      (n : ℕ) (d out : Fields) → FieldsClipped n out → FieldsClipped n (clip_fields n d out)
  fields-IsClipped n end out h = h
  fields-IsClipped n (field k v d) out h =
      fields-IsClipped n d _ (item-FieldsClipped n k v out (clip-IsClipped n v) h)

-- Whatever a result holds, after `_clip_stream_fields` no text under a stream key, at any depth, has
-- more bytes in UTF-8 than the limit.
pub clip_fields-FieldsClipped : (n : ℕ) (d : Fields) → FieldsClipped n (clip_fields n d end)
unfolding IsClipped
clip_fields-FieldsClipped n d = fields-IsClipped n d end tt
