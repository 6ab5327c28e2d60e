-- ===== src/Capabilities/Clip.antt =====
-- `_clip_string` and `_clip_stream_fields` of capabilities.py: how long a stream of a result may be.
pub mod Bound
use Prim.Native.Char.{Char, code}
use Prim.Native.String
use Prim.Native.String.{◌++◌ as str_append}
use hermes_plugin_dynamic_wo.Prelude.{
  ℕ, ◌+◌, ◌-◌, String, Bool, true, false, List, [], ◌∷◌, ltb, leb, member, if◌then◌else◌,
}
use hermes_plugin_dynamic_wo.Python.Value.{
  Value, Items, Fields, null, bool, int, float, str, arr, obj, cls, nil, cons, end, field,
  put_field,
}

-- The bytes of a character in UTF-8.
abbrev pub width : Char → ℕ
width c =
    if ltb (code c) 128
    then 1
    else if ltb (code c) 2048
    then 2
    else if ltb (code c) 65_536
    then 3
    else 4

-- len(s.encode("utf-8"))
unfoldable pub byte_length : String → ℕ
byte_length String.[] = 0
byte_length (String.◌∷◌ c s) = width c + byte_length s

-- s.encode("utf-8")[:n].decode("utf-8", errors="ignore"): a character that is cut is dropped
unfoldable pub clip : String → ℕ → String
clip String.[] n = ""
clip (String.◌∷◌ c s) n =
    let rest = clip s (n - width c) in if leb (width c) n then String.◌∷◌ c rest else ""

-- `_clip_string`
unfoldable pub clip_string : String → ℕ → String × Bool
unfolding clip byte_length
clip_string s n = if leb (byte_length s) n then (s, false) else (clip s n, true)

abbrev pub stream_keys : List String
stream_keys = "stdout" ∷ "stderr" ∷ "summary" ∷ "error" ∷ []

abbrev pub put_clipped : String → String × Bool → Fields → Fields
put_clipped k (s, false) out = put_field k (str s) out
put_clipped k (s, true) out =
    put_field (str_append k "_truncated") (bool true) (put_field k (str s) out)

-- One item of a dict: `clipped` is what becomes of its value elsewhere.
abbrev pub put_item : ℕ → String → Value → Value → Fields → Fields
put_item n k (str s) clipped out =
    if member k stream_keys then put_clipped k (clip_string s n) out else put_field k clipped out
put_item n k v clipped out = put_field k clipped out

-- `_clip_stream_fields`
unfoldable mutual
  unfolding clip_string put_field

  pub clip_value : ℕ → Value → Value
  clip_value n (obj d) = obj (clip_fields n d end)
  clip_value n (arr xs) = arr (clip_items n xs)
  clip_value n null = null
  clip_value n (bool b) = bool b
  clip_value n (int i) = int i
  clip_value n (float x) = float x
  clip_value n (str s) = str s
  clip_value n (cls c) = cls c

  pub clip_items : ℕ → Items → Items
  clip_items n nil = nil
  clip_items n (cons v xs) = cons (clip_value n v) (clip_items n xs)

  pub clip_fields : ℕ → Fields → Fields → Fields
  clip_fields n end out = out
  clip_fields n (field k v d) out = clip_fields n d (put_item n k v (clip_value n v) out)
