-- ===== src/Python/Text.antt =====
-- Methods of Python's `str`. What they take from the Unicode tables is the parameter `Unicode`.
pub mod Strip
use Prim.Native.Char.{Char, code}
use Prim.Native.String
use hermes_plugin_dynamic_wo.Prelude.{
  ℕ, suc, String, Bool, true, false, ◌&&◌, ◌||◌, List, [], ◌∷◌, ◌==◌, leb, nat_eq, if◌then◌else◌,
}

-- c.isalnum(), c.isspace() and c.lower() of one character.
pub record Unicode : Type 0 where
  pub is_alnum : Char → Bool
  pub is_space : Char → Bool
  pub lower : Char → String

-- all(p(c) for c in s)
unfoldable pub all_chars : (Char → Bool) → String → Bool
all_chars p String.[] = true
all_chars p (String.◌∷◌ c s) = p c && all_chars p s

-- s.startswith(p)
unfoldable pub has_prefix : String → String → Bool
has_prefix String.[] s = true
has_prefix (String.◌∷◌ c p) String.[] = false
has_prefix (String.◌∷◌ c p) (String.◌∷◌ d s) = nat_eq (code c) (code d) && has_prefix p s

-- p in s
unfoldable pub contains : String → String → Bool
unfolding has_prefix
contains p String.[] = has_prefix p String.[]
contains p (String.◌∷◌ c s) = has_prefix p (String.◌∷◌ c s) || contains p s

-- len(s)
abbrev pub text_length : String → ℕ
text_length String.[] = 0
text_length (String.◌∷◌ c s) = suc (text_length s)

-- any(s.startswith(p) for p in ps), any(p in s for p in ps)
abbrev pub any_prefix : List String → String → Bool
any_prefix [] s = false
any_prefix (p ∷ ps) s = has_prefix p s || any_prefix ps s

abbrev pub any_part : List String → String → Bool
any_part [] s = false
any_part (p ∷ ps) s = contains p s || any_part ps s

abbrev pub is_ascii_alnum : Char → Bool
is_ascii_alnum c =
    (leb b'A' (code c) && leb (code c) b'Z')
    || (leb b'a' (code c) && leb (code c) b'z')
    || (leb b'0' (code c) && leb (code c) b'9')

module _ (u : Unicode) where
  -- s.lower()
  unfoldable pub to_lower : String → String
  to_lower String.[] = ""
  to_lower (String.◌∷◌ c s) = String.◌++◌ (u.lower c) (to_lower s)

  -- s.lstrip()
  unfoldable pub strip_left : String → String
  strip_left String.[] = ""
  strip_left (String.◌∷◌ c s) =
      let rest = strip_left s in if u.is_space c then rest else String.◌∷◌ c s

  -- s.rstrip()
  unfoldable pub strip_right : String → String
  strip_right String.[] = ""
  strip_right (String.◌∷◌ c s) =
      let rest = strip_right s in if (rest == "") && u.is_space c then "" else String.◌∷◌ c rest

  -- s.strip()
  unfoldable pub strip : String → String
  unfolding strip_left strip_right
  strip s = strip_right (strip_left s)
