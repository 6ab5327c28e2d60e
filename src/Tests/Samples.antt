-- ===== src/Tests/Samples.antt =====
-- Concrete instances of what the definitions take from Python: ASCII tables and exact rounding.
use Prim.Native.Char.{Char, code}
use hermes_plugin_dynamic_wo.Prelude.{
  suc, ◌*◌, ◌-◌, ◌^◌, String, ◌||◌, ◌&&◌, Option, none, some, nat_eq, leb, if◌then◌else◌,
}
use hermes_plugin_dynamic_wo.Python.Int.{ℤ, pos, negsuc}
use hermes_plugin_dynamic_wo.Python.Float.{Float, fin, Rounding}
use hermes_plugin_dynamic_wo.Python.Text.{Unicode, is_ascii_alnum}
use hermes_plugin_dynamic_wo.Grants.Records.{Platform}

abbrev lower_from : String → String → Char → String
lower_from String.[] lower c = String.◌∷◌ c ""
lower_from (String.◌∷◌ u upper) String.[] c = String.◌∷◌ c ""
lower_from (String.◌∷◌ u upper) (String.◌∷◌ l lower) c =
    let rest = lower_from upper lower c in
    if nat_eq (code u) (code c) then String.◌∷◌ l "" else rest

abbrev pub ascii : Unicode
ascii = record {
  is_alnum = is_ascii_alnum;
  is_space = λ c. nat_eq (code c) 32 || (leb 9 (code c) && leb (code c) 13);
  lower = λ c. lower_from "ABCDEFGHIJKLMNOPQRSTUVWXYZ" "abcdefghijklmnopqrstuvwxyz" c;
}

-- Exact sums, and integers below 2^1024.
abbrev convert : ℤ → Option Float
convert (pos n) = if leb (2 ^ 1024) n then none else some (fin (pos (n * 2 ^ 1074)))
convert (negsuc n) =
    if leb (2 ^ 1024) (suc n) then none else some (fin (negsuc (suc n * 2 ^ 1074 - 1)))

abbrev pub exact : Rounding
exact = record { of_int = convert; nearest = λ k. fin k }

abbrev pub platform : Platform
platform = record { unicode = ascii; rounding = exact; text = λ v. "value" }
