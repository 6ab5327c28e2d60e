-- ===== src/Python/Float.antt =====
-- Python's `float`. Every finite double is a whole multiple of 2^-1074, and `fin k` is k * 2^-1074;
-- so comparisons are exact. The rounding of sums and of conversions is the parameter `Rounding`.
use hermes_plugin_dynamic_wo.Prelude.{Bool, true, false, Option}
use hermes_plugin_dynamic_wo.Python.Int.{ℤ, pos, ltb_ℤ, leb_ℤ, int_eq, ◌+ℤ◌, ◌-ℤ◌}

pub data Float : Type 0 where
  fin : ℤ → Float
  inf neg_inf nan : Float

-- math.isfinite(x)
abbrev pub is_finite : Float → Bool
is_finite (fin k) = true
is_finite _ = false

-- x < y; a comparison with NaN is false
abbrev pub flt : Float → Float → Bool
flt (fin a) (fin b) = ltb_ℤ a b
flt (fin a) inf = true
flt neg_inf (fin b) = true
flt neg_inf inf = true
flt _ _ = false

-- x <= y
abbrev pub fle : Float → Float → Bool
fle (fin a) (fin b) = leb_ℤ a b
fle (fin a) inf = true
fle inf inf = true
fle neg_inf (fin b) = true
fle neg_inf inf = true
fle neg_inf neg_inf = true
fle _ _ = false

-- x == y
abbrev pub feq : Float → Float → Bool
feq (fin a) (fin b) = int_eq a b
feq inf inf = true
feq neg_inf neg_inf = true
feq _ _ = false

abbrev pub zero_float : Float
zero_float = fin (pos 0)

-- How the machine rounds: `of_int n` is `float(n)`, where `none` is the OverflowError of an
-- integer beyond the doubles; `nearest k` is the double for the exact result k * 2^-1074.
pub record Rounding : Type 0 where
  pub of_int : ℤ → Option Float
  pub nearest : ℤ → Float

module _ (r : Rounding) where
  -- x + y
  unfoldable pub fadd : Float → Float → Float
  unfolding ◌+ℤ◌
  fadd (fin a) (fin b) = r.nearest (a +ℤ b)
  fadd (fin a) y = y
  fadd inf (fin b) = inf
  fadd inf inf = inf
  fadd neg_inf (fin b) = neg_inf
  fadd neg_inf neg_inf = neg_inf
  fadd _ _ = nan

  -- x - y
  unfoldable pub fsub : Float → Float → Float
  unfolding ◌-ℤ◌
  fsub (fin a) (fin b) = r.nearest (a -ℤ b)
  fsub (fin a) inf = neg_inf
  fsub (fin a) neg_inf = inf
  fsub (fin a) nan = nan
  fsub inf (fin b) = inf
  fsub inf neg_inf = inf
  fsub neg_inf (fin b) = neg_inf
  fsub neg_inf inf = neg_inf
  fsub _ _ = nan

-- min(x, y): the second argument only where it is smaller
abbrev pub fmin : Float → Float → Float
fmin x y = elim (flt y x) [ true ↦ y | false ↦ x ]

-- max(x, y)
abbrev pub fmax : Float → Float → Float
fmax x y = elim (flt x y) [ true ↦ y | false ↦ x ]
