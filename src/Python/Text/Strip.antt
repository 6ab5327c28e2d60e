-- ===== src/Python/Text/Strip.antt =====
-- `str.strip` leaves a stripped text alone.
use hermes_plugin_dynamic_wo.Prelude.{
  String, ◌≡◌, refl, ap, ◌∙◌, false, ◌&&◌, ◌==◌, Bool-cases, inl, inr,
}
use hermes_plugin_dynamic_wo.Python.Text.{Unicode, strip, strip_left, strip_right}

module _ (u : Unicode) where
  -- The text is empty or starts with no space.
  abbrev Starts : String → Type 0
  Starts String.[] = Unit
  Starts (String.◌∷◌ c s) = u.is_space c ≡ false

  strip_left-Starts : (s : String) → Starts (strip_left u s)
  unfolding strip_left
  strip_left-Starts String.[] = tt
  strip_left-Starts (String.◌∷◌ c s) = elim (Bool-cases (u.is_space c)) [
    | inl e ↦ rw e (strip_left-Starts s)
    | inr e ↦ rw e e
  ]

  Starts-strip_right : (s : String) → Starts s → Starts (strip_right u s)
  unfolding strip_right
  Starts-strip_right String.[] h = tt
  Starts-strip_right (String.◌∷◌ c s) h = elim (Bool-cases (strip_right u s == "")) [
    | inl e ↦ rw (e, h) h
    | inr e ↦ rw (e, h) refl
  ]

  Starts-strip_left : (s : String) → Starts s → strip_left u s ≡ s
  unfolding strip_left
  Starts-strip_left String.[] h = refl
  Starts-strip_left (String.◌∷◌ c s) h = rw h refl

  strip_right_twice : (s : String) → strip_right u (strip_right u s) ≡ strip_right u s
  unfolding strip_right
  strip_right_twice String.[] = refl
  strip_right_twice (String.◌∷◌ c s) = elim (Bool-cases ((strip_right u s == "") && u.is_space c)) [
    | inl e ↦ rw e refl
    | inr e ↦ rw e (rw (strip_right_twice s, e) refl)
  ]

  pub strip_twice : (s : String) → strip u (strip u s) ≡ strip u s
  unfolding strip
  strip_twice s =
      ap (strip_right u) (
        Starts-strip_left (strip_right u (strip_left u s))
          (Starts-strip_right (strip_left u s) (strip_left-Starts s)))
      ∙ strip_right_twice (strip_left u s)
