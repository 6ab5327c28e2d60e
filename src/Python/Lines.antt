-- ===== src/Python/Lines.antt =====
-- `str.splitlines`, and what it makes of a text to which a line is appended.
use Prim.Native.Char.{Char, code}
use Prim.Native.String.{◌++◌}
use text.Mathlib.TextLemmas.{cons-append, nil-append, append_assoc, append-nil}
use hermes_plugin_dynamic_wo.Prelude.{
  ◌≡◌, ◌≢◌, refl, sym, ap, ◌∙◌, String, Bool, true, false, not, ◌&&◌, ◌||◌, List, [], ◌∷◌, ◌==◌,
  leb, nat_eq, if◌then◌else◌, arith, Bool-cases, inl, inr,
}
use mathlib.Core.List.{◌++◌ as list_append, append-nil as list_append_nil}

-- The characters that end a line: \n \v \f \r, the separators 1C to 1E, NEL, LS and PS.
abbrev pub is_break : Char → Bool
is_break c =
    (leb 10 (code c) && leb (code c) 13)
    || (leb 28 (code c) && leb (code c) 30)
    || nat_eq (code c) 0x85
    || nat_eq (code c) 0x2028
    || nat_eq (code c) 0x2029

abbrev is_return : Char → Bool
is_return c = nat_eq (code c) 13

abbrev is_newline : Char → Bool
is_newline c = nat_eq (code c) 10

abbrev snoc : String → Char → String
snoc s c = s ++ String.◌∷◌ c String.[]

abbrev flush : String → List String
flush cur = if cur == "" then [] else cur ∷ []

-- `cur` is the line so far; a \n behind a \r belongs to the same line end.
unfoldable pub split_from : Bool → String → String → List String
split_from after_return cur String.[] = flush cur
split_from after_return cur (String.◌∷◌ c s) =
    let skipped = split_from false cur s in
    let ended = cur ∷ split_from (is_return c) "" s in
    let longer = split_from false (snoc cur c) s in
    if after_return && is_newline c then skipped else if is_break c then ended else longer

-- s.splitlines()
unfoldable pub split_lines : String → List String
unfolding split_from
split_lines s = split_from false "" s

-- The lines that a text completes, and what it leaves open: a \r just read, and a line begun.
heads : Bool → String → String → List String
heads after_return cur String.[] = []
heads after_return cur (String.◌∷◌ c s) =
    let skipped = heads false cur s in
    let ended = cur ∷ heads (is_return c) "" s in
    let longer = heads false (snoc cur c) s in
    if after_return && is_newline c then skipped else if is_break c then ended else longer

final : Bool → String → String → Bool × String
final after_return cur String.[] = (after_return, cur)
final after_return cur (String.◌∷◌ c s) =
    let skipped = final false cur s in
    let ended = final (is_return c) "" s in
    let longer = final false (snoc cur c) s in
    if after_return && is_newline c then skipped else if is_break c then ended else longer

split-append :
    (b : Bool) (cur t u : String)
    → split_from b cur (t ++ u)
      ≡ list_append (heads b cur t) (split_from (final b cur t).0 (final b cur t).1 u)
unfolding split_from heads final
split-append b cur String.[] u = rw nil-append
split-append b cur (String.◌∷◌ c t) u =
    rw (cons-append c t u) (elim (Bool-cases (b && is_newline c)) [
      | inl e ↦ rw e (split-append false cur t u)
      | inr e ↦ elim (Bool-cases (is_break c)) [
        | inl k ↦ rw (e, k) (ap (λ l. cur ∷ l) (split-append (is_return c) "" t u))
        | inr k ↦ rw (e, k) (split-append false (snoc cur c) t u)
      ]
    ])

final-append :
    (b : Bool) (cur t u : String)
    → final b cur (t ++ u) ≡ final (final b cur t).0 (final b cur t).1 u
unfolding final
final-append b cur String.[] u = rw nil-append
final-append b cur (String.◌∷◌ c t) u =
    rw (cons-append c t u) (elim (Bool-cases (b && is_newline c)) [
      | inl e ↦ rw e (final-append false cur t u)
      | inr e ↦ elim (Bool-cases (is_break c)) [
        | inl k ↦ rw (e, k) (final-append (is_return c) "" t u)
        | inr k ↦ rw (e, k) (final-append false (snoc cur c) t u)
      ]
    ])

-- A text without a line end inside.
unfoldable pub is_one_line : String → Bool
is_one_line String.[] = true
is_one_line (String.◌∷◌ c s) = not (is_break c) && is_one_line s

-- The text is empty or its last line is ended.
pub IsComplete : String → Type 0
IsComplete t = (final false "" t).1 ≡ ""

newline-break : (c : Char) → is_break c ≡ false → is_newline c ≡ false
newline-break c h = ground arith

and_false : (b : Bool) {a : Bool} → a ≡ false → (b && a) ≡ false
and_false b h = ground arith

snoc-append : (s : String) (c : Char) (t : String) → snoc s c ++ t ≡ s ++ String.◌∷◌ c t
snoc-append s c t =
    append_assoc s (String.◌∷◌ c String.[]) t
    ∙ ap (λ r. s ++ r) (cons-append c "" t ∙ ap (λ r. String.◌∷◌ c r) (nil-append t))

split_line :
    (cur l : String) → is_one_line l ≡ true → split_from false cur (l ++ "\n") ≡ (cur ++ l) ∷ []
unfolding split_from is_one_line
split_line cur String.[] h = ap (λ x. x ∷ []) (sym (append-nil cur))
split_line cur (String.◌∷◌ c l) h = elim (Bool-cases (is_break c)) [
  | inl k ↦ let bad = rw k at h in cc
  | inr k ↦
      rw (cons-append c l "\n", k, ← snoc-append cur c l) (split_line (snoc cur c) l (rw k at h))
]

-- A line of its own, read after a complete text.
split_next :
    (b : Bool) (l : String) → l ≢ "" → is_one_line l ≡ true → split_from b "" (l ++ "\n") ≡ l ∷ []
unfolding split_from is_one_line
split_next b String.[] e h = absurd (e refl)
split_next b (String.◌∷◌ c l) e h = elim (Bool-cases (is_break c)) [
  | inl k ↦ let bad = rw k at h in cc
  | inr k ↦
      rw (cons-append c l "\n", and_false b (newline-break c k), k)
        (split_line (snoc "" c) l (rw k at h)
          ∙ ap (λ x. x ∷ []) (snoc-append "" c l ∙ nil-append (String.◌∷◌ c l)))
]

-- A line of text that is appended with its line end to a complete text is the last line read.
pub split_lines-append :
    (t l : String)
    → IsComplete t
    → l ≢ ""
    → is_one_line l ≡ true
    → split_lines (t ++ (l ++ "\n")) ≡ list_append (split_lines t) (l ∷ [])
unfolding split_lines IsComplete
split_lines-append t l h e o =
    split-append false "" t (l ++ "\n")
    ∙ rw (h, split_next (final false "" t).0 l e o)
        (ap (λ x. list_append x (l ∷ [])) (sym (whole t h)))
  where
    whole : (t : String) → (final false "" t).1 ≡ "" → split_from false "" t ≡ heads false "" t
    whole t h =
        ap (split_from false "") (sym (append-nil t))
        ∙ split-append false "" t ""
        ∙ rw (h, split_from, list_append_nil (heads false "" t)) refl

final_newline :
    (b : Bool) (cur l : String) → (b ≡ true → cur ≡ "") → (final b cur (l ++ "\n")).1 ≡ ""
unfolding final
final_newline b cur String.[] h = ends b h
  where
    ends : (b : Bool) → (b ≡ true → cur ≡ "") → (final b cur "\n").1 ≡ ""
    ends true h = h refl
    ends false h = refl
final_newline b cur (String.◌∷◌ c l) h =
    rw (cons-append c l "\n") (elim (Bool-cases (b && is_newline c)) [
      | inl e ↦ rw e (final_newline false cur l (λ k. cc))
      | inr e ↦ elim (Bool-cases (is_break c)) [
        | inl k ↦ rw (e, k) (final_newline (is_return c) "" l (λ r. refl))
        | inr k ↦ rw (e, k) (final_newline false (snoc cur c) l (λ r. cc))
      ]
    ])

-- A text with a line end behind it is complete.
pub append-IsComplete : (t l : String) → IsComplete (t ++ (l ++ "\n"))
unfolding IsComplete
append-IsComplete t l = rw (← append_assoc t l "\n") (final_newline false "" (t ++ l) (λ k. cc))

pub nil-IsComplete : IsComplete ""
unfolding IsComplete final
nil-IsComplete = refl

line_ends : split_lines "a\u{2028}b\r\nc" ≡ "a" ∷ "b" ∷ "c" ∷ []
unfolding split_lines
line_ends = refl
