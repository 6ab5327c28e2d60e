-- ===== src/Controls/Store/Buckets.antt =====
-- A run's records filed under their ids, as both stores of controls.py hold them.
use hermes_plugin_dynamic_wo.Prelude.{
  String, ◌≡◌, refl, none, [], ◌∷◌, ◌==◌, arith, Bool-cases, inl, inr,
}
use hermes_plugin_dynamic_wo.Prelude.Dict
use hermes_plugin_dynamic_wo.Prelude.Dict.{Dict, get, put}
use hermes_plugin_dynamic_wo.Controls.Records.{WorkflowControl}
use hermes_plugin_dynamic_wo.Controls.Store.Interface.{find_control}

-- Each record is filed under its own id.
abbrev pub IsKeyed : Dict WorkflowControl → Type 0
IsKeyed [] = Unit
IsKeyed ((k, c) ∷ b) = (c.control_id ≡ k) × IsKeyed b

pub find-values :
    (k : String) (b : Dict WorkflowControl) → IsKeyed b → find_control k (Dict.values b) ≡ get k b
unfolding find_control get
find-values k [] h = refl
find-values k ((j, c) ∷ b) h = ground (arith, find-values k b h.1)

pub IsKeyed-put :
    (c : WorkflowControl) (b : Dict WorkflowControl)
    → IsKeyed b
    → get c.control_id b ≡ none
    → IsKeyed (put c.control_id c b)
unfolding get put
IsKeyed-put c [] h e = (refl, tt)
IsKeyed-put c ((j, d) ∷ b) h e = elim (Bool-cases (j == c.control_id)) [
  | inl same ↦ let taken = rw same at e in cc
  | inr other ↦ rw other (h.0, IsKeyed-put c b h.1 (rw other at e))
]
