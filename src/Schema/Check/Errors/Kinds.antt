-- ===== src/Schema/Check/Errors/Kinds.antt =====
-- The two kinds of error of schema_subset.py, and what raises errors of one kind alone.
use hermes_plugin_dynamic_wo.Prelude.{◌≡◌, refl, Bool, true, false}
use hermes_plugin_dynamic_wo.Schema.Nodes.{SchemaError, Result, ok, err, ◌>>=◌, malformed, mismatch}

-- Is the schema at fault, or the payload?
abbrev pub is_malformed : SchemaError → Bool
is_malformed (malformed path e) = true
is_malformed (mismatch path e) = false

-- The only errors are of one kind.
abbrev pub Only : {A : Type 0} → Bool → Result A → Type 0
Only kind (ok a) = Unit
Only kind (err e) = is_malformed e ≡ kind

pub Only-intro :
    {A : Type 0} (kind : Bool) (m : Result A)
    → ((e : SchemaError) → m ≡ err e → is_malformed e ≡ kind)
    → Only kind m
Only-intro kind (ok a) h = tt
Only-intro kind (err e) h = h e refl

pub Only-elim :
    {A : Type 0} {kind : Bool} (m : Result A) {e : SchemaError}
    → Only kind m
    → m ≡ err e
    → is_malformed e ≡ kind
Only-elim (ok a) o h = cc
Only-elim (err e) o h = cc

pub Only->>= :
    {A B : Type 0} (kind : Bool) (m : Result A) (f : A → Result B)
    → Only kind m
    → ((a : A) → Only kind (f a))
    → Only kind (m >>= f)
Only->>= kind (ok a) f o k = k a
Only->>= kind (err e) f o k = o

pub elim-Only :
    {A : Type 0} (kind b : Bool) (m n : Result A)
    → Only kind m
    → Only kind n
    → Only kind (elim b [ true ↦ m | false ↦ n ])
elim-Only kind true m n p q = p
elim-Only kind false m n p q = q
