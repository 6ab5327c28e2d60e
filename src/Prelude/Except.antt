-- ===== src/Prelude/Except.antt =====
-- A function that may raise: its result or what it raises.
use mathlib.Core.Path.{◌≡◌, refl}
use mathlib.Core.Logic.{◌↔◌}
use mathlib.Core.Bool.{Bool, true, false}

pub data Except {ℓ κ} (E : Type ℓ) (A : Type κ) : Type (ℓ ⊔ κ) where
  err : E → Except E A
  ok : A → Except E A

module _ {ℓ κ} {E : Type ℓ} {B : Type κ} where
  infixl 5 ◌>>=◌ ◌>>◌
  abbrev pub ◌>>=◌ {ι} : {A : Type ι} → Except E A → (A → Except E B) → Except E B
  err raised >>= next = err raised
  ok result >>= next = next result

  abbrev pub ◌>>◌ : Except E (Unit {0}) → Except E B → Except E B
  check >> next = check >>= λ _. next

  -- Inversion of a successful bind.
  pub >>=-eq-ok {ι} :
      {A : Type ι} (m : Except E A) (next : A → Except E B) {b : B}
      → m >>= next ≡ ok b
      → (a : A) × (m ≡ ok a) × (next a ≡ ok b)
  >>=-eq-ok (err raised) next h = cc
  >>=-eq-ok (ok result) next h = (result, refl, h)

-- `if not condition: raise e`
abbrev pub guard {ℓ} : {E : Type ℓ} → Bool → E → Except E (Unit {0})
guard false e = err e
guard true e = ok tt

-- A check passes, and then the next, exactly where both pass; a guard passes where its test holds.
pub >>-eq-ok_iff {ℓ κ} :
    {E : Type ℓ} {B : Type κ} (check : Except E (Unit {0})) (next : Except E B) {b : B}
    → (check >> next ≡ ok b) ↔ ((check ≡ ok tt) × (next ≡ ok b))
>>-eq-ok_iff (err raised) next = (λ h. cc, λ h. cc)
>>-eq-ok_iff (ok tt) next = (λ h. (refl, h), λ h. h.1)

pub guard-eq-ok_iff {ℓ} :
    {E : Type ℓ} (condition : Bool) (e : E) → (guard condition e ≡ ok tt) ↔ (condition ≡ true)
guard-eq-ok_iff false e = (λ h. cc, λ h. cc)
guard-eq-ok_iff true e = (λ h. refl, λ h. refl)
