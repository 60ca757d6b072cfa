-- ===== src/Prelude/Outcome.antt =====
-- What a Python call ends in: a value it returned, or an exception it raised.
use mathlib.Core.Path.{◌≡◌, refl}

pub data Outcome (E A : Type 0) : Type 0 where
  raised : E → Outcome E A
  returned : A → Outcome E A

infixl 5 ◌>>=◌ ◌>>◌
abbrev pub ◌>>=◌ : {E A B : Type 0} → Outcome E A → (A → Outcome E B) → Outcome E B
raised exc >>= next = raised exc
returned x >>= next = next x

abbrev pub ◌>>◌ : {E B : Type 0} → Outcome E (Unit {0}) → Outcome E B → Outcome E B
first >> next = first >>= λ _. next

module _ {E A : Type 0} where
  pub returned_inj : {x y : A} → ◌≡◌ {A = Outcome E A} (returned x) (returned y) → x ≡ y
  returned_inj p = cc

  pub raised-ne-returned : {exc : E} {x : A} → ◌≡◌ {A = Outcome E A} (raised exc) (returned x) → ⊥
  raised-ne-returned p = cc

  -- Where the whole returns, its first part has returned.
  pub bind-returned :
      {B : Type 0} (first : Outcome E A) (next : A → Outcome E B) {y : B}
      → (first >>= next) ≡ returned y
      → (x : A) × (first ≡ returned x) × (next x ≡ returned y)
  bind-returned (returned x) next p = (x, refl, p)
  bind-returned (raised exc) next p = cc
