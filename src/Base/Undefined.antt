-- ===== src/Base/Undefined.antt =====
-- A run of C++ code that either returns or has undefined behaviour: a read outside a buffer, a
-- range whose end precedes its start, a shift past the width of its type.
use mathlib.Core.Path.{◌≡◌, refl}
use mathlib.Core.Logic.{◌⊎◌, inl, inr}
use mathlib.Core.Bool.{Bool, true, false}

pub data Exec {ℓ} (A : Type ℓ) : Type ℓ where
  ret : A → Exec A
  undef : Exec A

infixl 5 ◌>>=◌ ◌>>◌
abbrev pub ◌>>=◌ {ℓ κ} : {A : Type ℓ} {B : Type κ} → Exec A → (A → Exec B) → Exec B
ret a >>= f = f a
undef >>= f = undef

abbrev pub ◌>>◌ {ℓ} : {B : Type ℓ} → Exec (Unit {0}) → Exec B → Exec B
m >> k = m >>= λ _. k

-- The rest of the run is defined only where the condition holds.
abbrev pub demand : Bool → Exec (Unit {0})
demand true = ret tt
demand false = undef

undef-ne-ret {ℓ} : {A : Type ℓ} {a : A} → ¬ (undef ≡ ret a)
undef-ne-ret h = cc

-- Inversion of a run that returns.
pub >>=-elim {ℓ κ μ} :
    {A : Type ℓ} {B : Type κ} {P : Type μ} (m : Exec A) (f : A → Exec B) {b : B}
    → (m >>= f) ≡ ret b
    → ((a : A) → m ≡ ret a → f a ≡ ret b → P)
    → P
>>=-elim (ret a) f h use_it = use_it a refl h
>>=-elim undef f h use_it = absurd (undef-ne-ret h)

pub Exec-cases {ℓ} : {A : Type ℓ} (m : Exec A) → (m ≡ undef) ⊎ ((a : A) × (m ≡ ret a))
Exec-cases (ret a) = inr (a, refl)
Exec-cases undef = inl refl

pub undef_of_not_ret {ℓ} : {A : Type ℓ} (m : Exec A) → ((a : A) → ¬ (m ≡ ret a)) → m ≡ undef
undef_of_not_ret (ret a) h = absurd (h a refl)
undef_of_not_ret undef h = refl
