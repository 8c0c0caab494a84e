-- ===== src/Prelude/Options.antt =====
-- `Option` as the result of code that can fail: `do` blocks and the inversion of a bind.
use mathlib.Core.Path.{◌≡◌, refl}
use mathlib.Core.Option.{Option, none, some}

infixl 5 ◌>>=◌
abbrev pub ◌>>=◌ {ℓ κ} : {A : Type ℓ} {B : Type κ} → Option A → (A → Option B) → Option B
none >>= f = none
some a >>= f = f a

pub >>=-eq-some {ℓ κ} :
    {A : Type ℓ} {B : Type κ} (m : Option A) (f : A → Option B) {b : B}
    → (m >>= f) ≡ some b
    → (a : A) × (m ≡ some a) × (f a ≡ some b)
>>=-eq-some none f h = cc
>>=-eq-some (some a) f h = (a, refl, h)

pub some_inj {ℓ} : {A : Type ℓ} {a b : A} → some a ≡ some b → a ≡ b
some_inj h = cc

pub >>=-some {ℓ κ} :
    {A : Type ℓ} {B : Type κ} (f : A → Option B) {m : Option A} {a : A} {r : Option B}
    → m ≡ some a
    → f a ≡ r
    → (m >>= f) ≡ r
>>=-some f h k = rw h k
