-- ===== src/Base/Results.antt =====
-- Go's pair of a value and an error, of which one is meant.
use mathlib.Core.Path.{◌≡◌, refl}
use native.Mathlib.Omega.{arith}

pub data Result {ℓ} (E A : Type ℓ) : Type ℓ where
  ok : A → Result E A
  err : E → Result E A

infixl 5 ◌>>=◌
abbrev pub ◌>>=◌ {ℓ} : {E A B : Type ℓ} → Result E A → (A → Result E B) → Result E B
ok a >>= f = f a
err e >>= f = err e

-- What a chain of results that ends well has gone through.
pub bind_ok {ℓ} :
    {E A B : Type ℓ} (r : Result E A) (next : A → Result E B) {b : B}
    → r >>= next ≡ ok b
    → (a : A) × (r ≡ ok a) × (next a ≡ ok b)
bind_ok (ok a) next ends = (a, refl, ends)
bind_ok (err e) next ends = absurd (ground (arith, ends))
