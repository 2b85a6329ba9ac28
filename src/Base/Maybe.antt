-- ===== src/Base/Maybe.antt =====
-- Computations that may have undefined behaviour: `none` is a read or write out of bounds, a call
-- through a null pointer, or a division by zero.
use Prim.Native.Nat.{ℕ, zero, suc, ◌%◌, ◌<◌}
use mathlib.Core.Path.{◌≡◌, refl}
use mathlib.Core.Option.{Option, none, some}

infixl 5 ◌>>=◌ ◌>>◌
abbrev pub ◌>>=◌ {ℓ κ} : {A : Type ℓ} {B : Type κ} → Option A → (A → Option B) → Option B
none >>= f = none
some a >>= f = f a

abbrev pub ◌>>◌ {ℓ κ} : {A : Type ℓ} {B : Type κ} → Option A → Option B → Option B
m >> k = m >>= λ _. k

-- `n % m`, where a zero divisor is undefined behaviour.
abbrev pub mod? : ℕ → ℕ → Option ℕ
mod? n zero = none
mod? n (suc m) = some (n % suc m)

pub mod?-some : (n m : ℕ) → 0 < m → mod? n m ≡ some (n % m)
mod?-some n zero h = elim h [ ]
mod?-some n (suc m) h = refl

pub >>=-eq-some {ℓ κ} :
    {A : Type ℓ} {B : Type κ} (m : Option A) (f : A → Option B) {b : B}
    → (m >>= f) ≡ some b
    → (a : A) × (m ≡ some a) × (f a ≡ some b)
>>=-eq-some none f h = cc
>>=-eq-some (some a) f h = (a, refl, h)
