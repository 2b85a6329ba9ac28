-- ===== src/Float/Fixed.antt =====
-- Fixed-point numbers, in hundredths: values at which the theorems about floats can be run.
use noise_ai.Base.{
  ℕ, zero, suc, ◌+◌, ◌-◌, ◌*◌, ◌/◌, ◌^◌, ltb, leb, if◌then◌else◌, Bool, true, false, ◌≡◌, refl,
  arith,
}
use noise_ai.Float.{Float}
use noise_ai.Float.Order.{IsOrdered}

-- `negsuc n` is -(n + 1).
pub data ℤ : Type 0 where
  pos : ℕ → ℤ
  negsuc : ℕ → ℤ

abbrev magnitude : ℤ → ℕ
magnitude (pos n) = n
magnitude (negsuc n) = suc n

abbrev negate : ℤ → ℤ
negate (pos zero) = pos zero
negate (pos (suc n)) = negsuc n
negate (negsuc n) = pos (suc n)

-- A number of the sign of the product, with the magnitude given.
abbrev with_sign : ℤ → ℤ → ℕ → ℤ
with_sign (pos a) (pos b) n = pos n
with_sign (pos a) (negsuc b) n = negate (pos n)
with_sign (negsuc a) (pos b) n = negate (pos n)
with_sign (negsuc a) (negsuc b) n = pos n

abbrev minus : ℕ → ℕ → ℤ
minus a b = if leb b a then pos (a - b) else negsuc (b - a - 1)

abbrev plus : ℤ → ℤ → ℤ
plus (pos a) (pos b) = pos (a + b)
plus (pos a) (negsuc b) = minus a (suc b)
plus (negsuc a) (pos b) = minus b (suc a)
plus (negsuc a) (negsuc b) = negsuc (a + b + 1)

abbrev less : ℤ → ℤ → Bool
less (pos a) (pos b) = ltb a b
less (pos a) (negsuc b) = false
less (negsuc a) (pos b) = true
less (negsuc a) (negsuc b) = ltb b a

abbrev not_more : ℤ → ℤ → Bool
not_more (pos a) (pos b) = leb a b
not_more (pos a) (negsuc b) = false
not_more (negsuc a) (pos b) = true
not_more (negsuc a) (negsuc b) = leb b a

instance abbrev pub fixed : Float ℤ
fixed = record {
  lit = λ n k. pos (n * 100 / 10 ^ k);
  neg = negate;
  add = plus;
  sub = λ a b. plus a (negate b);
  mul = λ a b. with_sign a b (magnitude a * magnitude b / 100);
  div = λ a b. with_sign a b (magnitude a * 100 / magnitude b);
  lt = less;
  le = not_more;
  of_uint = λ n. pos (n * 100);
}

less_asym : (a b : ℤ) → less a b ≡ true → less b a ≡ false
less_asym (pos a) (pos b) h = ground arith
less_asym (pos a) (negsuc b) h = cc
less_asym (negsuc a) (pos b) h = refl
less_asym (negsuc a) (negsuc b) h = ground arith

pub Fixed-IsOrdered : IsOrdered ℤ
Fixed-IsOrdered = record { lt_asym = less_asym; signs = refl }
