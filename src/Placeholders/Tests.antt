-- ===== src/Placeholders/Tests.antt =====
-- The placeholders on a few samples in hundredths.
use noise_ai.Base.{◌≡◌, refl, some, List, [], ◌∷◌, ◌++◌, arith, length, drop}
use noise_ai.Float.Fixed.{ℤ, pos, negsuc, fixed, Fixed-IsOrdered}
use noise_ai.Float.Order.{AllWithin}
use noise_ai.Placeholders.{apply_limiter}
use noise_ai.Placeholders.Limiter.{apply_limiter-AllWithin}

abbrev loud : List ℤ
loud = pos 150 ∷ negsuc 120 ∷ pos 30 ∷ pos 200 ∷ []

apply_limiter-AllWithin_example :
    (limited : List ℤ) × (apply_limiter loud 3 (pos 80) ≡ some (limited ++ drop 3 loud))
    × (length limited ≡ 3)
    × AllWithin (fixed.neg (pos 80)) (pos 80) limited
apply_limiter-AllWithin_example =
    apply_limiter-AllWithin (pos 80) Fixed-IsOrdered refl loud 3 (omega arith)
