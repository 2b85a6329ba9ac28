-- ===== src/Float/Order.antt =====
-- Bounds that clipping establishes. The order is assumed asymmetric and no more, so the bounds
-- hold of IEEE numbers, infinities and NaN.
use noise_ai.Base.{◌≡◌, true, false, List, [], ◌∷◌, ◌++◌, ℕ, zero, suc, replicate, arith}
use noise_ai.Float.{Float, one, std_clamp, clip}

pub record IsOrdered (F : Type 0) ⦃f : Float F⦄ : Type 0 where
  pub lt_asym : (a b : F) → f.lt a b ≡ true → f.lt b a ≡ false
  pub signs : f.lt (f.neg one) one ≡ true

-- Neither below `lo` nor above `hi`.
abbrev pub IsWithin : {F : Type 0} ⦃f : Float F⦄ → F → F → F → Type 0
IsWithin ⦃f⦄ lo hi x = (f.lt x lo ≡ false) × (f.lt hi x ≡ false)

-- Every sample of a list.
abbrev pub AllWithin : {F : Type 0} ⦃f : Float F⦄ → F → F → List F → Type 0
AllWithin lo hi [] = Unit {0}
AllWithin lo hi (x ∷ xs) = IsWithin lo hi x × AllWithin lo hi xs

module _ {F : Type 0} ⦃f : Float F⦄ (lo hi : F) where
  pub append-AllWithin :
      (xs ys : List F) → AllWithin lo hi xs → AllWithin lo hi ys → AllWithin lo hi (xs ++ ys)
  append-AllWithin [] ys a b = b
  append-AllWithin (x ∷ xs) ys a b = (a.0, append-AllWithin xs ys a.1 b)

  pub replicate-AllWithin : (n : ℕ) (x : F) → IsWithin lo hi x → AllWithin lo hi (replicate n x)
  replicate-AllWithin zero x h = tt
  replicate-AllWithin (suc n) x h = (h, replicate-AllWithin n x h)

module _ {F : Type 0} ⦃f : Float F⦄ (o : IsOrdered F) where
  lt_irrefl : (a : F) → f.lt a a ≡ false
  lt_irrefl a = ground (arith, o.lt_asym a a)

  -- Where `<` is asymmetric and -1 < 1: clipping gives a sample that is neither below -1 nor
  -- above 1, also where the sample is NaN.
  pub clip-IsWithin : (x : F) → IsWithin (f.neg one) one (clip x)
  unfolding clip
  clip-IsWithin x = ground (
    arith,
    o.signs,
    o.lt_asym (f.neg one) one,
    o.lt_asym x one,
    o.lt_asym (f.neg one) x,
    lt_irrefl one,
    lt_irrefl (f.neg one),
  )

  pub std_clamp-IsWithin : (v lo hi : F) → f.lt hi lo ≡ false → IsWithin lo hi (std_clamp v lo hi)
  unfolding std_clamp
  std_clamp-IsWithin v lo hi h = ground (arith, lt_irrefl lo, lt_irrefl hi)
