-- ===== src/Circular/Safety.antt =====
-- The copies stay inside both arrays.
use native.Mathlib.Nat.{mod-lt}
use noise_ai.Base.{
  ℕ, zero, suc, ◌+◌, ◌-◌, ◌%◌, ◌≤◌, ◌<◌, min, ltb, lt→ltb, if◌then◌else◌, ◌≡◌, refl, sym, ap, some,
  List, [], ◌∷◌, arith, length, overwrite, slice, memcpy, memcpy-some, length-overwrite, mod?-some,
}
use noise_ai.Circular.{copy_in, copy_out}
use noise_ai.Circular.Copies.{splice, collect}

module _ {ℓ} {A : Type ℓ} where
  overwrite-nil : (i : ℕ) (ys : List A) → overwrite i [] ys ≡ ys
  overwrite-nil i [] = refl
  overwrite-nil zero (y ∷ ys) = refl
  overwrite-nil (suc i) (y ∷ ys) = ap (◌∷◌ y) (overwrite-nil i ys)

  -- The second copy may as well be made when it is empty.
  second_copy :
      (dst : List A) (i : ℕ) (src : List A) (j n : ℕ)
      → i + n ≤ length dst
      → j + n ≤ length src
      → (if ltb 0 n then memcpy dst i src j n else some dst)
        ≡ some (overwrite i (slice j n src) dst)
  second_copy dst i src j zero h g = ap some (sym (overwrite-nil i dst))
  second_copy dst i src j (suc n) h g =
      rw (lt→ltb 0 (suc n) (omega arith)) (memcpy-some dst i src j (suc n) h g)

  pub copy_in-splice :
      (c : ℕ) (buffer : List A) (w : ℕ) (samples : List A) (n : ℕ)
      → 0 < c
      → length buffer ≡ c
      → n ≤ c
      → n ≤ length samples
      → copy_in c buffer w samples n ≡ some (splice c buffer w samples n)
  unfolding copy_in splice
  copy_in-splice c buffer w samples n pos full fits given =
      let index : w % c < c = mod-lt w pos in
      let f : ℕ = min n (c - w % c) in
      rw (mod?-some w c pos, memcpy-some buffer (w % c) samples 0 f (omega arith) (omega arith))
        (second_copy (overwrite (w % c) (slice 0 f samples) buffer) 0 samples f (n - f)
          (omega (arith, length-overwrite (w % c) (slice 0 f samples) buffer)) (omega arith))

  pub copy_out-collect :
      (c : ℕ) (buffer : List A) (r : ℕ) (samples : List A) (n : ℕ)
      → 0 < c
      → length buffer ≡ c
      → n ≤ c
      → n ≤ length samples
      → copy_out c buffer r samples n ≡ some (collect c buffer r samples n)
  unfolding copy_out collect
  copy_out-collect c buffer r samples n pos full fits given =
      let index : r % c < c = mod-lt r pos in
      let f : ℕ = min n (c - r % c) in
      rw (mod?-some r c pos, memcpy-some samples 0 buffer (r % c) f (omega arith) (omega arith))
        (second_copy (overwrite 0 (slice (r % c) f buffer) samples) f buffer 0 (n - f)
          (omega (arith, length-overwrite 0 (slice (r % c) f buffer) samples)) (omega arith))
