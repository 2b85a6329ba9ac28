-- ===== src/Base/Memory.antt =====
-- `memcpy` between arrays, and what an array holds after it.
use Prim.Native.Nat.{ℕ, zero, suc, ◌+◌, ◌-◌, ◌≤◌, ◌<◌}
use mathlib.Core.Path.{◌≡◌, refl, sym, ◌∙◌, ap}
use mathlib.Core.Logic.{◌⊎◌, inr}
use mathlib.Core.List.{List, [], ◌∷◌, ◌++◌}
use mathlib.Core.Bool.{◌&&◌}
use mathlib.Core.Option.{Option, none, some}
use native.Mathlib.Omega.{arith}
use noise_ai.Base.Tests.{leb, le→leb, if◌then◌else◌}
use noise_ai.Base.Lists.{length, get_or, take, drop}

module _ {ℓ} {A : Type ℓ} where
  -- The elements of `xs` over those of the array from index `i` on.
  abbrev pub overwrite : ℕ → List A → List A → List A
  overwrite i xs [] = []
  overwrite zero [] (y ∷ ys) = y ∷ ys
  overwrite zero (x ∷ xs) (y ∷ ys) = x ∷ overwrite zero xs ys
  overwrite (suc i) xs (y ∷ ys) = y ∷ overwrite i xs ys

  -- `n` elements from index `i` on.
  abbrev pub slice : ℕ → ℕ → List A → List A
  slice i n xs = take n (drop i xs)

  -- `memcpy(dst + i, src + j, n)`; `none` is an access outside one of the arrays.
  abbrev pub memcpy : List A → ℕ → List A → ℕ → ℕ → Option (List A)
  memcpy dst i src j n =
      if leb (i + n) (length dst) && leb (j + n) (length src)
      then some (overwrite i (slice j n src) dst)
      else none

  pub memcpy-some :
      (dst : List A) (i : ℕ) (src : List A) (j n : ℕ)
      → i + n ≤ length dst
      → j + n ≤ length src
      → memcpy dst i src j n ≡ some (overwrite i (slice j n src) dst)
  memcpy-some dst i src j n h g = rw (le→leb (i + n) (length dst) h, le→leb (j + n) (length src) g)

  pub length-overwrite : (i : ℕ) (xs ys : List A) → length (overwrite i xs ys) ≡ length ys
  length-overwrite i xs [] = refl
  length-overwrite zero [] (y ∷ ys) = refl
  length-overwrite zero (x ∷ xs) (y ∷ ys) = ap suc (length-overwrite zero xs ys)
  length-overwrite (suc i) xs (y ∷ ys) = ap suc (length-overwrite i xs ys)

  pub overwrite_start :
      (xs ys : List A) → length xs ≤ length ys → overwrite 0 xs ys ≡ xs ++ drop (length xs) ys
  overwrite_start [] [] h = refl
  overwrite_start [] (y ∷ ys) h = refl
  overwrite_start (x ∷ xs) [] h = absurd (omega arith)
  overwrite_start (x ∷ xs) (y ∷ ys) h = ap (◌∷◌ x) (overwrite_start xs ys (omega arith))

  pub overwrite_behind :
      (n : ℕ) (xs ys zs : List A)
      → length xs ≡ n
      → overwrite n ys (xs ++ zs) ≡ xs ++ overwrite 0 ys zs
  overwrite_behind zero [] ys zs e = refl
  overwrite_behind zero (x ∷ xs) ys zs e = absurd (omega arith)
  overwrite_behind (suc n) [] ys zs e = absurd (omega arith)
  overwrite_behind (suc n) (x ∷ xs) ys zs e = ap (◌∷◌ x) (overwrite_behind n xs ys zs (omega arith))

  pub get_or-overwrite_in :
      (i j : ℕ) (xs ys : List A) (d : A)
      → i ≤ j
      → j < i + length xs
      → j < length ys
      → get_or (overwrite i xs ys) j d ≡ get_or xs (j - i) d
  get_or-overwrite_in i j xs [] d h k g = absurd (omega arith)
  get_or-overwrite_in zero j [] (y ∷ ys) d h k g = absurd (omega arith)
  get_or-overwrite_in zero zero (x ∷ xs) (y ∷ ys) d h k g = refl
  get_or-overwrite_in zero (suc j) (x ∷ xs) (y ∷ ys) d h k g =
      let e : suc j - 0 ≡ suc (j - 0) = omega arith in
      get_or-overwrite_in zero j xs ys d (omega arith) (omega arith) (omega arith)
      ∙ ap (λ m. get_or (x ∷ xs) m d) (sym e)
  get_or-overwrite_in (suc i) zero xs (y ∷ ys) d h k g = absurd (omega arith)
  get_or-overwrite_in (suc i) (suc j) xs (y ∷ ys) d h k g =
      get_or-overwrite_in i j xs ys d (omega arith) (omega arith) (omega arith)
      ∙ ap (λ m. get_or xs m d) (omega arith)

  pub get_or-overwrite_out :
      (i j : ℕ) (xs ys : List A) (d : A)
      → (j < i) ⊎ (i + length xs ≤ j)
      → get_or (overwrite i xs ys) j d ≡ get_or ys j d
  get_or-overwrite_out i j xs [] d h = refl
  get_or-overwrite_out zero j [] (y ∷ ys) d h = refl
  get_or-overwrite_out zero zero (x ∷ xs) (y ∷ ys) d h = absurd (omega arith)
  get_or-overwrite_out zero (suc j) (x ∷ xs) (y ∷ ys) d h =
      get_or-overwrite_out zero j xs ys d (inr (omega arith))
  get_or-overwrite_out (suc i) zero xs (y ∷ ys) d h = refl
  get_or-overwrite_out (suc i) (suc j) xs (y ∷ ys) d h =
      get_or-overwrite_out i j xs ys d (omega arith)

  pub get_or-take : (n k : ℕ) (xs : List A) (d : A) → k < n → get_or (take n xs) k d ≡ get_or xs k d
  get_or-take zero k xs d h = absurd (omega arith)
  get_or-take (suc n) k [] d h = refl
  get_or-take (suc n) zero (x ∷ xs) d h = refl
  get_or-take (suc n) (suc k) (x ∷ xs) d h = get_or-take n k xs d (omega arith)

  pub get_or-drop : (n k : ℕ) (xs : List A) (d : A) → get_or (drop n xs) k d ≡ get_or xs (n + k) d
  get_or-drop zero k xs d = ap (λ m. get_or xs m d) (omega arith)
  get_or-drop (suc n) k [] d = refl
  get_or-drop (suc n) k (x ∷ xs) d =
      let e : suc n + k ≡ suc (n + k) = omega arith in
      get_or-drop n k xs d ∙ ap (λ m. get_or (x ∷ xs) m d) (sym e)
