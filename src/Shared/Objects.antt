-- ===== src/Shared/Objects.antt =====
-- The objects of a small system, in the order they were made: `none` is one without bytes.
use noise_ai.Base.{
  ℕ, zero, suc, ◌≡◌, ◌≢◌, refl, ap, Option, none, some, List, [], ◌∷◌, ◌++◌, length,
}
use noise_ai.Shared.{Segment}

abbrev pub Objects : Type 0 → Type 0
Objects F = List (Option (Segment F))

abbrev pub at : {F : Type 0} → ℕ → Objects F → Option (Segment F)
at _ [] = none
at zero (x ∷ xs) = x
at (suc k) (x ∷ xs) = at k xs

abbrev pub put : {F : Type 0} → ℕ → Segment F → Objects F → Objects F
put zero s [] = some s ∷ []
put zero s (x ∷ xs) = some s ∷ xs
put (suc k) s [] = none ∷ put k s []
put (suc k) s (x ∷ xs) = x ∷ put k s xs

pub at-put : {F : Type 0} (k : ℕ) (s : Segment F) (xs : Objects F) → at k (put k s xs) ≡ some s
at-put zero s [] = refl
at-put zero s (x ∷ xs) = refl
at-put (suc k) s [] = at-put k s []
at-put (suc k) s (x ∷ xs) = at-put k s xs

pub at-put_other :
    {F : Type 0} (j k : ℕ) (s : Segment F) (xs : Objects F) → j ≢ k → at j (put k s xs) ≡ at j xs
at-put_other zero zero s xs h = absurd (h refl)
at-put_other (suc j) zero s [] h = refl
at-put_other (suc j) zero s (x ∷ xs) h = refl
at-put_other zero (suc k) s [] h = refl
at-put_other zero (suc k) s (x ∷ xs) h = refl
at-put_other (suc j) (suc k) s [] h = at-put_other j k s [] (λ e. h (ap suc e))
at-put_other (suc j) (suc k) s (x ∷ xs) h = at-put_other j k s xs (λ e. h (ap suc e))

pub at-length : {F : Type 0} (xs : Objects F) → at (length xs) xs ≡ none
at-length [] = refl
at-length (x ∷ xs) = at-length xs

pub at-append : {F : Type 0} (k : ℕ) (xs : Objects F) → at k (xs ++ (none ∷ [])) ≡ at k xs
at-append zero [] = refl
at-append (suc k) [] = refl
at-append zero (x ∷ xs) = refl
at-append (suc k) (x ∷ xs) = at-append k xs
