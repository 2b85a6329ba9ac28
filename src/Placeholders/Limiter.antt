-- ===== src/Placeholders/Limiter.antt =====
-- `apply_limiter` (engine/src/post_process.cpp).
use noise_ai.Base.{
  ℕ, zero, suc, ◌+◌, ◌≤◌, ◌≡◌, refl, sym, ap, ◌∙◌, false, some, List, [], ◌∷◌, ◌++◌, arith, length,
  length-append, length-map, length-take, take, drop, map, get_elem?, set,
}
use mathlib.Core.List.{append_assoc}
use noise_ai.Float.{Float, std_clamp}
use noise_ai.Float.Order.{IsOrdered, AllWithin, std_clamp-IsWithin}
use noise_ai.Placeholders.{limit, apply_limiter}

at_end :
    {F : Type 0} (pre : List F) (x : F) (post : List F)
    → get_elem? (pre ++ x ∷ post) (length pre) ≡ some x
at_end [] x post = refl
at_end (p ∷ pre) x post = at_end pre x post

set_end :
    {F : Type 0} (pre : List F) (x v : F) (post : List F)
    → set (pre ++ x ∷ post) (length pre) v ≡ pre ++ v ∷ post
set_end [] x v post = refl
set_end (p ∷ pre) x v post = ap (◌∷◌ p) (set_end pre x v post)

module _ {F : Type 0} ⦃f : Float F⦄ (threshold : F) where
  abbrev pub clamped : List F → List F
  clamped = map (λ x. std_clamp x (f.neg threshold) threshold)

  limit-clamped :
      (n i : ℕ) (pre xs : List F)
      → length pre ≡ i
      → n ≤ length xs
      → limit threshold n i (pre ++ xs) ≡ some (pre ++ (clamped (take n xs) ++ drop n xs))
  unfolding limit
  limit-clamped zero i pre xs at h = refl
  limit-clamped (suc n) i pre [] at h = absurd (omega arith)
  limit-clamped (suc n) i pre (x ∷ xs) at h =
      let y = std_clamp x (f.neg threshold) threshold in
      let moves : set (pre ++ x ∷ xs) i y ≡ (pre ++ y ∷ []) ++ xs =
        ap (λ k. set (pre ++ x ∷ xs) k y) (sym at)
        ∙ set_end pre x y xs
        ∙ sym (append_assoc pre (y ∷ []) xs) in
      let reads : get_elem? (pre ++ x ∷ xs) i ≡ some x =
        ap (get_elem? (pre ++ x ∷ xs)) (sym at) ∙ at_end pre x xs in
      rw (reads, moves)
        (limit-clamped n (i + 1) (pre ++ y ∷ []) xs (omega (arith, length-append pre (y ∷ []), at))
            (omega arith)
          ∙ ap some (append_assoc pre (y ∷ []) (clamped (take n xs) ++ drop n xs)))

  clamped-AllWithin :
      IsOrdered F
      → f.lt threshold (f.neg threshold) ≡ false
      → (xs : List F) → AllWithin (f.neg threshold) threshold (clamped xs)
  clamped-AllWithin o h [] = tt
  clamped-AllWithin o h (x ∷ xs) =
      (std_clamp-IsWithin o x (f.neg threshold) threshold h, clamped-AllWithin o h xs)

  -- Where `<` is asymmetric, -1 < 1, and the threshold is not below its negation: limiting
  -- samples within the array changes them to samples that are neither below the negated threshold
  -- nor above the threshold, and leaves the rest of the array; nothing is read or written outside
  -- it.
  pub apply_limiter-AllWithin :
      IsOrdered F
      → f.lt threshold (f.neg threshold) ≡ false
      → (audio : List F) (num_samples : ℕ) → num_samples ≤ length audio
      → (limited : List F) × (apply_limiter audio num_samples threshold
          ≡ some (limited ++ drop num_samples audio))
        × (length limited ≡ num_samples)
        × AllWithin (f.neg threshold) threshold limited
  unfolding apply_limiter
  apply_limiter-AllWithin o h audio num_samples within = (
    clamped (take num_samples audio),
    limit-clamped num_samples 0 [] audio refl within,
    length-map _ (take num_samples audio) ∙ omega (arith, length-take num_samples audio),
    clamped-AllWithin o h (take num_samples audio),
  )
