-- ===== src/Engine/Limits.antt =====
-- The samples that the engine delivers: clipped, or silence.
use noise_ai.Base.{
  ℕ, ◌*◌, ◌≤◌, ◌<◌, ◌≡◌, ◌⊎◌, inl, inr, refl, ap, ◌∙◌, true, Bool-cases, ◌&&◌, ◌||◌, leb, leb→le,
  and_right, Option, some, none, List, [], ◌∷◌, ◌++◌, arith, length, length-take, length-map, take,
  drop, map, u32, take-append_le, take-length,
}
use noise_ai.Float.{Float, nought, one, clip}
use noise_ai.Float.Order.{
  IsOrdered, IsWithin, AllWithin, append-AllWithin, replicate-AllWithin, clip-IsWithin,
}
use noise_ai.Frames.{zeros, length-zeros}
use noise_ai.Delay
use noise_ai.Delay.{Line}
use noise_ai.DeepFilter.{Ort}
use noise_ai.DeepFilter.Laws.{HasShapes}
use noise_ai.Engine.{Engine, RnNoise, is_running}
use noise_ai.Engine.Process.{output_prefill_samples, process_frame}
use noise_ai.Engine.Valid.{IsValid, KeepsFrames}
use noise_ai.Engine.Interleave.{spread, length-spread}
use noise_ai.Engine.Output.{line, render}
use noise_ai.Engine.Answer.{process_frame-Answers}

-- A delay line gives nothing, or as many samples as are asked for.
step-count :
    {F : Type 0} (prefill n : ℕ) (fresh : List F) (l : Line F)
    → ((Delay.step prefill fresh n l).0 ≡ none)
      ⊎ ((xs : List F) × ((Delay.step prefill fresh n l).0 ≡ some xs) × (length xs ≡ n))
unfolding Delay.step
step-count prefill n fresh l =
    let pool = l.queue ++ fresh in
    let started = l.started || leb prefill (length pool) in
    elim (Bool-cases (started && leb n (length pool))) [
      | inl now ↦ rw now (
          inr (
            take n pool,
            refl,
            omega (arith, length-take n pool, leb→le n (length pool) (and_right started _ now)),
          ))
      | inr later ↦ rw later (inl refl)
    ]

take_start : {F : Type 0} (n : ℕ) (xs ys : List F) → length xs ≡ n → take n (xs ++ ys) ≡ xs
take_start n xs ys h =
    take-append_le n xs ys (omega (arith, h)) ∙ take-length n xs (omega (arith, h))

module _ {F : Type 0} ⦃f : Float F⦄ (o : IsOrdered F) where
  spread-AllWithin : (c : ℕ) (xs : List F) → AllWithin (f.neg one) one (spread c (map clip xs))
  spread-AllWithin c [] = tt
  spread-AllWithin c (x ∷ xs) =
      append-AllWithin _ _ _ _ (replicate-AllWithin _ _ c (clip x) (clip-IsWithin o x))
        (spread-AllWithin c xs)

  render-AllWithin :
      (c n : ℕ) (output : List F) (given : Option (List F))
      → IsWithin (f.neg one) one nought
      → (given ≡ none) ⊎ ((xs : List F) × (given ≡ some xs) × (length xs ≡ n))
      → AllWithin (f.neg one) one (take (n * c) (render c n output given))
  unfolding zeros
  render-AllWithin c n output given mute (inl silent) =
      rw (silent, take_start (n * c) (zeros (n * c)) (drop (n * c) output) (length-zeros F (n * c)))
        (replicate-AllWithin _ _ (n * c) nought mute)
  render-AllWithin c n output given mute (inr (xs, gives, size)) =
      let whole : length (spread c (map clip xs)) ≡ n * c =
        length-spread c (map clip xs) ∙ ap (λ k. k * c) (length-map clip xs ∙ size) in
      rw (gives, take_start (n * c) (spread c (map clip xs)) (drop (n * c) output) whole)
        (spread-AllWithin c xs)

module _ {F R S N : Type 0} ⦃f : Float F⦄ where
  -- Where `<` is asymmetric, -1 < 1, and neither 0 < -1 nor 1 < 0; with libraries that return
  -- whole frames, a running, well-formed engine, and arrays of less than 2^32 samples that hold
  -- the call's frames: `process_frame` returns true, and no sample of the frames that it writes
  -- is below -1 or above 1, whatever the input holds and the libraries return.
  pub process_frame-AllWithin :
      IsOrdered F
      → IsWithin (f.neg one) one nought
      → (rn : RnNoise F R) (ort : Ort F S N) → KeepsFrames rn
      → HasShapes ort
      → (elapsed : ℕ → F) (input output : List F) (n : ℕ) {e : Engine F R S N} → IsValid e
      → is_running e.status ≡ true
      → n * e.channels ≤ length input
      → length input < u32
      → n * e.channels ≤ length output
      → length output < u32
      → (output' : List F) × (next : Engine F R S N) × (process_frame rn ort elapsed input output n
            e
          ≡ some (true, output', next))
        × AllWithin (f.neg one) one (take (n * e.channels) output')
  process_frame-AllWithin o mute rn ort frames shapes elapsed input output n {e} v run given small
        room small' =
      let a =
        process_frame-Answers rn ort frames shapes elapsed input output n {e = e} v run given small
          room small' in
      (
        _,
        a.next,
        a.ran,
        render-AllWithin o e.channels n output _ mute
            (step-count output_prefill_samples n a.fresh (line e)),
      )
