-- ===== src/Engine/Partition.antt =====
-- The loop over whole chunks ends on any fuel above the input that waits, and does not see how
-- its input was divided into calls.
use noise_ai.Base.{
  ℕ, zero, suc, ◌+◌, ◌/◌, ◌≤◌, ◌<◌, ◌≡◌, refl, sym, ap, ◌∙◌, true, Option, some, List, ◌++◌, ◌>>=◌,
  arith, length, length-append, length-drop, drop, le→leb, lt→leb,
}
use native.Mathlib.Decide.{dec_le}
use mathlib.Core.List.{append_assoc}
use noise_ai.Float.{Float}
use noise_ai.Frames.{frame_size}
use noise_ai.DeepFilter.{Ort}
use noise_ai.DeepFilter.Laws.{IsModel, HasShapes}
use noise_ai.Engine.{Engine, RnNoise, is_set}
use noise_ai.Engine.Chunk.{process_mono_chunk}
use noise_ai.Engine.Process.{process_chunks}
use noise_ai.Engine.Valid.{Each, KeepsFrames}
use noise_ai.Engine.Chunks.{process_mono_chunk-Chunks}
use noise_ai.Engine.Feed.{feed, process_mono_chunk-feed}

shorter :
    {F : Type 0} (xs ys : List F)
    → frame_size ≤ length xs
    → ys ≡ drop frame_size xs
    → (length ys < length xs) × (length ys + frame_size ≡ length xs)
unfolding frame_size
shorter xs ys h e =
    let left = ap length e ∙ length-drop frame_size xs in (omega (arith, left), omega (arith, left))

frames_left : (m n : ℕ) → n + frame_size ≡ m → suc (n / frame_size) ≡ m / frame_size
unfolding frame_size
frames_left m n h = omega (arith, h)

no_frames : (m : ℕ) → m < frame_size → m / frame_size ≡ 0
unfolding frame_size
no_frames m h = omega arith

module _ {F R S N : Type 0} ⦃f : Float F⦄ where
  module _ (rn : RnNoise F R) (ort : Ort F S N) (frames : KeepsFrames rn)
      (shapes : HasShapes ort) where
    -- Two amounts of fuel above the input that waits give the same result.
    process_chunks-fuel :
        (fuel fuel' : ℕ) (elapsed : ℕ → F) (k : ℕ) (e : Engine F R S N)
        → length e.input_buffer < fuel
        → length e.input_buffer < fuel'
        → is_set e.rnnoise_state ≡ true
        → Each IsModel e.deepfilter
        → process_chunks rn ort fuel elapsed k e ≡ process_chunks rn ort fuel' elapsed k e
    unfolding process_chunks
    process_chunks-fuel zero fuel' elapsed k e h h' set model = absurd (omega arith)
    process_chunks-fuel (suc fuel) zero elapsed k e h h' set model = absurd (omega arith)
    process_chunks-fuel (suc fuel) (suc fuel') elapsed k e h h' set model =
        elim (dec_le frame_size (length e.input_buffer)) [
          | yes whole ↦
              let c =
                process_mono_chunk-Chunks rn ort frames shapes (elapsed k) {e = e} whole set
                  model in
              let left = shorter e.input_buffer c.next.input_buffer whole c.takes.input in
              rw (le→leb frame_size (length e.input_buffer) whole, c.ran)
                (process_chunks-fuel fuel fuel' elapsed (k + 1) c.next (omega (arith, left))
                  (omega (arith, left)) (c.takes.steps.denoiser ∙ set) c.takes.steps.model)
          | no few ↦ rw (lt→leb frame_size (length e.input_buffer) (omega arith)) refl
        ]

    -- What a call does with its mono samples: they join the input, and the whole chunks run.
    abbrev pub denoise : List F → (ℕ → F) → ℕ → Engine F R S N → Option (Engine F R S N)
    denoise xs elapsed k e =
        process_chunks rn ort (suc (length (feed xs e).input_buffer)) elapsed k (feed xs e)

    process_chunks-split :
        (fuel : ℕ) (elapsed : ℕ → F) (k : ℕ) (e : Engine F R S N) (xs : List F)
        → length e.input_buffer < fuel
        → is_set e.rnnoise_state ≡ true
        → Each IsModel e.deepfilter
        → denoise xs elapsed k e ≡ (
            process_chunks rn ort fuel elapsed k e
            >>= denoise xs elapsed (k + length e.input_buffer / frame_size))
    unfolding process_chunks
    process_chunks-split zero elapsed k e xs h set model = absurd (omega arith)
    process_chunks-split (suc fuel) elapsed k e xs h set model =
        let size = length-append e.input_buffer xs in
        elim (dec_le frame_size (length e.input_buffer)) [
          | yes whole ↦
              let c =
                process_mono_chunk-Chunks rn ort frames shapes (elapsed k) {e = e} whole set
                  model in
              let left = shorter e.input_buffer c.next.input_buffer whole c.takes.input in
              let set' = c.takes.steps.denoiser ∙ set in
              let fed : process_mono_chunk rn ort (elapsed k) (feed xs e) ≡ some (feed xs c.next) =
                process_mono_chunk-feed xs rn ort frames shapes (elapsed k) e whole set model
                ∙ ap (λ r. do e' ← r; some (feed xs e')) c.ran in
              let refuel =
                process_chunks-fuel (length (e.input_buffer ++ xs))
                  (suc (length (feed xs c.next).input_buffer)) elapsed (k + 1) (feed xs c.next)
                  (omega (arith, left, size, length-append c.next.input_buffer xs)) (omega arith)
                  set' c.takes.steps.model in
              let rest =
                process_chunks-split fuel elapsed (k + 1) c.next xs (omega (arith, left)) set'
                  c.takes.steps.model in
              let number : k + 1 + length c.next.input_buffer / frame_size
                  ≡ k + length e.input_buffer / frame_size =
                omega (
                  arith,
                  frames_left (length e.input_buffer) (length c.next.input_buffer) left.1,
                ) in
              rw
                (
                  le→leb frame_size (length (e.input_buffer ++ xs)) (omega (arith, size, whole)),
                  le→leb frame_size (length e.input_buffer) whole,
                  fed,
                  c.ran,
                )
                (refuel
                  ∙ rest
                  ∙ ap
                      (λ j.
                        process_chunks rn ort fuel elapsed (k + 1) c.next >>= denoise xs elapsed j)
                      number)
          | no few ↦
              let none_yet : k + length e.input_buffer / frame_size ≡ k =
                omega (arith, no_frames (length e.input_buffer) (omega arith)) in
              rw (lt→leb frame_size (length e.input_buffer) (omega arith))
                (ap (λ j. denoise xs elapsed j e) (sym none_yet))
        ]

    -- With libraries that return whole frames, an RNNoise state and a well-formed model:
    -- denoising samples at once or in two parts, one after the other and with the clock going on,
    -- leads to the same engine, with the same output, the same samples that wait, and the same
    -- states and counters.
    pub denoise-append :
        (elapsed : ℕ → F) (xs ys : List F) (e : Engine F R S N)
        → is_set e.rnnoise_state ≡ true
        → Each IsModel e.deepfilter
        → denoise (xs ++ ys) elapsed 0 e ≡ (
            denoise xs elapsed 0 e
            >>= denoise ys elapsed ((length e.input_buffer + length xs) / frame_size))
    denoise-append elapsed xs ys e set model =
        let number : 0 + length (e.input_buffer ++ xs) / frame_size
            ≡ (length e.input_buffer + length xs) / frame_size =
          omega (arith, ap (λ m. m / frame_size) (length-append e.input_buffer xs)) in
        ap (λ b. process_chunks rn ort (suc (length b)) elapsed 0 (record e { input_buffer = b }))
          (sym (append_assoc e.input_buffer xs ys))
        ∙ process_chunks-split (suc (length (e.input_buffer ++ xs))) elapsed 0 (feed xs e) ys
            (omega arith) set model
        ∙ ap (λ j. denoise xs elapsed 0 e >>= denoise ys elapsed j) number
