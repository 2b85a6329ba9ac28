-- ===== src/Engine/Feed.antt =====
-- How input that is still to come meets the loop over whole chunks: it waits, and no chunk reads
-- it.
use noise_ai.Base.{
  ◌≤◌, ◌≡◌, refl, sym, ap, ◌∙◌, Bool, true, false, Bool-cases, inl, inr, Option, some, Option-cases,
  List, ◌++◌, ◌>>=◌, ◌-◌, length, length-append, length-take, take, take-append_le, drop-append_le,
  add32, leb, ltb, if◌then◌else◌, arith,
}
use noise_ai.Float.{Float}
use noise_ai.Frames.{frame_size, read_block, read_block-some}
use noise_ai.DeepFilter
use noise_ai.DeepFilter.{Ort}
use noise_ai.DeepFilter.Laws.{IsModel, HasShapes}
use noise_ai.Engine.{Engine, RnNoise, is_set}
use noise_ai.Engine.Valid.{Each, KeepsFrames}
use noise_ai.Engine.Denoise.{denoise_frame-Denoises}
use noise_ai.Engine.Settings.{get_dry_mix}
use noise_ai.Engine.Chunk.{
  use_deepfilter, update_overload, put_frame, deepfilter_chunk, rnnoise_chunk, denoise_frame,
  timed_chunk, process_mono_chunk, overload_threshold_ms, overload_trigger_count,
}

module _ {F R S N : Type 0} where
  -- More input, behind what waits.
  abbrev pub feed : List F → Engine F R S N → Engine F R S N
  feed xs e = record e { input_buffer = e.input_buffer ++ xs }

  -- A result, with the input fed to the engine after it.
  abbrev pub feeds :
      {A : Type 0} → List F → Option (A × Engine F R S N) → Option (A × Engine F R S N)
  feeds xs r = do (a, e) ← r; some (a, feed xs e)

  if-fed :
      (b : Bool) (k : Engine F R S N → Option (Engine F R S N)) (x' y' : Option (Engine F R S N))
      → {x y : Option (Engine F R S N)} → x ≡ (x' >>= k)
      → y ≡ (y' >>= k)
      → (if b then x else y) ≡ ((if b then x' else y') >>= k)
  if-fed true k x' y' p q = p
  if-fed false k x' y' p q = q

module _ {F R S N : Type 0} ⦃f : Float F⦄ (xs : List F) where
  update_overload-feed :
      (elapsed_ms : F) (e : Engine F R S N)
      → update_overload elapsed_ms (feed xs e) ≡ feed xs (update_overload elapsed_ms e)
  unfolding update_overload overload_trigger_count
  update_overload-feed elapsed_ms e = elim (Bool-cases (f.lt overload_threshold_ms elapsed_ms)) [
    | inl slow ↦ elim (Bool-cases (leb overload_trigger_count (add32 e.overload_count 1))) [
      | inl many ↦ rw (slow, many) refl
      | inr few ↦ rw (slow, few) refl
    ]
    | inr fast ↦ rw fast refl
  ]

  update_overload-input :
      (elapsed_ms : F) (e : Engine F R S N)
      → (update_overload elapsed_ms e).input_buffer ≡ e.input_buffer
  unfolding update_overload overload_trigger_count
  update_overload-input elapsed_ms e = elim (Bool-cases (f.lt overload_threshold_ms elapsed_ms)) [
    | inl slow ↦ elim (Bool-cases (leb overload_trigger_count (add32 e.overload_count 1))) [
      | inl many ↦ rw (slow, many) refl
      | inr few ↦ rw (slow, few) refl
    ]
    | inr fast ↦ rw fast refl
  ]

  put_frame-feed :
      (out : List F) (e : Engine F R S N)
      → frame_size ≤ length e.input_buffer
      → put_frame out (feed xs e) ≡ feed xs (put_frame out e)
  put_frame-feed out e whole = λ i. record (put_frame out e) {
    input_buffer = drop-append_le frame_size e.input_buffer xs whole i;
  }

  module _ (rn : RnNoise F R) (ort : Ort F S N) where
    rnnoise_chunk-feed :
        (input : List F) (e : Engine F R S N)
        → rnnoise_chunk rn ort input (feed xs e) ≡ feeds xs (rnnoise_chunk rn ort input e)
    unfolding rnnoise_chunk
    rnnoise_chunk-feed input e = elim (Option-cases e.rnnoise_state) [
      | inl null ↦ rw null refl
      | inr (state, set) ↦ rw set refl
    ]

    deepfilter_chunk-feed :
        (input : List F) (e : Engine F R S N)
        → deepfilter_chunk rn ort input (feed xs e) ≡ feeds xs (deepfilter_chunk rn ort input e)
    unfolding deepfilter_chunk get_dry_mix
    deepfilter_chunk-feed input e = elim (Option-cases e.deepfilter) [
      | inl null ↦ rw null refl
      | inr (d, there) ↦ elim (Option-cases (DeepFilter.process_frame ort d input)) [
        | inl wrong ↦ rw (there, wrong) refl
        | inr ((ok, written, d'), ran) ↦ elim (Option-cases written) [
          | inl unwritten ↦ rw (there, ran, unwritten) refl
          | inr (df_output, whole) ↦ rw (there, ran, whole) refl
        ]
      ]
    ]

    denoise_frame-feed :
        (input : List F) (e : Engine F R S N)
        → denoise_frame rn ort input (feed xs e) ≡ feeds xs (denoise_frame rn ort input e)
    unfolding denoise_frame use_deepfilter
    denoise_frame-feed input e = elim (Bool-cases (use_deepfilter e)) [
      | inl on ↦ rw on (deepfilter_chunk-feed input e)
      | inr off ↦ rw off (rnnoise_chunk-feed input e)
    ]

    module _ (frames : KeepsFrames rn) (shapes : HasShapes ort) where
      timed_chunk-feed :
          (elapsed_ms : F) (input : List F) (e : Engine F R S N)
          → length input ≡ frame_size
          → frame_size ≤ length e.input_buffer
          → is_set e.rnnoise_state ≡ true
          → Each IsModel e.deepfilter
          → timed_chunk rn ort elapsed_ms input (feed xs e)
            ≡ (timed_chunk rn ort elapsed_ms input e >>= λ e'. some (feed xs e'))
      unfolding timed_chunk
      timed_chunk-feed elapsed_ms input e size whole set model =
          let d = denoise_frame-Denoises rn ort frames shapes input {e = e} size set model in
          let finish : Option (List F × Engine F R S N) → Option (Engine F R S N) =
            λ r. (do (out, e') ← r; some (put_frame out (update_overload elapsed_ms e'))) in
          let u = update_overload elapsed_ms d.next in
          let still : frame_size ≤ length u.input_buffer = omega (
            arith,
            whole,
            ap length (update_overload-input elapsed_ms d.next),
            ap length d.input,
          ) in
          let fed : put_frame d.out (update_overload elapsed_ms (feed xs d.next))
              ≡ feed xs (put_frame d.out u) =
            ap (put_frame d.out) (update_overload-feed elapsed_ms d.next)
            ∙ put_frame-feed d.out u still in
          ap finish (denoise_frame-feed input e ∙ ap (feeds xs) d.ran)
          ∙ ap some fed
          ∙ ap (λ r. do e' ← finish r; some (feed xs e')) (sym d.ran)

      -- A chunk that runs leaves the input fed to it where it is.
      pub process_mono_chunk-feed :
          (elapsed_ms : F) (e : Engine F R S N)
          → frame_size ≤ length e.input_buffer
          → is_set e.rnnoise_state ≡ true
          → Each IsModel e.deepfilter
          → process_mono_chunk rn ort elapsed_ms (feed xs e)
            ≡ (process_mono_chunk rn ort elapsed_ms e >>= λ e'. some (feed xs e'))
      unfolding process_mono_chunk
      process_mono_chunk-feed elapsed_ms e whole set model =
          let first = take frame_size e.input_buffer in
          let size : length first ≡ frame_size =
            omega (arith, length-take frame_size e.input_buffer) in
          let read : read_block frame_size (e.input_buffer ++ xs) ≡ some first =
            read_block-some frame_size (e.input_buffer ++ xs)
              (omega (arith, length-append e.input_buffer xs))
            ∙ ap some (take-append_le frame_size e.input_buffer xs whole) in
          rw (read, read_block-some frame_size e.input_buffer whole)
            (if-fed e.in_overload _ _ _
              (if-fed (ltb 0 e.overload_cooldown) _ _ _
                (ap some (
                  put_frame-feed first (record e { overload_cooldown = e.overload_cooldown - 1 })
                    whole))
                (timed_chunk-feed elapsed_ms first
                  (record e { in_overload = false; overload_count = 0 }) size whole set model))
              (timed_chunk-feed elapsed_ms first e size whole set model))
