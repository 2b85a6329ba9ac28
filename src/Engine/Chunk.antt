-- ===== src/Engine/Chunk.antt =====
-- `process_mono_chunk` (engine/src/engine.cpp): one frame of the input buffer through the active
-- denoiser, or past it while the engine is overloaded.
use noise_ai.Base.{
  ℕ, ◌-◌, ltb, leb, Bool, true, false, not, ◌&&◌, if◌then◌else◌, Option, some, List, [], ◌∷◌, ◌++◌,
  map, drop, add32, ◌>>=◌,
}
use noise_ai.Float.{Float, nought, one}
use noise_ai.Frames.{frame_size, read_block}
use noise_ai.DeepFilter
use noise_ai.DeepFilter.{DeepFilter, Ort}
use noise_ai.Engine.{cpu_saver, same_mode, Engine, RnNoise, has_deepfilter}
use noise_ai.Engine.Settings.{get_dry_mix}

-- `OVERLOAD_TRIGGER_COUNT`, `OVERLOAD_COOLDOWN_FRAMES`, and `OVERLOAD_THRESHOLD_MS`.
unfoldable pub overload_trigger_count : ℕ
overload_trigger_count = 5

unfoldable pub overload_cooldown_frames : ℕ
overload_cooldown_frames = 100

module _ {F : Type 0} ⦃f : Float F⦄ where
  abbrev pub overload_threshold_ms : F
  overload_threshold_ms = f.lit 8 0

  -- `df_output[j] = wet * df_output[j] + dry * df_input[j]`, where `dry` is above 0.
  unfoldable pub blend : F → F → List F → List F → List F
  blend wet dry [] inputs = []
  blend wet dry (o ∷ outputs) [] = o ∷ outputs
  blend wet dry (o ∷ outputs) (i ∷ inputs) =
      f.add (f.mul wet o) (f.mul dry i) ∷ blend wet dry outputs inputs

  unfoldable pub mix : F → List F → List F → List F
  unfolding blend
  mix dry outputs inputs =
      if f.lt nought dry then blend (f.sub one dry) dry outputs inputs else outputs

  abbrev pub scale : F
  scale = f.lit 32768 0

module _ {F R S N : Type 0} ⦃f : Float F⦄ where
  unfoldable pub use_deepfilter : Engine F R S N → Bool
  unfolding same_mode has_deepfilter
  use_deepfilter e = not (same_mode e.mode cpu_saver) && has_deepfilter e.deepfilter

  -- Time measured, in milliseconds, against the threshold.
  unfoldable pub update_overload : F → Engine F R S N → Engine F R S N
  unfolding overload_trigger_count overload_cooldown_frames
  update_overload elapsed_ms e =
      if f.lt overload_threshold_ms elapsed_ms
      then (let count = add32 e.overload_count 1 in
          if leb overload_trigger_count count
          then record e {
            overload_count = count;
            in_overload = true;
            overload_cooldown = overload_cooldown_frames;
          }
          else record e { overload_count = count })
      else record e { overload_count = 0 }

  -- The first frame of the input buffer goes; `out` joins the output buffer.
  abbrev pub put_frame : List F → Engine F R S N → Engine F R S N
  put_frame out e = record e {
    output_buffer = e.output_buffer ++ out;
    input_buffer = drop frame_size e.input_buffer;
  }

  module _ (rn : RnNoise F R) (ort : Ort F S N) where
    -- `none`: the output of a frame that the session did not process is read uninitialised.
    unfoldable pub deepfilter_chunk : List F → Engine F R S N → Option (List F × Engine F R S N)
    unfolding mix
    deepfilter_chunk df_input e = do
      d ← e.deepfilter
      (ok, written, d') ← DeepFilter.process_frame ort d df_input
      df_output ← written
      some (
        mix (get_dry_mix e) df_output df_input,
        record e { deepfilter = some d'; debug_frame_count = add32 e.debug_frame_count 1 },
      )

    -- `none`: RNNoise is called with a null state.
    unfoldable pub rnnoise_chunk : List F → Engine F R S N → Option (List F × Engine F R S N)
    rnnoise_chunk input e = do
      state ← e.rnnoise_state
      let (rnn_output, state') = rn.denoise state (map (λ x. f.mul x scale) input)
      some (
        map (λ x. f.div x scale) rnn_output,
        record e { rnnoise_state = some state'; debug_frame_count = add32 e.debug_frame_count 1 },
      )

    unfoldable pub denoise_frame : List F → Engine F R S N → Option (List F × Engine F R S N)
    unfolding deepfilter_chunk rnnoise_chunk use_deepfilter
    denoise_frame input e =
        if use_deepfilter e then deepfilter_chunk input e else rnnoise_chunk input e

    -- Inference, with what the clock measures of it.
    unfoldable pub timed_chunk : F → List F → Engine F R S N → Option (Engine F R S N)
    unfolding denoise_frame update_overload
    timed_chunk elapsed_ms input e = do
      (out, e') ← denoise_frame input e
      some (put_frame out (update_overload elapsed_ms e'))

    -- `elapsed_ms` is what the clock measures, if inference runs.
    unfoldable pub process_mono_chunk : F → Engine F R S N → Option (Engine F R S N)
    unfolding timed_chunk
    process_mono_chunk elapsed_ms e = do
      input ← read_block frame_size e.input_buffer
      if e.in_overload
          then if ltb 0 e.overload_cooldown
            then some (put_frame input (record e { overload_cooldown = e.overload_cooldown - 1 }))
            else timed_chunk elapsed_ms input (record e { in_overload = false; overload_count = 0 })
          else timed_chunk elapsed_ms input e
