-- ===== src/Engine/Process.antt =====
-- `Engine::process_frame` (engine/src/engine.cpp): interleaved frames to mono, whole chunks
-- through the denoiser, and what is ready back to interleaved frames.
use noise_ai.Base.{
  ℕ, zero, suc, ◌+◌, ◌-◌, ◌*◌, ltb, leb, Bool, true, false, not, ◌&&◌, ◌||◌, if◌then◌else◌, Option,
  none, some, List, [], ◌∷◌, ◌++◌, length, drop, set, get_elem?, memcpy, mul32, add32, ◌>>=◌,
}
use noise_ai.Float.{Float, nought, clip}
use noise_ai.Frames.{frame_size, zeros}
use noise_ai.DeepFilter.{Ort}
use noise_ai.Engine.{Engine, RnNoise, is_running, is_set, has_deepfilter}
use noise_ai.Engine.Chunk.{process_mono_chunk}

-- `OUTPUT_PREFILL_SAMPLES`, which is also the amount consumed above which the output is
-- compacted.
unfoldable pub output_prefill_samples : ℕ
unfolding frame_size
output_prefill_samples = frame_size * 2

module _ {F : Type 0} ⦃f : Float F⦄ where
  -- `array[i] = v`; `none` is a write outside the array.
  abbrev pub store : List F → ℕ → F → Option (List F)
  store array i v = if ltb i (length array) then some (set array i v) else none

  module _ (channels : ℕ) where
    -- `mono_sample += input[i * channels_ + ch]`, for `n` channels from `ch` on.
    unfoldable pub add_channels : List F → ℕ → ℕ → ℕ → F → Option F
    add_channels input i zero ch mono_sample = some mono_sample
    add_channels input i (suc n) ch mono_sample = do
      x ← get_elem? input (add32 (mul32 i channels) ch)
      add_channels input i n (ch + 1) (f.add mono_sample x)

    -- The mono samples of `n` frames from the `i`th on.
    unfoldable pub to_mono : List F → ℕ → ℕ → Option (List F)
    unfolding add_channels
    to_mono input zero i = some []
    to_mono input (suc n) i = do
      mono_sample ← add_channels input i channels 0 nought
      rest ← to_mono input n (i + 1)
      some (f.div mono_sample (f.of_uint channels) ∷ rest)

    -- `output[i * channels_ + ch] = sample`, for `n` channels from `ch` on.
    unfoldable pub put_channels : F → ℕ → ℕ → ℕ → List F → Option (List F)
    put_channels sample i zero ch output = some output
    put_channels sample i (suc n) ch output = do
      output' ← store output (add32 (mul32 i channels) ch) sample
      put_channels sample i n (ch + 1) output'

    -- `n` samples of the output buffer from `read_pos + i` on, clipped, to every channel.
    unfoldable pub from_mono : List F → ℕ → ℕ → ℕ → List F → Option (List F)
    unfolding put_channels
    from_mono buffer read_pos zero i output = some output
    from_mono buffer read_pos (suc n) i output = do
      sample ← get_elem? buffer (read_pos + i)
      output' ← put_channels (clip sample) i channels 0 output
      from_mono buffer read_pos n (i + 1) output'

module _ {F R S N : Type 0} ⦃f : Float F⦄ where
  -- Consumed samples are erased once they are many. `none` would be an erasure past the end.
  unfoldable pub compact : Engine F R S N → Option (Engine F R S N)
  unfolding output_prefill_samples
  compact e =
      if ltb output_prefill_samples e.output_read_pos
      then if leb e.output_read_pos (length e.output_buffer)
        then some (record e {
          output_buffer = drop e.output_read_pos e.output_buffer;
          output_read_pos = 0;
        })
        else none
      else some e

  -- `output_.size() - output_read_pos_`.
  abbrev pub available : Engine F R S N → ℕ
  available e = length e.output_buffer - e.output_read_pos

  -- Step 3: what is ready, or silence. Returns what the caller's array then holds.
  unfoldable pub drain_output : ℕ → List F → Engine F R S N → Option (List F × Engine F R S N)
  drain_output num_frames output e =
      let started = e.output_started || leb output_prefill_samples (available e) in
      let begun : Engine F R S N = record e { output_started = started } in
      if started && leb num_frames (available e)
      then (do
        output' ← from_mono e.channels e.output_buffer e.output_read_pos num_frames 0 output
        e' ← compact (record begun { output_read_pos = e.output_read_pos + num_frames })
        some (output', e'))
      else (do
        output' ←
            memcpy output 0 (zeros (mul32 num_frames e.channels)) 0 (mul32 num_frames e.channels)
        some (output', begun))

  module _ (rn : RnNoise F R) (ort : Ort F S N) where
    -- Step 2: `while (input_buffer_.size() >= DENOISE_FRAME_SIZE)`, on fuel. `elapsed k` is what
    -- the clock measures of the `k`th chunk.
    unfoldable pub process_chunks : ℕ → (ℕ → F) → ℕ → Engine F R S N → Option (Engine F R S N)
    process_chunks zero elapsed k e = none
    process_chunks (suc fuel) elapsed k e =
        let rest =
          process_mono_chunk rn ort (elapsed k) e >>= process_chunks fuel elapsed (k + 1) in
        if leb frame_size (length e.input_buffer) then rest else some e

    -- The result, the caller's output array, and the next state. `none` is undefined behaviour;
    -- the fuel, one more than the input that is buffered, never runs out.
    unfoldable pub process_frame :
        (ℕ → F) → List F → List F → ℕ → Engine F R S N → Option (Bool × List F × Engine F R S N)
    process_frame elapsed input output num_frames e =
        if not (is_running e.status)
        then some (false, output, e)
        else if not (is_set e.rnnoise_state || has_deepfilter e.deepfilter)
        then (do
          output' ← memcpy output 0 input 0 (mul32 num_frames e.channels)
          some (true, output', e))
        else (do
          mono ← to_mono e.channels input num_frames 0
          let filled = record e { input_buffer = e.input_buffer ++ mono }
          e' ← process_chunks (suc (length filled.input_buffer)) elapsed 0 filled
          (output', e'') ← drain_output num_frames output e'
          some (true, output', e''))
