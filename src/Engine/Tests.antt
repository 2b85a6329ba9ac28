-- ===== src/Engine/Tests.antt =====
-- The engine at a concrete input: two channels, blocks of one frame of the denoiser, samples in
-- hundredths, an RNNoise that halves, and a session that returns silence of the model's sizes.
mod Overloads
mod Models
use mathlib.Core.Option.{some-injective}
use noise_ai.Base.{
  length-map, ℕ, ◌+◌, ◌≡◌, refl, sym, ◌∙◌, true, false, none, some, List, [], ◌∷◌, ◌++◌, arith,
  length, map, replicate, length-replicate, length-drop, Bool,
}
use noise_ai.Float.{one, clip}
use noise_ai.Float.Order.{IsWithin, clip-IsWithin}
use noise_ai.Float.Fixed.{ℤ, pos, fixed, Fixed-IsOrdered}
use noise_ai.Frames.{frame_size, zeros, length-zeros}
use noise_ai.DeepFilter.{DeepFilter, Ort, state_size}
use noise_ai.DeepFilter
use noise_ai.DeepFilter.Laws.{
  IsModel, HasShapes, make-IsModel, Loads, load-Loads, process_frame_lem,
}
use noise_ai.Engine.{Engine, RnNoise, is_running, running, balanced, make, AudioFormat, max_quality}
use noise_ai.Engine.Settings.{set_mode}
use noise_ai.Engine.Lifecycle.{System, init}
use noise_ai.Engine.Chunk.{process_mono_chunk, overload_threshold_ms}
use noise_ai.Engine.Process.{process_frame, to_mono, from_mono}
use noise_ai.Engine.Valid.{IsValid, KeepsFrames}
use noise_ai.Engine.Output.{render}
use noise_ai.Engine.Interleave.{means, spread, to_mono-means, from_mono-spread}
use noise_ai.Engine.Answer.{Answers, process_frame-Answers}
use noise_ai.Engine.Cushion.{IsCushioned, no_underrun, process_frame-IsCushioned}
use noise_ai.Engine.Api.{processes, inits, sets_mode, apply, Reach, fresh, next}
use noise_ai.Engine.Reachable.{apply-IsValid, Reach-IsValid}
use noise_ai.Engine.Overload.{run_chunks, passed, overload_passes}
use noise_ai.Engine.Fallback.{run_chunks_falls_back}
use noise_ai.Engine.Switch.{switch, step, process_mono_chunk-step}

abbrev pub halving : RnNoise ℤ ℕ
halving = record { denoise = λ calls xs. (map (λ x. fixed.div x (pos 200)) xs, calls + 1) }

abbrev pub silent : Ort ℤ ℕ ℕ
silent = record {
  open_session = λ path. some (length path);
  input_count = λ s. some 3;
  describe_input = λ s i. some i;
  output_count = λ s. some 2;
  describe_output = λ s i. some i;
  run_session = λ s inputs tensors outputs. some (zeros frame_size ∷ zeros state_size ∷ []);
}

pub halving-KeepsFrames : KeepsFrames halving
halving-KeepsFrames r xs size = length-map (λ x. fixed.div x (pos 200)) xs ∙ size

pub silent-HasShapes : HasShapes silent
silent-HasShapes s inputs tensors outputs ts ran = (
  zeros frame_size,
  zeros state_size,
  [],
  sym (some-injective _ _ ran),
  omega (arith, length-zeros ℤ frame_size),
  omega (arith, length-zeros ℤ state_size),
)

-- What a new engine is after `init`, without a model.
abbrev pub begun : Engine ℤ ℕ ℕ ℕ
begun = record {
  mode = balanced;
  status = running;
  dry_mix_override = fixed.neg (pos 100);
  atten_lim_override = fixed.neg (pos 100);
  channels = 2;
  rnnoise_state = some 0;
  deepfilter = none;
  input_buffer = [];
  output_buffer = [];
  output_read_pos = 0;
  output_started = false;
  debug_frame_count = 0;
  overload_count = 0;
  overload_cooldown = 0;
  in_overload = false;
}

abbrev block : List ℤ
block = replicate 960 (pos 50)

abbrev pub quiet : ℕ → ℤ
quiet k = pos 100

pub begun-IsValid : IsValid begun
unfolding is_running frame_size
begun-IsValid = record {
  position = omega arith;
  waiting = omega arith;
  denoiser = λ run. refl;
  model = tt;
  cooldown = omega arith;
}

block_size : length block ≡ 960
block_size = length-replicate 960 (pos 50)

process_frame-Answers_example :
    Answers halving silent quiet block begun 480 block
      (process_frame halving silent quiet block block 480 begun)
unfolding is_running
process_frame-Answers_example =
    process_frame-Answers halving silent halving-KeepsFrames silent-HasShapes quiet block block 480
      begun-IsValid refl (omega (arith, block_size)) (omega (arith, block_size))
      (omega (arith, block_size)) (omega (arith, block_size))

-- An engine whose output has started, with more than a frame queued behind what was read.
abbrev flowing : Engine ℤ ℕ ℕ ℕ
flowing = record begun {
  output_buffer = replicate 700 (pos 10);
  output_read_pos = 20;
  output_started = true;
}

flowing_size : length flowing.output_buffer ≡ 700
flowing_size = length-replicate 700 (pos 10)

flowing-IsValid : IsValid flowing
unfolding is_running frame_size
flowing-IsValid = record {
  position = omega (arith, flowing_size);
  waiting = omega arith;
  denoiser = λ run. refl;
  model = tt;
  cooldown = omega arith;
}

flowing-IsCushioned : IsCushioned flowing
unfolding frame_size
flowing-IsCushioned on =
    omega (arith, flowing_size, length-drop flowing.output_read_pos flowing.output_buffer)

no_underrun_example :
    (samples : List ℤ) × (next : Engine ℤ ℕ ℕ ℕ) × (process_frame halving silent quiet block block
        480 flowing
      ≡ some (true, render 2 480 block (some samples), next))
    × (length samples ≡ 480)
    × (next.output_started ≡ true)
    × IsCushioned next
    × IsValid next
unfolding is_running
no_underrun_example =
    no_underrun halving silent halving-KeepsFrames silent-HasShapes quiet block block 480
      flowing-IsValid refl (omega (arith, block_size)) (omega (arith, block_size))
      (omega (arith, block_size)) (omega (arith, block_size)) refl flowing-IsCushioned

process_frame-IsCushioned_example :
    (output' : List ℤ) × (next : Engine ℤ ℕ ℕ ℕ) × (process_frame halving silent quiet block block
        480 begun
      ≡ some (true, output', next))
    × IsCushioned next
    × IsValid next
unfolding is_running frame_size
process_frame-IsCushioned_example =
    process_frame-IsCushioned halving silent halving-KeepsFrames silent-HasShapes quiet block block
      480 begun-IsValid refl (omega (arith, block_size)) (omega (arith, block_size))
      (omega (arith, block_size)) (omega (arith, block_size)) (omega arith) (λ on. cc)

apply-IsValid_example :
    (next : Engine ℤ ℕ ℕ ℕ) × (apply halving silent (processes quiet block block 480) begun
      ≡ some next)
    × IsValid next
apply-IsValid_example =
    apply-IsValid halving silent halving-KeepsFrames silent-HasShapes
      (processes quiet block block 480) begun-IsValid
      (
        omega (arith, block_size),
        omega (arith, block_size),
        omega (arith, block_size),
        omega (arith, block_size),
      )

-- No model file, and stereo at 48 kHz.
abbrev bare : System
bare = record { exe = none; exists = λ path. false }

abbrev stereo : AudioFormat
stereo = record { sample_rate = 48000; channels = 2; frames_per_buffer = 480 }

-- A new engine, initialised and then set to another mode.
abbrev started : Engine ℤ ℕ ℕ ℕ
started = set_mode max_quality (init silent bare (some 0) stereo make).1

started-Reach : Reach halving silent started
unfolding apply
started-Reach =
    next (sets_mode max_quality) (next (inits (some 0) bare stereo) fresh tt refl) tt refl

Reach-IsValid_example : IsValid started
Reach-IsValid_example =
    Reach-IsValid halving silent halving-KeepsFrames silent-HasShapes started-Reach
