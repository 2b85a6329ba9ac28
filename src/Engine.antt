-- ===== src/Engine.antt =====
-- `Engine` (engine/include/noise/engine.h, engine/include/noise/types.h, engine/src/engine.cpp):
-- its state. The children have its operations, and what is proved of them.
pub mod Settings
pub mod ModelPath
pub mod Choice
pub mod Lifecycle
pub mod Chunk
pub mod Process
pub mod Valid
pub mod Heard
pub mod Denoise
pub mod Counters
pub mod Chunks
pub mod Loop
pub mod Feed
pub mod Partition
pub mod Interleave
pub mod Output
pub mod Answer
pub mod Limits
pub mod Cushion
pub mod Overload
pub mod Switch
pub mod Fallback
pub mod Api
pub mod Preserve
pub mod Reachable
pub mod Refusal
pub mod Tests
mod Trials
use noise_ai.Base.{ℕ, zero, suc, ◌==◌, ◌-◌, Bool, false, Option, none, List, []}
use noise_ai.Float.{Float, one}
use noise_ai.DeepFilter.{DeepFilter}

-- `enum class NoiseMode`. Its values are those of an `int`, which the bridge casts unchecked:
-- `other` is one that no enumerator names, as its bit pattern.
pub data NoiseMode : Type 0 where
  cpu_saver balanced max_quality : NoiseMode
  other : ℕ → NoiseMode

-- `static_cast<int>` of a mode, and back.
unfoldable pub mode_to_int : NoiseMode → ℕ
mode_to_int cpu_saver = 0
mode_to_int balanced = 1
mode_to_int max_quality = 2
mode_to_int (other k) = k

unfoldable pub mode_of_int : ℕ → NoiseMode
mode_of_int zero = cpu_saver
mode_of_int (suc zero) = balanced
mode_of_int (suc (suc zero)) = max_quality
mode_of_int (suc (suc (suc k))) = other (suc (suc (suc k)))

-- `==` on modes.
unfoldable pub same_mode : NoiseMode → NoiseMode → Bool
unfolding mode_to_int
same_mode a b = mode_to_int a == mode_to_int b

pub data EngineStatus : Type 0 where
  stopped running error : EngineStatus

unfoldable pub is_running : EngineStatus → Bool
is_running running = Bool.true
is_running _ = false

pub record AudioFormat : Type 0 where
  pub sample_rate : ℕ
  pub channels : ℕ
  pub frames_per_buffer : ℕ

-- Calls into the RNNoise library: a frame, denoised, and the next state. `R` stands for the
-- values of a `DenoiseState`. The voice probability that the call returns is only logged.
pub record RnNoise (F R : Type 0) : Type 0 where
  pub denoise : R → List F → List F × R

-- `F` stands for `float`, `R`, `S` and `N` for the states, sessions and names of the two
-- libraries. The integers are `uint32_t`; `output_read_pos` is a `size_t`.
pub record Engine (F R S N : Type 0) : Type 0 where
  pub mode : NoiseMode
  pub status : EngineStatus
  pub dry_mix_override : F
  pub atten_lim_override : F
  pub channels : ℕ
  -- `none` is a null pointer.
  pub rnnoise_state : Option R
  pub deepfilter : Option (DeepFilter F S N)
  pub input_buffer : List F
  pub output_buffer : List F
  pub output_read_pos : ℕ
  pub output_started : Bool
  pub debug_frame_count : ℕ
  pub overload_count : ℕ
  pub overload_cooldown : ℕ
  pub in_overload : Bool

module _ {F R S N : Type 0} ⦃f : Float F⦄ where
  pub make : Engine F R S N
  make = record {
    mode = balanced;
    status = stopped;
    dry_mix_override = f.neg one;
    atten_lim_override = f.neg one;
    channels = 2;
    rnnoise_state = none;
    deepfilter = none;
    input_buffer = [];
    output_buffer = [];
    output_read_pos = 0;
    output_started = false;
    debug_frame_count = 0;
    overload_count = 0;
    overload_cooldown = 0;
    in_overload = false;
  }

-- `deepfilter_ && deepfilter_->is_loaded()`.
unfoldable pub has_deepfilter : {F S N : Type 0} → Option (DeepFilter F S N) → Bool
has_deepfilter none = false
has_deepfilter (Option.some d) = d.loaded

-- Whether a pointer is set.
abbrev pub is_set : {R : Type 0} → Option R → Bool
is_set none = false
is_set (Option.some r) = Bool.true
