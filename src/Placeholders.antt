-- ===== src/Placeholders.antt =====
-- The parts of the engine that stand in for later ones: `InferenceEngine`
-- (engine/src/inference.cpp), `Resampler` (engine/src/resampler.cpp), `STFT`
-- (engine/src/stft.cpp), and the limiter (engine/src/post_process.cpp). Nothing in the program
-- calls them. `none` is an access outside an array.
pub mod Limiter
pub mod Passes
mod Tests
use noise_ai.Base.{
  ℕ, zero, suc, ◌+◌, Bool, true, false, not, if◌then◌else◌, Option, none, some, List, get_elem?,
  set, memcpy, ◌>>=◌,
}
use noise_ai.Float.{Float, std_clamp}
use noise_ai.Frames.{zeros}
use noise_ai.DeepFilter.{FilePath}

pub record InferenceEngine : Type 0 where
  pub loaded : Bool

abbrev pub make : InferenceEngine
make = record { loaded = false }

unfoldable pub load_model : FilePath → InferenceEngine → Bool × InferenceEngine
load_model model_path e = (true, record { loaded = true })

unfoldable pub is_loaded : InferenceEngine → Bool
is_loaded e = e.loaded

-- Whether it ran, and what the caller's array then holds.
unfoldable pub run : {F : Type 0} → List F → List F → ℕ → InferenceEngine → Option (Bool × List F)
run input output num_frames e =
    if not e.loaded
    then some (false, output)
    else do output' ← memcpy output 0 input 0 num_frames; some (true, output')

pub record Resampler : Type 0 where
  pub input_rate : ℕ
  pub output_rate : ℕ

-- The number of frames returned, and the array.
unfoldable pub process : {F : Type 0} → Resampler → List F → ℕ → List F → Option (ℕ × List F)
process r input input_frames output = do
  output' ← memcpy output 0 input 0 input_frames
  some (input_frames, output')

pub record Stft : Type 0 where
  pub fft_size : ℕ
  pub hop_size : ℕ

module _ {F : Type 0} ⦃f : Float F⦄ where
  unfoldable pub forward : Stft → List F → List F → List F → Option (List F × List F)
  forward s time_domain freq_real freq_imag = do
    real ← memcpy freq_real 0 (zeros s.fft_size) 0 s.fft_size
    imag ← memcpy freq_imag 0 (zeros s.fft_size) 0 s.fft_size
    some (real, imag)

  unfoldable pub inverse : Stft → List F → List F → List F → Option (List F)
  inverse s freq_real freq_imag time_domain = memcpy time_domain 0 (zeros s.fft_size) 0 s.fft_size

  -- `n` samples from the `i`th on.
  unfoldable pub limit : F → ℕ → ℕ → List F → Option (List F)
  limit threshold zero i audio = some audio
  limit threshold (suc n) i audio = do
    x ← get_elem? audio i
    limit threshold n (i + 1) (set audio i (std_clamp x (f.neg threshold) threshold))

  unfoldable pub apply_limiter : List F → ℕ → F → Option (List F)
  apply_limiter audio num_samples threshold = limit threshold num_samples 0 audio
