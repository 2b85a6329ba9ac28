-- ===== src/Engine/Api.antt =====
-- The engine's public methods as calls, and histories of calls.
use noise_ai.Base.{ℕ, ◌*◌, ◌≤◌, ◌<◌, ◌≡◌, Option, some, List, length, u32, ◌>>=◌}
use noise_ai.Float.{Float}
use noise_ai.DeepFilter.{Ort, FilePath}
use noise_ai.Engine.{NoiseMode, AudioFormat, Engine, RnNoise, make}
use noise_ai.Engine.Settings.{set_dry_mix, set_attenuation_limit, set_mode}
use noise_ai.Engine.Lifecycle.{System, init, shutdown, load_deepfilter_model}
use noise_ai.Engine.Process.{process_frame}

-- A call, with what the system answers in it: RNNoise's new state, files, the clock.
pub data Call (F R : Type 0) : Type 0 where
  inits : Option R → System → AudioFormat → Call F R
  shuts : Call F R
  sets_mode : NoiseMode → Call F R
  sets_dry_mix : F → Call F R
  sets_attenuation : F → Call F R
  loads : System → FilePath → Call F R
  -- Clock, input, output, and the number of frames.
  processes : (ℕ → F) → List F → List F → ℕ → Call F R

module _ {F R S N : Type 0} ⦃f : Float F⦄ where
  -- The caller's arrays hold the frames that the call names, and are below 2^32 samples.
  abbrev pub IsCall : Call F R → Engine F R S N → Type 0
  IsCall (processes elapsed input output n) e =
      (n * e.channels ≤ length input)
      × (length input < u32)
      × (n * e.channels ≤ length output)
      × (length output < u32)
  IsCall _ e = Unit {0}

  module _ (rn : RnNoise F R) (ort : Ort F S N) where
    unfoldable pub apply : Call F R → Engine F R S N → Option (Engine F R S N)
    apply (inits created sys format) e = some (init ort sys created format e).1
    apply shuts e = some (shutdown e)
    apply (sets_mode mode) e = some (set_mode mode e)
    apply (sets_dry_mix mix) e = some (set_dry_mix mix e)
    apply (sets_attenuation db) e = some (set_attenuation_limit db e)
    apply (loads sys path) e = some (load_deepfilter_model ort sys path e).1
    apply (processes elapsed input output n) e =
        process_frame rn ort elapsed input output n e >>= λ (ok, out, e'). some e'

    -- The engines that calls lead to from a new one.
    pub data Reach : Engine F R S N → Type 0 where
      fresh : Reach make
      next :
          {e e' : Engine F R S N} (c : Call F R)
          → Reach e
          → IsCall c e
          → apply c e ≡ some e'
          → Reach e'
