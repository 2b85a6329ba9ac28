-- ===== src/Engine/Heard.antt =====
-- What the frames of `process_mono_chunk` (engine/src/engine.cpp) are to become, told without the
-- engine's buffers: through which denoiser a frame goes, with what result, and what it leaves.
use mathlib.Core.List.{zip_with}
use noise_ai.Base.{
  ℕ, ◌+◌, ◌-◌, ◌≤◌, ◌<◌, ◌≡◌, Bool, true, false, not, ◌&&◌, if◌then◌else◌, leb, Option, some, List,
  [], ◌++◌, map, length, take, drop, add32,
}
use noise_ai.Float.{Float, nought, one}
use noise_ai.Frames.{frame_size}
use noise_ai.DeepFilter.{DeepFilter, Ort}
use noise_ai.DeepFilter.Laws.{Enhances}
use noise_ai.Engine.{NoiseMode, cpu_saver, same_mode, Engine, RnNoise, has_deepfilter}
use noise_ai.Engine.Settings.{or_default, dry_mix_for_mode}

-- What denoising reads and changes of an engine.
pub record Voice (F R S N : Type 0) : Type 0 where
  pub mode : NoiseMode
  pub dry_mix : F
  pub rnnoise : Option R
  pub model : Option (DeepFilter F S N)
  pub count : ℕ
  pub cooldown : ℕ
  pub passing : Bool

module _ {F R S N : Type 0} where
  abbrev pub voice : Engine F R S N → Voice F R S N
  voice e = record {
    mode = e.mode;
    dry_mix = e.dry_mix_override;
    rnnoise = e.rnnoise_state;
    model = e.deepfilter;
    count = e.overload_count;
    cooldown = e.overload_cooldown;
    passing = e.in_overload;
  }

  -- A loaded model denoises in every mode but the first.
  unfoldable pub uses_model : Voice F R S N → Bool
  unfolding same_mode has_deepfilter
  uses_model v = not (same_mode v.mode cpu_saver) && has_deepfilter v.model

  -- Slow frames in a row are counted, modulo 2^32; from the fifth on they pass 100 frames
  -- through.
  abbrev pub counted : Bool → Voice F R S N → Voice F R S N
  counted false v = record v { count = 0 }
  counted true v =
      let k = add32 v.count 1 in
      if leb 5 k
      then record v { count = k; cooldown = 100; passing = true }
      else record v { count = k }

module _ {F : Type 0} ⦃f : Float F⦄ where
  abbrev pub mixed : F → List F → List F → List F
  mixed dry outputs inputs =
      if f.lt nought dry
      then zip_with (λ o i. f.add (f.mul (f.sub one dry) o) (f.mul dry i)) outputs inputs
      else outputs

  -- Samples between -1 and 1 to those of 16 bits, and back.
  abbrev pub up : F → F
  up x = f.mul x (f.lit 32768 0)

  abbrev pub down : F → F
  down x = f.div x (f.lit 32768 0)

module _ {F R S N : Type 0} ⦃f : Float F⦄ where
  -- The share of the input that stays in the output.
  abbrev pub dry_share : Voice F R S N → F
  dry_share v = or_default v.dry_mix (dry_mix_for_mode v.mode)

  module _ (rn : RnNoise F R) (ort : Ort F S N) where
    -- A frame through the denoiser that the mode and the model choose.
    pub data Denoised (input : List F) (v : Voice F R S N) : List F → Voice F R S N → Type 0 where
      by_rnnoise :
          {r : R}
          → uses_model v ≡ false
          → v.rnnoise ≡ some r
          → Denoised input v
              (map down (rn.denoise r (map up input)).0)
              (record v { rnnoise = some (rn.denoise r (map up input)).1 })
      by_model :
          {d d' : DeepFilter F S N} {s : S} {ok : Bool} {enhanced : List F}
          → uses_model v ≡ true
          → v.model ≡ some d
          → d.session ≡ some s
          → Enhances ort s d input ok enhanced d'
          → Denoised input v (mixed (dry_share v) enhanced input) (record v { model = some d' })

    -- A frame in or out of overload: it passes while the cooldown lasts.
    pub data Framed (slow : Bool) (input : List F) (v : Voice F R S N)
        : List F → Voice F R S N → Type 0 where
      passes :
          v.passing ≡ true
          → 0 < v.cooldown
          → Framed slow input v input (record v { cooldown = v.cooldown - 1 })
      recovers :
          {out : List F} {v' : Voice F R S N}
          → v.passing ≡ true
          → v.cooldown ≡ 0
          → Denoised input (record v { passing = false; count = 0 }) out v'
          → Framed slow input v out (counted slow v')
      runs :
          {out : List F} {v' : Voice F R S N}
          → v.passing ≡ false
          → Denoised input v out v'
          → Framed slow input v out (counted slow v')

    -- The whole frames of the samples that wait, in order, and the samples left of them. A frame
    -- is slow if it takes more than 8 milliseconds; `elapsed k` is what the clock says of frame
    -- `k`.
    pub data Frames (elapsed : ℕ → F)
        : ℕ → Voice F R S N → List F → List F → List F → Voice F R S N → Type 0 where
      waits :
          {k : ℕ} {v : Voice F R S N} {samples : List F}
          → length samples < frame_size
          → Frames elapsed k v samples [] samples v
      frame :
          {k : ℕ} {v v' v'' : Voice F R S N} {samples out rest left : List F}
          → frame_size ≤ length samples
          → Framed (f.lt (f.lit 8 0) (elapsed k)) (take frame_size samples) v out v'
          → Frames elapsed (k + 1) v' (drop frame_size samples) rest left v''
          → Frames elapsed k v samples (out ++ rest) left v''
