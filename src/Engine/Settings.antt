-- ===== src/Engine/Settings.antt =====
-- The settings of the engine: mode, dry mix and attenuation limit (engine/src/engine.cpp).
use noise_ai.Base.{Bool, false, not, if◌then◌else◌, Option, none, some, []}
use noise_ai.Float.{Float, nought}
use noise_ai.DeepFilter
use noise_ai.DeepFilter.{DeepFilter}
use noise_ai.Engine.{NoiseMode, balanced, max_quality, same_mode, Engine, EngineStatus}

module _ {F : Type 0} ⦃f : Float F⦄ where
  -- `0.02f`, `0.01f`, `0.0f`.
  unfoldable pub dry_mix_for_mode : NoiseMode → F
  dry_mix_for_mode balanced = f.lit 2 2
  dry_mix_for_mode max_quality = f.lit 1 2
  dry_mix_for_mode _ = f.lit 0 0

  -- An override of 0 or more counts; any other value means the default.
  unfoldable pub or_default : F → F → F
  or_default override default = if f.le nought override then override else default

module _ {F S N : Type 0} ⦃f : Float F⦄ where
  -- All modes use the same default.
  unfoldable pub apply_to : F → Option (DeepFilter F S N) → Option (DeepFilter F S N)
  apply_to atten none = none
  apply_to atten (some d) =
      if d.loaded then some (DeepFilter.set_attenuation_limit atten d) else some d

  unfoldable pub reset_deepfilter : Option (DeepFilter F S N) → Option (DeepFilter F S N)
  reset_deepfilter none = none
  reset_deepfilter (some d) = some (DeepFilter.reset_state d)

module _ {F R S N : Type 0} ⦃f : Float F⦄ where
  unfoldable pub get_mode : Engine F R S N → NoiseMode
  get_mode e = e.mode

  unfoldable pub get_status : Engine F R S N → EngineStatus
  get_status e = e.status

  unfoldable pub is_overloaded : Engine F R S N → Bool
  is_overloaded e = e.in_overload

  unfoldable pub get_dry_mix : Engine F R S N → F
  unfolding or_default
  get_dry_mix e = or_default e.dry_mix_override (dry_mix_for_mode e.mode)

  unfoldable pub get_attenuation_limit : Engine F R S N → F
  unfolding or_default
  get_attenuation_limit e = or_default e.atten_lim_override nought

  unfoldable pub set_dry_mix : F → Engine F R S N → Engine F R S N
  set_dry_mix mix e = record e { dry_mix_override = mix }

  unfoldable pub apply_attenuation_for_mode : Engine F R S N → Engine F R S N
  unfolding apply_to or_default
  apply_attenuation_for_mode e = record e {
    deepfilter = apply_to (or_default e.atten_lim_override nought) e.deepfilter;
  }

  unfoldable pub set_attenuation_limit : F → Engine F R S N → Engine F R S N
  unfolding apply_attenuation_for_mode
  set_attenuation_limit db e = apply_attenuation_for_mode (record e { atten_lim_override = db })

  unfoldable pub set_mode : NoiseMode → Engine F R S N → Engine F R S N
  unfolding same_mode apply_attenuation_for_mode reset_deepfilter
  set_mode mode e =
      if not (same_mode e.mode mode)
      then apply_attenuation_for_mode (record e {
        mode = mode;
        input_buffer = [];
        output_buffer = [];
        output_read_pos = 0;
        output_started = false;
        debug_frame_count = 0;
        deepfilter = reset_deepfilter e.deepfilter;
      })
      else e
