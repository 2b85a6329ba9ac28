-- ===== src/Bridge/Modes.antt =====
-- The settings through the C interface.
use noise_ai.Base.{ℕ, zero, suc, ◌==◌, ◌≡◌, refl, ◌∙◌, Bool-cases, inl, inr, some, arith}
use noise_ai.Float.{Float}
use noise_ai.Engine.{Engine, NoiseMode, mode_to_int, mode_of_int, same_mode}
use noise_ai.Engine.Settings.{get_mode, set_mode, apply_attenuation_for_mode}
use noise_ai.Bridge.{Context, noise_engine_set_mode, noise_engine_get_mode}

-- Every `int` is a mode.
mode_to_int-mode_of_int : (k : ℕ) → mode_to_int (mode_of_int k) ≡ k
unfolding mode_to_int mode_of_int
mode_to_int-mode_of_int zero = refl
mode_to_int-mode_of_int (suc zero) = refl
mode_to_int-mode_of_int (suc (suc zero)) = refl
mode_to_int-mode_of_int (suc (suc (suc k))) = refl

module _ {F R S N : Type 0} ⦃f : Float F⦄ where
  get_mode-set_mode :
      (mode : NoiseMode) (e : Engine F R S N)
      → mode_to_int (get_mode (set_mode mode e)) ≡ mode_to_int mode
  unfolding get_mode set_mode same_mode apply_attenuation_for_mode
  get_mode-set_mode mode e = elim (Bool-cases (mode_to_int e.mode == mode_to_int mode)) [
    | inl same ↦ rw same (ground arith)
    | inr apart ↦ rw apart
  ]

  -- On a context, the mode that is read is the `int` that was set, whatever was set before, also
  -- one that names no mode.
  pub noise_engine_get_mode-noise_engine_set_mode :
      (k : ℕ) (ctx : Context F R S N)
      → noise_engine_get_mode (noise_engine_set_mode k (some ctx)) ≡ k
  unfolding noise_engine_get_mode noise_engine_set_mode
  noise_engine_get_mode-noise_engine_set_mode k ctx =
      get_mode-set_mode (mode_of_int k) ctx.engine ∙ mode_to_int-mode_of_int k
