-- ===== src/Engine/Reachable.antt =====
-- Every engine that calls can lead to is well-formed, and no call on it has undefined behaviour.
use mathlib.Core.Path.{subst}
use mathlib.Core.Option.{some-injective}
use noise_ai.Base.{◌≡◌, refl, sym, ◌∙◌, Bool-cases, inl, inr, some}
use noise_ai.Float.{Float}
use noise_ai.DeepFilter.{Ort}
use noise_ai.DeepFilter.Laws.{HasShapes}
use noise_ai.Engine.{Engine, RnNoise, is_running}
use noise_ai.Engine.Valid.{IsValid, KeepsFrames}
use noise_ai.Engine.Answer.{process_frame-Answers}
use noise_ai.Engine.Api.{
  Call, inits, shuts, sets_mode, sets_dry_mix, sets_attenuation, loads, processes, IsCall, apply,
  Reach, fresh, next,
}
use noise_ai.Engine.Api
use noise_ai.Engine.Preserve.{
  make-IsValid, shutdown-IsValid, set_mode-IsValid, set_attenuation_limit-IsValid,
  set_dry_mix-IsValid, load_deepfilter_model-IsValid, init-IsValid, process_frame_idle,
}

module _ {F R S N : Type 0} ⦃f : Float F⦄ where
  -- With libraries that return whole frames: a call of any public method on a well-formed engine,
  -- with arrays of the sizes that it names, has no undefined behaviour and leaves a well-formed
  -- engine.
  pub apply-IsValid :
      (rn : RnNoise F R) (ort : Ort F S N)
      → KeepsFrames rn
      → HasShapes ort
      → (c : Call F R) {e : Engine F R S N} → IsValid e
      → IsCall c e
      → (next : Engine F R S N) × (apply rn ort c e ≡ some next) × IsValid next
  unfolding apply
  apply-IsValid rn ort frames shapes (inits created sys format) v ok =
      (_, refl, init-IsValid ort sys created format v)
  apply-IsValid rn ort frames shapes shuts v ok = (_, refl, shutdown-IsValid v)
  apply-IsValid rn ort frames shapes (sets_mode mode) v ok = (_, refl, set_mode-IsValid mode v)
  apply-IsValid rn ort frames shapes (sets_dry_mix mix) v ok = (_, refl, set_dry_mix-IsValid mix v)
  apply-IsValid rn ort frames shapes (sets_attenuation db) v ok =
      (_, refl, set_attenuation_limit-IsValid db v)
  apply-IsValid rn ort frames shapes (loads sys path) v ok =
      (_, refl, load_deepfilter_model-IsValid ort sys path v)
  apply-IsValid rn ort frames shapes (processes elapsed input output n) {e} v ok =
      elim (Bool-cases (is_running e.status)) [
        | inl run ↦
            let a =
              process_frame-Answers rn ort frames shapes elapsed input output n {e = e} v run ok.0
                ok.1 ok.2 ok.3 in
            (a.next, rw a.ran, a.valid)
        | inr idle ↦ (e, rw (process_frame_idle rn ort elapsed input output n e idle), v)
      ]

  -- With libraries that return whole frames: every engine that calls of public methods, with
  -- arrays of the sizes that they name, lead to from a new engine is well-formed.
  pub Reach-IsValid :
      (rn : RnNoise F R) (ort : Ort F S N)
      → KeepsFrames rn
      → HasShapes ort
      → {e : Engine F R S N} → Api.Reach rn ort e
      → IsValid e
  Reach-IsValid rn ort frames shapes fresh = make-IsValid
  Reach-IsValid rn ort frames shapes {e = last} (next c r ok ran) =
      let (e', ran', v) =
        apply-IsValid rn ort frames shapes c (Reach-IsValid rn ort frames shapes r) ok in
      let same : e' ≡ last = some-injective _ _ (sym ran' ∙ ran) in subst IsValid same v
