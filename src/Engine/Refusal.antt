-- ===== src/Engine/Refusal.antt =====
-- An engine that is not running: new, shut down, or after an `init` that failed.
use noise_ai.Base.{
  ℕ, ◌≡◌, refl, ap, ◌∙◌, Bool, false, not, Option, some, List, [], ◌∷◌, ◌>>=◌, if-both,
}
use noise_ai.Float.{Float}
use noise_ai.DeepFilter
use noise_ai.DeepFilter.{Ort, FilePath}
use noise_ai.Engine.{NoiseMode, Engine, same_mode, RnNoise, is_running}
use noise_ai.Engine.Settings.{
  set_mode, set_dry_mix, set_attenuation_limit, apply_attenuation_for_mode,
}
use noise_ai.Engine.Lifecycle.{System, shutdown, load_deepfilter_model, load_into, or_new}
use noise_ai.Engine.Process.{process_frame}
use noise_ai.Engine.Api.{
  Call, inits, shuts, sets_mode, sets_dry_mix, sets_attenuation, loads, processes, apply,
}
use noise_ai.Engine.Preserve.{process_frame_idle}

-- Calls of any public method but `init`.
abbrev pub WithoutInit : {F R : Type 0} → List (Call F R) → Type 0
WithoutInit [] = Unit {0}
WithoutInit (inits created sys format ∷ calls) = ⊥
WithoutInit (_ ∷ calls) = WithoutInit calls

module _ {F R S N : Type 0} ⦃f : Float F⦄ (rn : RnNoise F R) (ort : Ort F S N) where
  -- Calls, one after another.
  abbrev pub apply_all : List (Call F R) → Engine F R S N → Option (Engine F R S N)
  apply_all [] e = some e
  apply_all (c ∷ calls) e = do e' ← apply rn ort c e; apply_all calls e'

  load_into-status :
      (d : DeepFilter.DeepFilter F S N) (path : FilePath) (e : Engine F R S N) (sys : System)
      → (load_into ort sys d path e).1.status ≡ e.status
  unfolding load_into apply_attenuation_for_mode
  load_into-status d path e sys =
      if-both (λ (r : Bool × Engine F R S N). r.1.status ≡ e.status) (DeepFilter.load ort path d).0
        refl refl

  load-status :
      (sys : System) (path : FilePath) (e : Engine F R S N)
      → (load_deepfilter_model ort sys path e).1.status ≡ e.status
  unfolding load_deepfilter_model
  load-status sys [] e = refl
  load-status sys (c ∷ path) e =
      if-both (λ (r : Bool × Engine F R S N). r.1.status ≡ e.status) (sys.exists (c ∷ path))
        (load_into-status (or_new e.deepfilter) (c ∷ path) e sys) refl

  set_mode-status : (mode : NoiseMode) (e : Engine F R S N) → (set_mode mode e).status ≡ e.status
  unfolding set_mode apply_attenuation_for_mode
  set_mode-status mode e =
      if-both (λ (r : Engine F R S N). r.status ≡ e.status) (not (same_mode e.mode mode)) refl refl

  set_dry_mix-status : (mix : F) (e : Engine F R S N) → (set_dry_mix mix e).status ≡ e.status
  unfolding set_dry_mix
  set_dry_mix-status mix e = refl

  set_attenuation-status :
      (db : F) (e : Engine F R S N) → (set_attenuation_limit db e).status ≡ e.status
  unfolding set_attenuation_limit apply_attenuation_for_mode
  set_attenuation-status db e = refl

  shutdown-stops : (e : Engine F R S N) → is_running (shutdown e).status ≡ false
  unfolding shutdown is_running
  shutdown-stops e = refl

  -- On an engine that is not running: calls of public methods but `init`, in any number and with
  -- any arrays, have no undefined behaviour and do not start it; `process_frame` then returns
  -- false, and changes neither the caller's array nor the engine.
  pub idle_refuses :
      (calls : List (Call F R))
      → WithoutInit calls
      → (e : Engine F R S N) → is_running e.status ≡ false
      → (elapsed : ℕ → F) (input output : List F) (n : ℕ)
      → (last : Engine F R S N) × (apply_all calls e ≡ some last)
        × (is_running last.status ≡ false)
        × (process_frame rn ort elapsed input output n last ≡ some (false, output, last))
  unfolding apply
  idle_refuses [] ok e idle = λ elapsed input output n.
      (e, refl, idle, process_frame_idle rn ort elapsed input output n e idle)
  idle_refuses (inits created sys format ∷ calls) ok e idle = absurd ok
  idle_refuses (shuts ∷ calls) ok e idle = idle_refuses calls ok (shutdown e) (shutdown-stops e)
  idle_refuses (sets_mode mode ∷ calls) ok e idle =
      idle_refuses calls ok (set_mode mode e) (ap is_running (set_mode-status mode e) ∙ idle)
  idle_refuses (sets_dry_mix mix ∷ calls) ok e idle =
      idle_refuses calls ok (set_dry_mix mix e) (ap is_running (set_dry_mix-status mix e) ∙ idle)
  idle_refuses (sets_attenuation db ∷ calls) ok e idle =
      idle_refuses calls ok (set_attenuation_limit db e)
        (ap is_running (set_attenuation-status db e) ∙ idle)
  idle_refuses (loads sys path ∷ calls) ok e idle =
      idle_refuses calls ok (load_deepfilter_model ort sys path e).1
        (ap is_running (load-status sys path e) ∙ idle)
  idle_refuses (processes elapsed' input' output' n' ∷ calls) ok e idle =
      rw (process_frame_idle rn ort elapsed' input' output' n' e idle)
        (idle_refuses calls ok e idle)
