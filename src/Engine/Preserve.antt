-- ===== src/Engine/Preserve.antt =====
-- Each method keeps the engine well-formed.
use noise_ai.Base.{
  ℕ, ◌<◌, ◌≡◌, refl, ap, Bool, true, false, Bool-cases, inl, inr, not, Option, none, some, List, [],
  ◌∷◌, arith, if-both, if◌then◌else◌,
}
use noise_ai.Float.{Float, nought}
use noise_ai.Frames.{frame_size}
use noise_ai.DeepFilter.{DeepFilter, Ort, FilePath}
use noise_ai.DeepFilter
use noise_ai.DeepFilter.Laws.{
  IsModel, make-IsModel, reset_state-IsModel, set_attenuation_limit-IsModel, load-Loads,
}
use noise_ai.Engine.{
  NoiseMode, AudioFormat, Engine, RnNoise, is_running, is_set, has_deepfilter, same_mode, make,
}
use noise_ai.Engine.Settings.{
  set_dry_mix, set_attenuation_limit, set_mode, apply_attenuation_for_mode, apply_to,
  reset_deepfilter, or_default,
}
use noise_ai.Engine.ModelPath.{find_model_path}
use noise_ai.Engine.Lifecycle.{
  System, init, shutdown, load_deepfilter_model, load_default_model, load_into, or_new,
}
use noise_ai.Engine.Process.{process_frame}
use noise_ai.Engine.Valid.{Each, IsValid}

frame_size_pos : 0 < frame_size
unfolding frame_size
frame_size_pos = omega arith

module _ {F S N : Type 0} ⦃f : Float F⦄ where
  apply_to-Each :
      (db : F) (o : Option (DeepFilter F S N)) → Each IsModel o → Each IsModel (apply_to db o)
  unfolding apply_to
  apply_to-Each db none m = m
  apply_to-Each db (some d) m =
      if-both (Each IsModel) d.loaded (set_attenuation_limit-IsModel m db) m

  reset_deepfilter-Each :
      (o : Option (DeepFilter F S N)) → Each IsModel o → Each IsModel (reset_deepfilter o)
  unfolding reset_deepfilter
  reset_deepfilter-Each none m = m
  reset_deepfilter-Each (some d) m = reset_state-IsModel m

  or_new-IsModel : (o : Option (DeepFilter F S N)) → Each IsModel o → IsModel (or_new o)
  unfolding or_new
  or_new-IsModel none m = make-IsModel
  or_new-IsModel (some d) m = m

module _ {F R S N : Type 0} ⦃f : Float F⦄ where
  -- Only the model's invariant depends on the model.
  with_model :
      {e : Engine F R S N} (o : Option (DeepFilter F S N))
      → IsValid e
      → Each IsModel o
      → IsValid (record e { deepfilter = o })
  with_model o v m = record {
    position = v.position;
    waiting = v.waiting;
    denoiser = v.denoiser;
    model = m;
    cooldown = v.cooldown;
  }

  pub make-IsValid : IsValid (make {F = F} {R = R} {S = S} {N = N})
  unfolding make is_running
  make-IsValid = record {
    position = omega arith;
    waiting = omega (arith, frame_size_pos);
    denoiser = λ e. cc;
    model = tt;
    cooldown = omega arith;
  }

  pub shutdown-IsValid : {e : Engine F R S N} → IsValid e → IsValid (shutdown e)
  unfolding shutdown is_running
  shutdown-IsValid {e} v = record {
    position = omega arith;
    waiting = omega (arith, frame_size_pos);
    denoiser = λ e. cc;
    model = reset_deepfilter-Each e.deepfilter v.model;
    cooldown = omega arith;
  }

  pub set_mode-IsValid :
      (mode : NoiseMode) {e : Engine F R S N} → IsValid e → IsValid (set_mode mode e)
  unfolding set_mode
  set_mode-IsValid mode {e} v = elim (Bool-cases (not (same_mode e.mode mode))) [
    | inl changes ↦ rw changes (record {
      position = omega arith;
      waiting = omega (arith, frame_size_pos);
      denoiser = v.denoiser;
      model =
          apply_to-Each (or_default e.atten_lim_override nought) (reset_deepfilter e.deepfilter)
            (reset_deepfilter-Each e.deepfilter v.model);
      cooldown = v.cooldown;
    })
    | inr same ↦ rw same v
  ]

  pub set_attenuation_limit-IsValid :
      (db : F) {e : Engine F R S N} → IsValid e → IsValid (set_attenuation_limit db e)
  unfolding set_attenuation_limit
  set_attenuation_limit-IsValid db {e} v = record {
    position = v.position;
    waiting = v.waiting;
    denoiser = v.denoiser;
    model = apply_to-Each (or_default db nought) e.deepfilter v.model;
    cooldown = v.cooldown;
  }

  pub set_dry_mix-IsValid : (mix : F) {e : Engine F R S N} → IsValid e → IsValid (set_dry_mix mix e)
  unfolding set_dry_mix
  set_dry_mix-IsValid mix v = record {
    position = v.position;
    waiting = v.waiting;
    denoiser = v.denoiser;
    model = v.model;
    cooldown = v.cooldown;
  }

  -- An engine that is not running does nothing, and leaves the caller's array alone.
  pub process_frame_idle :
      (rn : RnNoise F R) (ort : Ort F S N) (elapsed : ℕ → F) (input output : List F) (n : ℕ)
      (e : Engine F R S N)
      → is_running e.status ≡ false
      → process_frame rn ort elapsed input output n e ≡ some (false, output, e)
  unfolding process_frame
  process_frame_idle rn ort elapsed input output n e idle = rw idle

  module _ (ort : Ort F S N) (sys : System) where
    load_into-IsValid :
        {d : DeepFilter F S N} (path : FilePath) {e : Engine F R S N}
        → IsModel d
        → IsValid e
        → IsValid (load_into ort sys d path e).1
    unfolding load_into apply_attenuation_for_mode
    load_into-IsValid {d} path {e} m v =
        let (ok, d') = DeepFilter.load ort path d in
        let m' : IsModel (DeepFilter.load ort path d).1 = (load-Loads ort path m).model in
        if-both (λ (r : Bool × Engine F R S N). IsValid r.1) (DeepFilter.load ort path d).0
          (with_model _ v (
            apply_to-Each (or_default e.atten_lim_override nought)
              (some (DeepFilter.load ort path d).1) m'))
          (with_model (some (DeepFilter.load ort path d).1) v m')

    load_default_model-rnnoise :
        (e : Engine F R S N) → (load_default_model ort sys e).rnnoise_state ≡ e.rnnoise_state
    unfolding load_default_model load_into apply_attenuation_for_mode
    load_default_model-rnnoise e = go (find_model_path sys.exe sys.exists)
      where
        go :
            (path : FilePath)
            → (elim path as (λ p. Engine F R S N) [
              | [] ↦ record e { deepfilter = some DeepFilter.make }
              | c ∷ path ↦ (load_into ort sys DeepFilter.make (c ∷ path) e).1
            ]).rnnoise_state
              ≡ e.rnnoise_state
        go [] = refl
        go (c ∷ path) =
            if-both (λ (r : Bool × Engine F R S N). r.1.rnnoise_state ≡ e.rnnoise_state)
              (DeepFilter.load ort (c ∷ path) DeepFilter.make).0 refl refl

    load_default_model-IsValid :
        {e : Engine F R S N} → IsValid e → IsValid (load_default_model ort sys e)
    unfolding load_default_model
    load_default_model-IsValid {e} v = go (find_model_path sys.exe sys.exists)
      where
        go :
            (path : FilePath)
            → IsValid (elim path [
              | [] ↦ record e { deepfilter = some DeepFilter.make }
              | c ∷ path ↦ (load_into ort sys DeepFilter.make (c ∷ path) e).1
            ])
        go [] = with_model (some DeepFilter.make) v make-IsModel
        go (c ∷ path) = load_into-IsValid (c ∷ path) make-IsModel v

    pub load_deepfilter_model-IsValid :
        (path : FilePath) {e : Engine F R S N}
        → IsValid e
        → IsValid (load_deepfilter_model ort sys path e).1
    unfolding load_deepfilter_model
    load_deepfilter_model-IsValid [] v = v
    load_deepfilter_model-IsValid (c ∷ path) {e} v =
        if-both (λ (r : Bool × Engine F R S N). IsValid r.1) (sys.exists (c ∷ path))
          (load_into-IsValid (c ∷ path) (or_new-IsModel e.deepfilter v.model) v) v

    pub init-IsValid :
        (created : Option R) (format : AudioFormat) {e : Engine F R S N}
        → IsValid e
        → IsValid (init ort sys created format e).1
    unfolding init is_running
    init-IsValid none format v = record {
      position = v.position;
      waiting = v.waiting;
      denoiser = λ e. cc;
      model = v.model;
      cooldown = v.cooldown;
    }
    init-IsValid (some state) format {e} v = record {
      position = omega arith;
      waiting = omega (arith, frame_size_pos);
      denoiser = λ _. ready.0;
      model = ready.1;
      cooldown = omega arith;
    }
      where
        opened : Engine F R S N
        opened = record e { rnnoise_state = some state; channels = format.channels }

        opened-IsValid : IsValid opened
        opened-IsValid = record {
          position = v.position;
          waiting = v.waiting;
          denoiser = λ _. refl;
          model = v.model;
          cooldown = v.cooldown;
        }

        ready :
            let x =
              if not (has_deepfilter e.deepfilter)
              then load_default_model ort sys opened
              else record opened { deepfilter = reset_deepfilter e.deepfilter } in
            (is_set x.rnnoise_state ≡ true) × Each IsModel x.deepfilter
        ready =
            if-both
              (λ (x : Engine F R S N). (is_set x.rnnoise_state ≡ true) × Each IsModel x.deepfilter)
              (not (has_deepfilter e.deepfilter))
              (
                ap is_set (load_default_model-rnnoise opened),
                (load_default_model-IsValid opened-IsValid).model,
              )
              (refl, reset_deepfilter-Each e.deepfilter v.model)
