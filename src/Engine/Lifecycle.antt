-- ===== src/Engine/Lifecycle.antt =====
-- Loading models, `init` and `shutdown` (engine/src/engine.cpp).
use noise_ai.Base.{Bool, true, false, not, if◌then◌else◌, Option, none, some, [], ◌∷◌}
use noise_ai.Float.{Float}
use noise_ai.DeepFilter
use noise_ai.DeepFilter.{DeepFilter, Ort, FilePath}
use noise_ai.Engine.{Engine, stopped, running, error, AudioFormat, has_deepfilter}
use noise_ai.Engine.Settings.{apply_attenuation_for_mode, reset_deepfilter}
use noise_ai.Engine.ModelPath.{find_model_path}

-- What the system answers: the executable's path, and which files open for reading.
pub record System : Type 0 where
  pub exe : Option FilePath
  pub exists : FilePath → Bool

unfoldable pub or_new :
    {F S N : Type 0} ⦃f : Float F⦄ → Option (DeepFilter F S N) → DeepFilter F S N
or_new none = DeepFilter.make
or_new (some d) = d

module _ {F R S N : Type 0} ⦃f : Float F⦄ (ort : Ort F S N) (sys : System) where
  -- `deepfilter_->load(model_path)` and, where that succeeds, the attenuation limit.
  unfoldable pub load_into : DeepFilter F S N → FilePath → Engine F R S N → Bool × Engine F R S N
  load_into d model_path e =
      let (ok, d') = DeepFilter.load ort model_path d in
      let e' : Engine F R S N = record e { deepfilter = some d' } in
      if ok then (true, apply_attenuation_for_mode e') else (false, e')

  -- `load_deepfilter_model()`: a new, empty engine takes the place of the one that was there.
  unfoldable pub load_default_model : Engine F R S N → Engine F R S N
  load_default_model e = elim (find_model_path sys.exe sys.exists) [
    | [] ↦ record e { deepfilter = some DeepFilter.make }
    | c ∷ path ↦ (load_into DeepFilter.make (c ∷ path) e).1
  ]

  -- `load_deepfilter_model(model_path)`.
  unfoldable pub load_deepfilter_model : FilePath → Engine F R S N → Bool × Engine F R S N
  load_deepfilter_model [] e = (false, e)
  load_deepfilter_model (c ∷ path) e =
      if sys.exists (c ∷ path) then load_into (or_new e.deepfilter) (c ∷ path) e else (false, e)

  -- `created` is what `rnnoise_create` returns.
  unfoldable pub init : Option R → AudioFormat → Engine F R S N → Bool × Engine F R S N
  init none format e =
      (false, record e { rnnoise_state = none; channels = format.channels; status = error })
  init (some state) format e =
      let opened : Engine F R S N = record e {
        rnnoise_state = some state;
        channels = format.channels;
      } in
      let ready : Engine F R S N =
        if not (has_deepfilter e.deepfilter)
        then load_default_model opened
        else record opened { deepfilter = reset_deepfilter e.deepfilter } in
      (
        true,
        record ready {
          input_buffer = [];
          output_buffer = [];
          output_read_pos = 0;
          output_started = false;
          debug_frame_count = 0;
          overload_count = 0;
          overload_cooldown = 0;
          in_overload = false;
          status = running;
        },
      )

module _ {F R S N : Type 0} ⦃f : Float F⦄ where
  unfoldable pub shutdown : Engine F R S N → Engine F R S N
  unfolding reset_deepfilter
  shutdown e = record e {
    rnnoise_state = none;
    deepfilter = reset_deepfilter e.deepfilter;
    input_buffer = [];
    output_buffer = [];
    output_read_pos = 0;
    output_started = false;
    overload_count = 0;
    overload_cooldown = 0;
    in_overload = false;
    status = stopped;
  }
