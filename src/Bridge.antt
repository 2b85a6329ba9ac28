-- ===== src/Bridge.antt =====
-- The C interface that the app calls (bridge/include/noise_bridge.h,
-- bridge/src/noise_bridge.cpp): a handle is a null pointer, `none`, or a context of an engine and
-- the producer's end of the shared ring buffer. A call that changes a context returns the next
-- one; logging is left out. What opening the shared memory returns is an argument here; Segment
-- has the calls that open it, over POSIX.
pub mod Writes
pub mod Modes
pub mod Segment
mod Tests
use noise_ai.Base.{
  ℕ, ◌-◌, ◌*◌, ltb, not, if◌then◌else◌, Bool, true, false, Option, none, some, List, ◌++◌, ◌>>=◌,
  length, mul32,
}
use noise_ai.Float.{Float, nought}
use noise_ai.Frames.{zeros}
use noise_ai.DeepFilter.{Ort, FilePath}
use noise_ai.Shared
use noise_ai.Shared.{Buffer, is_valid, is_active}
use noise_ai.Engine
use noise_ai.Engine.{
  NoiseMode, mode_to_int, mode_of_int, EngineStatus, stopped, running, error, AudioFormat, Engine,
  RnNoise,
}
use noise_ai.Engine.Settings
use noise_ai.Engine.Settings.{
  get_mode, get_status, is_overloaded, get_dry_mix, get_attenuation_limit, set_mode, set_dry_mix,
}
use noise_ai.Engine.Lifecycle.{System, init, shutdown, load_deepfilter_model}
use noise_ai.Engine.Process

-- `NoiseEngineContext`. The pointer to the buffer may be null; a buffer may have failed to map.
pub record Context (F R S N : Type 0) : Type 0 where
  pub engine : Engine F R S N
  pub shared_buffer : Option (Buffer F)

abbrev pub to_int : Bool → ℕ
to_int b = if b then 1 else 0

-- `static_cast<int>` of a status.
unfoldable pub status_to_int : EngineStatus → ℕ
status_to_int stopped = 0
status_to_int running = 1
status_to_int error = 2

module _ {F : Type 0} ⦃f : Float F⦄ where
  -- `output_buf.resize(total_samples)`, if it is shorter.
  abbrev pub grown : List F → ℕ → List F
  grown output_buf total_samples =
      if ltb (length output_buf) total_samples
      then output_buf ++ zeros (total_samples - length output_buf)
      else output_buf

module _ {F R S N : Type 0} ⦃f : Float F⦄ where
  -- A setter: `ctx->engine.m(...)`, and nothing on a null handle.
  abbrev changes :
      (Engine F R S N → Engine F R S N) → Option (Context F R S N) → Option (Context F R S N)
  changes change none = none
  changes change (some ctx) = some (record ctx { engine = change ctx.engine })

  -- A method with a Boolean result, which is 0 on a null handle.
  abbrev answers :
      (Engine F R S N → Bool × Engine F R S N)
      → Option (Context F R S N)
      → ℕ × Option (Context F R S N)
  answers method none = (0, none)
  answers method (some ctx) =
      let (ok, e) = method ctx.engine in (to_int ok, some (record ctx { engine = e }))

  -- A getter, with its result on a null handle.
  abbrev asks : {A : Type 0} → A → (Engine F R S N → A) → Option (Context F R S N) → A
  asks default get none = default
  asks default get (some ctx) = get ctx.engine

  unfoldable pub noise_engine_stop : Option (Context F R S N) → Option (Context F R S N)
  noise_engine_stop = changes shutdown

  -- The bit pattern of an `int`, cast to a mode.
  unfoldable pub noise_engine_set_mode : ℕ → Option (Context F R S N) → Option (Context F R S N)
  noise_engine_set_mode mode = changes (set_mode (mode_of_int mode))

  unfoldable pub noise_engine_get_mode : Option (Context F R S N) → ℕ
  noise_engine_get_mode = asks 0 (λ e. mode_to_int (get_mode e))

  unfoldable pub noise_engine_get_status : Option (Context F R S N) → ℕ
  noise_engine_get_status = asks 0 (λ e. status_to_int (get_status e))

  unfoldable pub noise_engine_set_dry_mix : F → Option (Context F R S N) → Option (Context F R S N)
  noise_engine_set_dry_mix mix = changes (set_dry_mix mix)

  unfoldable pub noise_engine_get_dry_mix : Option (Context F R S N) → F
  noise_engine_get_dry_mix = asks nought get_dry_mix

  unfoldable pub noise_engine_set_attenuation_limit :
      F → Option (Context F R S N) → Option (Context F R S N)
  noise_engine_set_attenuation_limit db = changes (Settings.set_attenuation_limit db)

  unfoldable pub noise_engine_get_attenuation_limit : Option (Context F R S N) → F
  noise_engine_get_attenuation_limit = asks nought get_attenuation_limit

  unfoldable pub noise_engine_is_overloaded : Option (Context F R S N) → ℕ
  noise_engine_is_overloaded = asks 0 (λ e. to_int (is_overloaded e))

  -- `opened` is the buffer that the constructor gives. The old one is destroyed after it.
  unfoldable pub noise_shm_create :
      Buffer F → Option (Context F R S N) → ℕ × Option (Context F R S N)
  noise_shm_create opened none = (0, none)
  noise_shm_create opened (some ctx) =
      (to_int (is_valid opened), some (record ctx { shared_buffer = some opened }))

  unfoldable pub noise_shm_destroy : Option (Context F R S N) → Option (Context F R S N)
  noise_shm_destroy none = none
  noise_shm_destroy (some ctx) = some (record ctx { shared_buffer = none })

  -- `none` is undefined behaviour.
  unfoldable pub noise_shm_write :
      List F → ℕ → Option (Context F R S N) → Option (ℕ × Option (Context F R S N))
  noise_shm_write samples num_samples none = some (0, none)
  noise_shm_write samples num_samples (some ctx) = elim ctx.shared_buffer [
    | none ↦ some (0, some ctx)
    | some b ↦ if not (is_valid b) then some (0, some ctx) else (do
      (ok, b') ← Shared.write b samples num_samples
      some (to_int ok, some (record ctx { shared_buffer = some b' })))
  ]

  unfoldable pub noise_shm_is_active : Option (Context F R S N) → ℕ
  noise_shm_is_active none = 0
  noise_shm_is_active (some ctx) = elim ctx.shared_buffer [
    | none ↦ 0
    | some b ↦ to_int (is_active b)
  ]

  module _ (ort : Ort F S N) where
    -- `created` is what `rnnoise_create` returns. The result of `init` is not looked at.
    unfoldable pub noise_engine_create : System → Option R → AudioFormat → Option (Context F R S N)
    noise_engine_create sys created format =
        some (record { engine = (init ort sys created format Engine.make).1; shared_buffer = none })

    unfoldable pub noise_engine_start :
        System → Option R → Option (Context F R S N) → ℕ × Option (Context F R S N)
    noise_engine_start sys created = answers (
        init ort sys created
          (record { sample_rate = 48000; channels = 2; frames_per_buffer = 128 }))

    -- The path may be a null pointer.
    unfoldable pub noise_engine_load_deepfilter_model :
        System → Option FilePath → Option (Context F R S N) → ℕ × Option (Context F R S N)
    noise_engine_load_deepfilter_model sys none handle = (0, handle)
    noise_engine_load_deepfilter_model sys (some path) handle =
        answers (load_deepfilter_model ort sys path) handle

    module _ (rn : RnNoise F R) (elapsed : ℕ → F) where
      unfoldable pub noise_engine_process :
          List F
          → List F
          → ℕ
          → Option (Context F R S N)
          → Option (ℕ × List F × Option (Context F R S N))
      noise_engine_process input output num_frames none = some (0, output, none)
      noise_engine_process input output num_frames (some ctx) = do
        (ok, output', e) ← Process.process_frame rn ort elapsed input output num_frames ctx.engine
        some (to_int ok, output', some (record ctx { engine = e }))

      -- With a valid buffer. `output_buf` is the thread's buffer, which keeps its samples.
      unfoldable pub write_processed :
          List F → ℕ → List F → Context F R S N → Buffer F → Option (ℕ × List F × Context F R S N)
      write_processed input num_frames output_buf ctx b =
          let total_samples = mul32 num_frames 2 in
          do
            (ok, output', e) ←
                Process.process_frame rn ort elapsed input (grown output_buf total_samples)
                  num_frames ctx.engine
            if not ok then some (0, output', record ctx { engine = e }) else (do
              (write_ok, b') ← Shared.write b output' total_samples
              some (to_int write_ok, output', record { engine = e; shared_buffer = some b' }))

      -- With the pointer to the buffer, which may be null or have failed to map.
      unfoldable pub write_if_valid :
          List F
          → ℕ
          → List F
          → Context F R S N
          → Option (Buffer F)
          → Option (ℕ × List F × Context F R S N)
      write_if_valid input num_frames output_buf ctx none = some (0, output_buf, ctx)
      write_if_valid input num_frames output_buf ctx (some b) =
          if not (is_valid b)
          then some (0, output_buf, ctx)
          else write_processed input num_frames output_buf ctx b

      -- The result, the thread's buffer, and the next context.
      unfoldable pub noise_engine_process_and_write :
          List F
          → ℕ
          → List F
          → Option (Context F R S N)
          → Option (ℕ × List F × Option (Context F R S N))
      noise_engine_process_and_write input num_frames output_buf none = some (0, output_buf, none)
      noise_engine_process_and_write input num_frames output_buf (some ctx) = do
        (result, output_buf', ctx') ←
            write_if_valid input num_frames output_buf ctx ctx.shared_buffer
        some (result, output_buf', some ctx')
