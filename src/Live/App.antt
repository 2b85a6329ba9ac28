-- ===== src/Live/App.antt =====
-- The calls of the bridge that reach the segment (bridge/src/noise_bridge.cpp), on the buffer
-- that the context has opened: `noise_engine_process_and_write` and `noise_shm_write`. Those that
-- open and close it are in Bridge.Segment.
use noise_ai.Base.{ℕ, not, if◌then◌else◌, Option, none, some, List, ◌>>=◌, mul32}
use noise_ai.Float.{Float}
use noise_ai.DeepFilter.{Ort}
use noise_ai.Engine.{Engine, RnNoise}
use noise_ai.Engine.Process.{process_frame}
use noise_ai.Shared.Posix.{Posix}
use noise_ai.Shared.Handle.{Handle}
use noise_ai.Bridge.{to_int, grown}
use noise_ai.Bridge.Segment.{is_mapped}
use noise_ai.Live.Buffers.{write_in}

module _ {F World Fd Map : Type 0} (p : Posix F World Fd Map) where
  -- `noise_shm_write` on a context, with the pointer to its buffer.
  unfoldable pub shm_write_in : List F → ℕ → Option (Handle Fd Map) → World → Option (ℕ × World)
  shm_write_in samples num_samples none w = some (0, w)
  shm_write_in samples num_samples (some b) w =
      if not (is_mapped p b)
      then some (0, w)
      else (do (ok, w') ← write_in p b samples num_samples w; some (to_int ok, w'))

  module _ {R S N : Type 0} ⦃f : Float F⦄ (ort : Ort F S N) (rn : RnNoise F R)
      (elapsed : ℕ → F) where
    -- With a valid buffer: the result, the thread's buffer, and the next engine and system.
    unfoldable pub write_processed_in :
        List F
        → ℕ
        → List F
        → Engine F R S N
        → Handle Fd Map
        → World
        → Option (ℕ × List F × Engine F R S N × World)
    write_processed_in input num_frames output_buf engine b w =
        let total_samples = mul32 num_frames 2 in
        do
          (ok, output', e) ←
              process_frame rn ort elapsed input (grown output_buf total_samples) num_frames engine
          if not ok then some (0, output', e, w) else (do
            (write_ok, w') ← write_in p b output' total_samples w
            some (to_int write_ok, output', e, w'))

    -- `noise_engine_process_and_write` on a context, with the pointer to its buffer.
    unfoldable pub process_and_write_in :
        List F
        → ℕ
        → List F
        → Engine F R S N
        → Option (Handle Fd Map)
        → World
        → Option (ℕ × List F × Engine F R S N × World)
    process_and_write_in input num_frames output_buf engine none w = some (0, output_buf, engine, w)
    process_and_write_in input num_frames output_buf engine (some b) w =
        if not (is_mapped p b)
        then some (0, output_buf, engine, w)
        else write_processed_in input num_frames output_buf engine b w
