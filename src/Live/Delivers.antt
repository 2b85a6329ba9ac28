-- ===== src/Live/Delivers.antt =====
-- From the app's audio callback, `noise_engine_process_and_write` (bridge/src/noise_bridge.cpp),
-- to the driver's, `OnReadClientInput` (driver/src/io_handler.cpp), each on its own mapping of
-- one segment.
use noise_ai.Base.{
  ℕ, ◌+◌, ◌*◌, ◌≤◌, ◌<◌, ◌≡◌, true, some, List, ◌++◌, ◌>>=◌, length, take, drop, u32, u64, add64,
}
use noise_ai.Float.{Float, nought}
use noise_ai.DeepFilter.{Ort}
use noise_ai.DeepFilter.Laws.{HasShapes}
use noise_ai.Engine.{Engine, RnNoise, is_running}
use noise_ai.Engine.Valid.{KeepsFrames}
use noise_ai.Shared.{Segment}
use noise_ai.Shared.Refine.{IsSegment}
use noise_ai.Shared.Posix.{Posix, IsPosix}
use noise_ai.Shared.Handle.{Handle}
use noise_ai.Live.App.{process_and_write_in}
use noise_ai.Live.Driver.{LiveHandler, on_read_client_input_in}
use noise_ai.Live.System.{Both}
use noise_ai.Live.Sound.{IsSound}

module _ {F World Fd Map O : Type 0} ⦃f : Float F⦄ {p : Posix F World Fd Map} (L : IsPosix O p)
    {R S N : Type 0} (decide : Discrete O) (rn : RnNoise F R) (ort : Ort F S N)
    (frames : KeepsFrames rn) (shapes : HasShapes ort) where
  open L use {named, contents, of_map}

  -- The call returns 1, and the callback after it plays from the queue behind which `out` stands.
  pub record Delivers (s : Both F R S N World Fd Map) (q : List F) (elapsed : ℕ → F)
      (input output_buf : List F) (n bytes_count k : ℕ) (output : List F) : Type 0 where
    pub out : List F
    pub engine : Engine F R S N
    pub world : World
    pub next : LiveHandler Fd Map
    pub later : World
    pub wrote :
        process_and_write_in p ort rn elapsed input n output_buf s.engine s.app_buffer s.world
        ≡ some (1, out, engine, world)
    pub played :
        on_read_client_input_in p bytes_count output s.driver world
        ≡ some (take k (q ++ take (n * 2) out) ++ drop k output, next, later)

  module _ (elapsed : ℕ → F) (input output_buf : List F) (n : ℕ) (s : Both F R S N World Fd Map)
      (sound : IsSound L s) (a b : Handle Fd Map) (app_map driver_map : Map) (t : Segment F) {W : ℕ}
      {q : List F} (at : s.app_buffer ≡ some a) (mapped : a.shm_ptr ≡ some app_map)
      (bytes_at : contents (of_map app_map) s.world ≡ some t) (held : IsSegment nought t W q)
      (run : is_running s.engine.status ≡ true) (two : s.engine.channels ≡ 2)
      (given : n * 2 ≤ length input) (small : length input < u32) (small' : length output_buf < u32)
      (bound : W + n * 2 < u64) (fits : length q + n * 2 ≤ t.capacity) where
    -- The app's call.
    record Writes : Type 0 where
      out : List F
      engine : Engine F R S N
      segment : Segment F
      total : ℕ
      size : n * 2 ≤ length out
      ran :
          process_and_write_in p ort rn elapsed input n output_buf s.engine s.app_buffer s.world
          ≡ some (1, out, engine, p.store app_map segment s.world)
      left : IsSegment nought segment total (q ++ take (n * 2) out)
      active : segment.active ≡ t.active
      heartbeat : segment.heartbeat ≡ add64 t.heartbeat 1
