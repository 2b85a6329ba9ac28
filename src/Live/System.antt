-- ===== src/Live/System.antt =====
-- The app and the driver in one system: the calls of the C interface
-- (bridge/src/noise_bridge.cpp) and of `IOHandler` (driver/src/io_handler.cpp), and the app's
-- process ending, one after another in any order.
use noise_ai.Base.{
  ℕ, ◌+◌, ◌*◌, ◌%◌, ◌==◌, ◌≤◌, ◌<◌, ◌≡◌, if◌then◌else◌, true, false, Option, none, some, List, [],
  ◌∷◌, ◌++◌, ◌>>=◌, length, take, mul32, u32, u64,
}
use noise_ai.Float.{Float}
use noise_ai.DeepFilter.{Ort}
use noise_ai.Engine.{Engine, RnNoise, is_running}
use noise_ai.Engine
use noise_ai.Engine.Api.{Call, IsCall, apply}
use noise_ai.Shared.Posix.{Posix}
use noise_ai.Shared.Handle.{Handle, each}
use noise_ai.Bridge.Segment.{shm_create_in, shm_destroy_in, engine_destroy_in}
use noise_ai.Live.App.{shm_write_in, process_and_write_in}
use noise_ai.Live.Driver.{LiveHandler, on_start_io_in, on_stop_io_in, on_read_client_input_in}

-- `handed` are the samples that calls which returned 1 have handed on, in order: the code keeps
-- no such list.
pub record Both (F R S N World Fd Map : Type 0) : Type 0 where
  pub engine : Engine F R S N
  pub app_buffer : Option (Handle Fd Map)
  pub driver : LiveHandler Fd Map
  pub world : World
  pub handed : List F

-- A call, with its arguments and what the clock says in it.
pub data Event (F R : Type 0) : Type 0 where
  calls : Call F R → Event F R
  creates : ℕ → ℕ → Event F R
  destroys : Event F R
  quits : Event F R
  writes : List F → ℕ → Event F R
  -- `noise_engine_process_and_write`: clock, input, frames, and the thread's buffer.
  processes : (ℕ → F) → List F → ℕ → List F → Event F R
  -- The app's process ends without a call: the system unmaps and closes.
  dies : Event F R
  plays : ℕ → List F → Event F R
  starts : Event F R
  stops : Event F R

module _ {F World Fd Map : Type 0} (p : Posix F World Fd Map) where
  abbrev pub released : Option (Handle Fd Map) → World → World
  released none w = w
  released (some b) w = each p b.shm_fd p.close (each p b.shm_ptr (λ m. p.munmap m b.shm_size) w)

module _ {F R S N World Fd Map : Type 0} ⦃f : Float F⦄ (p : Posix F World Fd Map) (rn : RnNoise F R)
    (ort : Ort F S N) where
  -- `none` is undefined behaviour.
  unfoldable pub perform :
      Event F R → Both F R S N World Fd Map → Option (Both F R S N World Fd Map)
  perform (calls c) s = do e ← apply rn ort c s.engine; some (record s { engine = e })
  perform (creates sample_rate channels) s = do
    (result, handle, w) ← shm_create_in p sample_rate channels (some s.app_buffer) s.world
    b ← handle
    some (record s { app_buffer = b; world = w })
  perform destroys s = do
    (handle, w) ← shm_destroy_in p (some s.app_buffer) s.world
    b ← handle
    some (record s { app_buffer = b; world = w })
  perform quits s = do
    w ← engine_destroy_in p (some s.app_buffer) s.world
    some (record s { engine = Engine.make; app_buffer = none; world = w })
  perform (writes samples n) s = do
    (result, w) ← shm_write_in p samples n s.app_buffer s.world
    some (record s {
      world = w;
      handed = if result == 1 then s.handed ++ take n samples else s.handed;
    })
  perform (processes elapsed input n output_buf) s = do
    (result, out, e, w) ←
        process_and_write_in p ort rn elapsed input n output_buf s.engine s.app_buffer s.world
    some (record s {
      engine = e;
      world = w;
      handed = if result == 1 then s.handed ++ take (n * 2) out else s.handed;
    })
  perform dies s = some (record s {
    engine = Engine.make;
    app_buffer = none;
    world = released p s.app_buffer s.world;
  })
  perform (plays bytes_count output) s = do
    (out, h, w) ← on_read_client_input_in p bytes_count output s.driver s.world
    some (record s { driver = h; world = w })
  perform starts s = do
    (status, h, w) ← on_start_io_in p s.driver s.world
    some (record s { driver = h; world = w })
  perform stops s = do
    (h, w) ← on_stop_io_in p s.driver s.world
    some (record s { driver = h; world = w })

  abbrev pub performs :
      List (Event F R) → Both F R S N World Fd Map → Option (Both F R S N World Fd Map)
  performs [] s = some s
  performs (e ∷ events) s = do s' ← perform e s; performs events s'

-- Both processes before any call.
abbrev pub start : {F R S N World Fd Map : Type 0} ⦃f : Float F⦄ → World → Both F R S N World Fd Map
start w = record {
  engine = Engine.make;
  app_buffer = none;
  driver = record {
    shared_buffer = none;
    reconnect_countdown = 0;
    was_connected = false;
    was_underrun = false;
    was_ever_connected = false;
    last_heartbeat = 0;
    stale_count = 0;
  };
  world = w;
  handed = [];
}

-- What a call asks of its arguments: arrays that hold what it names and are below 2^32 samples, a
-- channel count of 2 in a running engine, whole stereo frames, a segment of at least one sample,
-- and less than 2^64 samples handed on.
module _ {F R S N World Fd Map : Type 0} ⦃f : Float F⦄ where
  abbrev pub IsEvent : Event F R → Both F R S N World Fd Map → Type 0
  IsEvent (calls c) s = IsCall c s.engine
  IsEvent (creates sample_rate channels) s = 10 ≤ mul32 sample_rate channels
  IsEvent (writes samples n) s = (n ≤ length samples) × (length s.handed + n < u64)
  IsEvent (processes elapsed input n output_buf) s =
      (is_running s.engine.status ≡ true → s.engine.channels ≡ 2)
      × (n * 2 ≤ length input)
      × (length input < u32)
      × (length output_buf < u32)
      × (length s.handed + n * 2 < u64)
  IsEvent (plays bytes_count output) s =
      (n : ℕ) × (bytes_count ≡ n * 4) × (n % 2 ≡ 0) × (n ≤ length output) × (bytes_count < u32)
  IsEvent _ s = Unit {0}

-- The same of every call of a run.
abbrev pub AreEvents :
    {F R S N World Fd Map : Type 0} ⦃f : Float F⦄
    → Posix F World Fd Map
    → RnNoise F R
    → Ort F S N
    → List (Event F R)
    → Both F R S N World Fd Map
    → Type 0
AreEvents p rn ort [] s = Unit {0}
AreEvents {F} {R} {S} {N} {World} {Fd} {Map} p rn ort (e ∷ events) s =
    IsEvent e s
    × ((s' : Both F R S N World Fd Map)
        → perform p rn ort e s ≡ some s'
        → AreEvents p rn ort events s')
