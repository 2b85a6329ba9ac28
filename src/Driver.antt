-- ===== src/Driver.antt =====
-- `IOHandler` (driver/src/io_handler.hpp, driver/src/io_handler.cpp): the audio driver's end of
-- the shared ring buffer. Its callbacks run one after another on the system's audio thread. What
-- opening the shared memory returns is an argument: `none` is a mapping that failed. The
-- arguments that name the client, the stream and the times are not read. Logging is left out.
pub mod Connect
pub mod Blocks
pub mod Plays
pub mod Stale
pub mod Restart
pub mod Fresh
pub mod Device
pub mod Plugin
pub mod Reconnect
mod Tests
mod Trials
use noise_ai.Base.{
  ℕ, zero, suc, ◌+◌, ◌-◌, ◌*◌, ◌/◌, ◌==◌, ltb, leb, not, ◌&&◌, if◌then◌else◌, Bool, true, false,
  Option, none, some, List, [], ◌>>=◌, mul32, memcpy,
}
use noise_ai.Float.{Float}
use noise_ai.Frames.{zeros}
use noise_ai.Shared
use noise_ai.Shared.{Segment, Buffer, is_valid, is_active, get_heartbeat, flush}

-- `kChannels` and `kStaleThreshold`.
unfoldable pub num_channels : ℕ
num_channels = 2

unfoldable pub stale_threshold : ℕ
stale_threshold = 50

-- `shared_buffer` is a null pointer, or a buffer with the contents that its segment has now: the
-- producer writes the segment between callbacks. The `int`s are not negative.
pub record IoHandler (F : Type 0) : Type 0 where
  pub shared_buffer : Option (Buffer F)
  pub reconnect_countdown : ℕ
  pub was_connected : Bool
  pub was_underrun : Bool
  pub was_ever_connected : Bool
  pub last_heartbeat : ℕ
  pub stale_count : ℕ

module _ {F : Type 0} where
  -- `shared_buffer_ && shared_buffer_->is_valid()`.
  unfoldable pub is_connected : Option (Buffer F) → Bool
  is_connected none = false
  is_connected (some b) = is_valid b

  -- The attempt of `ensureConnected` to open the shared memory.
  unfoldable pub try_open : Buffer F → IoHandler F → Bool × IoHandler F
  try_open opened h =
      let throttled = record h { reconnect_countdown = if h.was_ever_connected then 47 else 5 } in
      if not (is_valid opened) then (false, record throttled { shared_buffer = none }) else (
        true,
        record throttled {
          shared_buffer = some (flush opened);
          reconnect_countdown = 0;
          was_ever_connected = true;
        },
      )

  -- `ensureConnected`.
  unfoldable pub ensure_connected : Buffer F → IoHandler F → Bool × IoHandler F
  ensure_connected opened h =
      if is_connected h.shared_buffer
      then (true, h)
      else if ltb 0 h.reconnect_countdown
      then (false, record h { reconnect_countdown = h.reconnect_countdown - 1 })
      else try_open opened h

  -- `OnStartIO` and `OnStopIO`.
  unfoldable pub on_start_io : Buffer F → IoHandler F → IoHandler F
  on_start_io opened h =
      (ensure_connected opened (record {
        shared_buffer = none;
        reconnect_countdown = 0;
        was_connected = false;
        was_underrun = false;
        was_ever_connected = false;
        last_heartbeat = 0;
        stale_count = 0;
      })).1

  unfoldable pub on_stop_io : IoHandler F → IoHandler F
  on_stop_io h = record h {
    shared_buffer = none;
    reconnect_countdown = 0;
    was_connected = false;
    was_underrun = false;
    last_heartbeat = 0;
    stale_count = 0;
  }

  -- What a callback resets when it gives up a segment.
  abbrev pub disconnect : IoHandler F → IoHandler F
  disconnect h = record h {
    shared_buffer = none;
    was_connected = false;
    last_heartbeat = 0;
    stale_count = 0;
  }

module _ {F : Type 0} ⦃f : Float F⦄ (bytes_count : ℕ) (output : List F) where
  -- `std::memset(output, 0, bytesCount)`: `none` is a write outside the array. A count that is
  -- not a multiple of 4 would also clear bytes of one more sample.
  unfoldable pub silence : Option (List F)
  silence = memcpy output 0 (zeros (bytes_count / 4)) 0 (bytes_count / 4)

  abbrev pub total_samples : ℕ
  total_samples = mul32 (bytes_count / (num_channels * 4)) num_channels

  -- The caller's array and the next state, where the buffer is read.
  unfoldable pub play : Buffer F → IoHandler F → Option (List F × IoHandler F)
  play b h = do
    (ok, output', b') ← Shared.read b output total_samples
    let h' = record h { shared_buffer = some b' } in
        if ok then some (output', record h' { was_underrun = false }) else (do
          silent ← memcpy output' 0 (zeros (bytes_count / 4)) 0 (bytes_count / 4)
          some (silent, record h' { was_underrun = true }))

  -- Give up the segment, and play silence.
  unfoldable pub give_up : IoHandler F → Option (List F × IoHandler F)
  give_up h = do silent ← silence; some (silent, disconnect h)

  unfoldable pub check_heartbeat : Buffer F → IoHandler F → Option (List F × IoHandler F)
  check_heartbeat b h =
      let hb = get_heartbeat b in
      if hb == h.last_heartbeat
      then (let stale = record h { stale_count = h.stale_count + 1 } in
          if leb stale_threshold stale.stale_count then give_up stale else play b stale)
      else play b (record h { last_heartbeat = hb; stale_count = 0 })

  -- With a mapped buffer at hand.
  unfoldable pub serve : Buffer F → IoHandler F → Option (List F × IoHandler F)
  serve b h =
      let joined =
        if h.was_connected then h else record h { was_connected = true; was_underrun = false } in
      if not (is_active b) then give_up joined else check_heartbeat b joined

  -- `OnReadClientInput`. The outer `none` is undefined behaviour.
  unfoldable pub on_read_client_input : Buffer F → IoHandler F → Option (List F × IoHandler F)
  on_read_client_input opened h =
      let (ok, tried) = ensure_connected opened h in
      if not ok
      then (do silent ← silence; some (silent, record tried { was_connected = false }))
      else (do b ← tried.shared_buffer; serve b tried)
