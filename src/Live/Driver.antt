-- ===== src/Live/Driver.antt =====
-- `IOHandler` (driver/src/io_handler.hpp, driver/src/io_handler.cpp) with the buffers that it
-- opens. The handler of Driver is its view, in which a buffer is the contents that its segment
-- has.
use noise_ai.Base.{
  ℕ, ◌+◌, ◌-◌, ◌/◌, ◌==◌, ltb, leb, not, if◌then◌else◌, Bool, true, false, Option, none, some, List,
  ◌>>=◌, memcpy,
}
use noise_ai.Float.{Float}
use noise_ai.Frames.{zeros}
use noise_ai.Shared.{Buffer, is_active, get_heartbeat}
use noise_ai.Shared.Posix.{Posix}
use noise_ai.Shared.Handle.{Handle, destroy, buffer}
use noise_ai.Bridge.Segment.{is_mapped, driver_open}
use noise_ai.Driver.{IoHandler, stale_threshold, total_samples, silence}
use noise_ai.Live.Buffers.{load_buffer, read_in, flush_in, reset}

pub record LiveHandler (Fd Map : Type 0) : Type 0 where
  -- `none` is a null pointer.
  pub shared_buffer : Option (Handle Fd Map)
  pub reconnect_countdown : ℕ
  pub was_connected : Bool
  pub was_underrun : Bool
  pub was_ever_connected : Bool
  pub last_heartbeat : ℕ
  pub stale_count : ℕ

module _ {F World Fd Map : Type 0} (p : Posix F World Fd Map) where
  abbrev pub seen : Option (Handle Fd Map) → World → Option (Buffer F)
  seen none w = none
  seen (some b) w = some (buffer p b w)

  abbrev pub view : World → LiveHandler Fd Map → IoHandler F
  view w h = record {
    shared_buffer = seen h.shared_buffer w;
    reconnect_countdown = h.reconnect_countdown;
    was_connected = h.was_connected;
    was_underrun = h.was_underrun;
    was_ever_connected = h.was_ever_connected;
    last_heartbeat = h.last_heartbeat;
    stale_count = h.stale_count;
  }

  -- `shared_buffer_ && shared_buffer_->is_valid()`.
  abbrev pub holds_mapped : Option (Handle Fd Map) → Bool
  holds_mapped none = false
  holds_mapped (some b) = is_mapped p b

  -- The assignment destroys the buffer that was there.
  unfoldable pub try_open_in :
      LiveHandler Fd Map → World → Option (Bool × LiveHandler Fd Map × World)
  try_open_in h w =
      let throttled : LiveHandler Fd Map = record h {
        reconnect_countdown = if h.was_ever_connected then 47 else 5;
      } in
      do
        (opened, w1) ← driver_open p w
        w2 ← reset p h.shared_buffer w1
        if not (is_mapped p opened)
            then (do
              w3 ← destroy p opened w2
              some (false, record throttled { shared_buffer = none }, w3))
            else (do
              w3 ← flush_in p opened w2
              some (
                true,
                record throttled {
                  shared_buffer = some opened;
                  reconnect_countdown = 0;
                  was_ever_connected = true;
                },
                w3,
              ))

  unfoldable pub ensure_connected_in :
      LiveHandler Fd Map → World → Option (Bool × LiveHandler Fd Map × World)
  ensure_connected_in h w =
      if holds_mapped h.shared_buffer
      then some (true, h, w)
      else if ltb 0 h.reconnect_countdown
      then some (false, record h { reconnect_countdown = h.reconnect_countdown - 1 }, w)
      else try_open_in h w

  -- `OnStartIO`, which returns `kAudioHardwareNoError`, and `OnStopIO`.
  unfoldable pub on_start_io_in :
      LiveHandler Fd Map → World → Option (ℕ × LiveHandler Fd Map × World)
  on_start_io_in h w = do
    w1 ← reset p h.shared_buffer w
    (connected, tried, w2) ←
        ensure_connected_in
          (record {
            shared_buffer = none;
            reconnect_countdown = 0;
            was_connected = false;
            was_underrun = false;
            was_ever_connected = false;
            last_heartbeat = 0;
            stale_count = 0;
          })
          w1
    some (0, tried, w2)

  unfoldable pub on_stop_io_in : LiveHandler Fd Map → World → Option (LiveHandler Fd Map × World)
  on_stop_io_in h w = do
    w1 ← reset p h.shared_buffer w
    some (
      record h {
        shared_buffer = none;
        reconnect_countdown = 0;
        was_connected = false;
        was_underrun = false;
        last_heartbeat = 0;
        stale_count = 0;
      },
      w1,
    )

  module _ ⦃f : Float F⦄ (bytes_count : ℕ) (output : List F) where
    unfoldable pub play_in :
        Handle Fd Map → LiveHandler Fd Map → World → Option (List F × LiveHandler Fd Map × World)
    play_in b h w = do
      (ok, output', w') ← read_in p b output (total_samples bytes_count output) w
      if ok then some (output', record h { was_underrun = false }, w') else (do
        silent ← memcpy output' 0 (zeros (bytes_count / 4)) 0 (bytes_count / 4)
        some (silent, record h { was_underrun = true }, w'))

    unfoldable pub give_up_in :
        LiveHandler Fd Map → World → Option (List F × LiveHandler Fd Map × World)
    give_up_in h w = do
      w' ← reset p h.shared_buffer w
      silent ← silence bytes_count output
      some (
        silent,
        record h {
          shared_buffer = none;
          was_connected = false;
          last_heartbeat = 0;
          stale_count = 0;
        },
        w',
      )

    unfoldable pub check_heartbeat_in :
        Handle Fd Map → LiveHandler Fd Map → World → Option (List F × LiveHandler Fd Map × World)
    check_heartbeat_in b h w = do
      segment ← load_buffer p b w
      let hb = get_heartbeat segment
      if hb == h.last_heartbeat
          then (let stale : LiveHandler Fd Map = record h { stale_count = h.stale_count + 1 } in
              if leb stale_threshold stale.stale_count
              then give_up_in stale w
              else play_in b stale w)
          else play_in b (record h { last_heartbeat = hb; stale_count = 0 }) w

    unfoldable pub serve_in :
        Handle Fd Map → LiveHandler Fd Map → World → Option (List F × LiveHandler Fd Map × World)
    serve_in b h w =
        let joined =
          if h.was_connected then h else record h { was_connected = true; was_underrun = false } in
        do
          segment ← load_buffer p b w
          if not (is_active segment) then give_up_in joined w else check_heartbeat_in b joined w

    -- `OnReadClientInput`.
    unfoldable pub on_read_client_input_in :
        LiveHandler Fd Map → World → Option (List F × LiveHandler Fd Map × World)
    on_read_client_input_in h w = do
      (ok, tried, w') ← ensure_connected_in h w
      if not ok
          then (do
            silent ← silence bytes_count output
            some (silent, record tried { was_connected = false }, w'))
          else (do b ← tried.shared_buffer; serve_in b tried w')
