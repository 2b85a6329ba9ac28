-- ===== src/Driver/Tests.antt =====
-- The driver at a concrete input: a block of two frames, and a segment of eight samples.
use noise_ai.Base.{◌≡◌, refl, inl, true, false, none, some, List, [], ◌∷◌, arith}
use noise_ai.Float.Fixed.{ℤ, pos, fixed}
use noise_ai.Shared.{Segment, is_active, is_valid}
use noise_ai.Shared.Refine.{IsSegment}
use noise_ai.Driver.{IoHandler, is_connected, on_read_client_input}
use noise_ai.Driver.Connect.{IsHandler, Plays}
use noise_ai.Driver.Plays.{on_read_client_input-Plays}
use noise_ai.Driver.Stale.{IsStale, callbacks, LetsGo, IsStale-LetsGo}

abbrev block : List ℤ
block = pos 1 ∷ pos 2 ∷ pos 3 ∷ pos 4 ∷ pos 5 ∷ []

-- Six samples were written, none read.
abbrev full : Segment ℤ
full = record {
  write_pos = 6;
  read_pos = 0;
  capacity = 8;
  channels = 2;
  sample_rate = 48000;
  active = 1;
  heartbeat = 3;
  samples = pos 10 ∷ pos 20 ∷ pos 30 ∷ pos 40 ∷ pos 50 ∷ pos 60 ∷ pos 0 ∷ pos 0 ∷ [];
}

abbrev held_samples : List ℤ
held_samples = pos 10 ∷ pos 20 ∷ pos 30 ∷ pos 40 ∷ pos 50 ∷ pos 60 ∷ []

full-IsSegment : IsSegment (pos 0) full 6 held_samples
full-IsSegment = record {
  start = 0;
  holds = record {
    room = omega arith;
    small = omega arith;
    full = refl;
    write_word = omega arith;
    read_word = omega arith;
    order = omega arith;
    fits = omega arith;
    laps = inl (omega arith);
    contents = refl;
  };
}

-- The heartbeat was seen in each of the last 47 callbacks.
abbrev handler : IoHandler ℤ
handler = record {
  shared_buffer = some (some full);
  reconnect_countdown = 0;
  was_connected = true;
  was_underrun = false;
  was_ever_connected = true;
  last_heartbeat = 3;
  stale_count = 47;
}

handler-IsHandler : IsHandler handler
unfolding is_connected is_valid
handler-IsHandler = record {
  mapped = (full, refl, 6, held_samples, full-IsSegment);
  connected = λ off. cc;
  stale = omega arith;
  countdown = omega arith;
}

on_read_client_input-Plays_example :
    Plays handler.shared_buffer none 4 block (on_read_client_input 16 block none handler)
on_read_client_input-Plays_example =
    on_read_client_input-Plays 16 4 block (omega arith) (omega arith) (omega arith) (omega arith)
      none tt handler-IsHandler

handler-IsStale : IsStale 47 handler
unfolding is_active
handler-IsStale = record {
  segment = full;
  total = 6;
  queue = held_samples;
  mapped = refl;
  held = full-IsSegment;
  active = refl;
  heartbeat = refl;
  count = refl;
}

IsStale-LetsGo_example :
    (last : IoHandler ℤ) × (callbacks 16 block 2 handler ≡ some last)
    × IsStale 49 last
    × LetsGo 4 block (on_read_client_input 16 block none last)
IsStale-LetsGo_example =
    IsStale-LetsGo 16 4 block (omega arith) (omega arith) (omega arith) (omega arith) 2 47
      (omega arith) handler-IsStale
