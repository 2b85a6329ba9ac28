-- ===== src/Live/Tests.antt =====
-- An app and a driver in a small system that keeps what is documented of POSIX.
use native.Mathlib.Decide.{ℕ_discrete}
use mathlib.Core.Option.{some-injective}
use mathlib.Core.Path.{subst}
use noise_ai.Base.{ℕ, refl, ap, ◌∙◌, inl, inr, true, false, some, List, [], ◌∷◌, arith}
use noise_ai.Float.Fixed.{ℤ, pos, fixed}
use noise_ai.Shared.{Segment, is_valid}
use noise_ai.Shared.Refine.{IsSegment}
use noise_ai.Shared.Machine.{Machine, blank, machine, machine-IsPosix}
use noise_ai.Shared.Handle.{Handle, buffer}
use noise_ai.Bridge.Segment.{audio_name}
use noise_ai.Engine
use noise_ai.Engine.{is_running}
use noise_ai.Engine.Preserve.{make-IsValid}
use noise_ai.Engine.Tests.{halving, halving-KeepsFrames, silent, silent-HasShapes}
use noise_ai.Driver.{is_connected, on_read_client_input}
use noise_ai.Live.Driver.{LiveHandler, view, on_read_client_input_in}
use noise_ai.Live.Follows.{Follows, on_read_client_input_in-Follows}
use noise_ai.Live.Starts.{StartsIo, on_start_io_in-StartsIo}
use noise_ai.Live.System.{Both, writes, perform}
use noise_ai.Live.Sound.{Carries, IsSound}
use noise_ai.Live.Sound.Parts.{IsPublic-IsPublished}
use noise_ai.Live.Sound.Steps.{Performs, perform-Performs}

abbrev pub block : List ℤ
block = pos 10 ∷ pos 20 ∷ pos 30 ∷ pos 40 ∷ []

abbrev pub System : Type 0
System = Both ℤ ℕ ℕ ℕ (Machine ℤ) ℕ ℕ

-- Two samples are held, of three that were handed on.
abbrev pub shared : Segment ℤ
shared = record {
  write_pos = 3;
  read_pos = 1;
  capacity = 4;
  channels = 2;
  sample_rate = 20;
  active = 1;
  heartbeat = 2;
  samples = pos 1 ∷ pos 2 ∷ pos 3 ∷ pos 4 ∷ [];
}

abbrev pub queued : List ℤ
queued = pos 2 ∷ pos 3 ∷ []

pub shared-IsSegment : IsSegment (pos 0) shared 3 queued
shared-IsSegment = record {
  start = 1;
  holds = record {
    room = omega arith;
    small = omega arith;
    full = refl;
    write_word = omega arith;
    read_word = omega arith;
    order = omega arith;
    fits = omega arith;
    laps = inl (omega arith);
    contents = refl;
  };
}

abbrev world : Machine ℤ
world = (machine (pos 0)).store 0 shared ((machine (pos 0)).shm_create audio_name blank).1

abbrev pub handle : Handle ℕ ℕ
handle = record {
  shm_ptr = some 0;
  shm_size = 208;
  shm_fd = some 0;
  is_creator = false;
  shm_name = audio_name;
}

abbrev reader : LiveHandler ℕ ℕ
reader = record {
  shared_buffer = some handle;
  reconnect_countdown = 0;
  was_connected = true;
  was_underrun = false;
  was_ever_connected = true;
  last_heartbeat = 2;
  stale_count = 0;
}

abbrev pub both : System
both = record {
  engine = Engine.make;
  app_buffer = some (record handle { is_creator = true });
  driver = reader;
  world = world;
  handed = pos 1 ∷ queued;
}

carried : Carries (machine-IsPosix (pos 0)) both.handed 0 world
unfolding machine-IsPosix
carried = record {
  segment = shared;
  total = 3;
  queue = queued;
  earlier = pos 1 ∷ [];
  later = [];
  bytes = refl;
  held = shared-IsSegment;
  inside = refl;
}

pub both-IsSound : IsSound (machine-IsPosix (pos 0)) both
unfolding machine-IsPosix is_connected is_valid buffer
both-IsSound = record {
  engine = make-IsValid;
  public = λ o known.
      subst (λ x. Carries (machine-IsPosix (pos 0)) both.handed x world) (some-injective _ _ known)
        carried;
  owner = record {
    creator = refl;
    name = refl;
    state = inr (
      0,
      refl,
      record {
        segment = shared;
        total = 3;
        queue = queued;
        earlier = pos 1 ∷ [];
        bytes = refl;
        held = shared-IsSegment;
        last = refl;
        bound = omega arith;
      },
    );
  };
  guest = refl;
  handler = record {
    mapped = (shared, refl, 3, queued, shared-IsSegment);
    connected = λ e. absurd (cc);
    stale = omega arith;
    countdown = omega arith;
  };
  heard = λ b map at mapped.
      subst (λ x. Carries (machine-IsPosix (pos 0)) both.handed x world)
        (some-injective _ _ (ap (λ (h : Handle ℕ ℕ). h.shm_ptr) (some-injective _ _ at) ∙ mapped))
        carried;
}

perform-Performs_example :
    Performs
      (machine-IsPosix (pos 0))
      ℕ_discrete
      halving
      silent
      halving-KeepsFrames
      silent-HasShapes
      (perform (machine (pos 0)) halving silent (writes block 2) both)
perform-Performs_example =
    perform-Performs (machine-IsPosix (pos 0)) ℕ_discrete halving silent halving-KeepsFrames
      silent-HasShapes (writes block 2) both both-IsSound (omega arith, omega arith)

on_read_client_input_in-Follows_example :
    Follows
      (machine-IsPosix (pos 0))
      world
      (some handle)
      0
      2
      block
      (on_read_client_input_in (machine (pos 0)) 8 block reader world)
      (λ opened. on_read_client_input 8 block opened (view (machine (pos 0)) world reader))
on_read_client_input_in-Follows_example =
    on_read_client_input_in-Follows (machine-IsPosix (pos 0)) 8 2 block (omega arith) (omega arith)
      (omega arith) (omega arith) ℕ_discrete world reader
      (IsPublic-IsPublished (machine-IsPosix (pos 0)) both-IsSound.public) refl both-IsSound.handler

on_start_io_in-StartsIo_example : StartsIo (machine-IsPosix (pos 0)) reader world
on_start_io_in-StartsIo_example =
    on_start_io_in-StartsIo (machine-IsPosix (pos 0)) ℕ_discrete world reader
      (IsPublic-IsPublished (machine-IsPosix (pos 0)) both-IsSound.public) refl
