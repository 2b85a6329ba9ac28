-- ===== src/Driver/Trials.antt =====
-- The plug-in and the throttle at concrete inputs: objects of the library are numbers, given in
-- turn.
use noise_ai.Base.{ℕ, ◌+◌, ◌≡◌, refl, true, false, none, some, List, [], ◌∷◌, ◌++◌, replicate}
use noise_ai.Float.Fixed.{ℤ, pos, fixed}
use noise_ai.Shared.{Segment}
use noise_ai.Driver.{IoHandler, is_connected, ensure_connected}
use noise_ai.Driver.Device.{Aspl}
use noise_ai.Driver.Plugin.{references, one_driver, noise_ai_create-one_driver}
use noise_ai.Driver.Reconnect.{tries, connected, throttle, tries_again}

abbrev numbered : Aspl ℤ ℕ ℕ ℕ ℕ ℕ ℕ ℕ
numbered = record {
  make_context = λ w. (w, w + 1);
  make_device = λ c params w. (w, w + 1);
  share = λ h w. (w, w + 1);
  set_io_handler = λ d h w. w;
  set_control_handler = λ d h w. w;
  add_stream_with_controls = λ d params w. w;
  make_plugin = λ c w. (w, w + 1);
  add_device = λ p d w. w;
  make_driver = λ c p w. (w, w + 1);
  get_reference = λ d. d + 100;
}

noise_ai_create-one_driver_example :
    (reference : ℕ) × (references numbered (λ w. w + 7) (false ∷ true ∷ true ∷ []) none 3
      ≡ one_driver numbered reference (false ∷ true ∷ true ∷ []))
noise_ai_create-one_driver_example =
    noise_ai_create-one_driver numbered (λ w. w + 7) (false ∷ true ∷ true ∷ []) 3

abbrev frames : List ℤ
frames = pos 1 ∷ pos 2 ∷ pos 3 ∷ pos 4 ∷ pos 5 ∷ []

abbrev ready : Segment ℤ
ready = record {
  write_pos = 6;
  read_pos = 0;
  capacity = 8;
  channels = 2;
  sample_rate = 48000;
  active = 1;
  heartbeat = 3;
  samples = replicate 8 (pos 4);
}

-- Connected before, and then let go.
abbrev parted : IoHandler ℤ
parted = record {
  shared_buffer = none;
  reconnect_countdown = 0;
  was_connected = false;
  was_underrun = false;
  was_ever_connected = true;
  last_heartbeat = 0;
  stale_count = 0;
}

tries_again_example :
    (failed : IoHandler ℤ) × (ensure_connected none parted ≡ (false, failed))
    × (tries (throttle parted + 1) (some ready) failed
        ≡ (replicate (throttle parted) false ++ true ∷ [], connected ready parted))
unfolding is_connected
tries_again_example = tries_again ready parted refl refl
