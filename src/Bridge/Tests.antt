-- ===== src/Bridge/Tests.antt =====
-- A context at a concrete input: an engine that has just begun, and a segment of eight samples.
use noise_ai.Base.{ℕ, ◌≡◌, refl, true, none, some, List, [], ◌∷◌, arith}
use noise_ai.Float.Fixed.{ℤ, pos, fixed}
use noise_ai.Shared.{Segment}
use noise_ai.Engine.Tests.{begun}
use noise_ai.Bridge.{to_int, Context, noise_engine_get_mode, noise_engine_set_mode}
use noise_ai.Bridge.Writes.{Writes}
use noise_ai.Shared.Handle.{Handle}
use noise_ai.Shared.Machine.{Machine, blank, machine, machine-IsPosix}
use noise_ai.Bridge.Segment.{audio_name, is_mapped, shm_create_in, engine_destroy_in}
use noise_ai.Bridge.Segment.Shares.{Meets, driver_open-shm_create_in}
use noise_ai.Bridge.Segment.Cleans.{shm_create_in-again, engine_destroy_in-shm_create_in}
use noise_ai.Bridge.Modes.{noise_engine_get_mode-noise_engine_set_mode}

abbrev fresh : Segment ℤ
fresh = record {
  write_pos = 6;
  read_pos = 5;
  capacity = 8;
  channels = 2;
  sample_rate = 48000;
  active = 1;
  heartbeat = 3;
  samples = pos 1 ∷ pos 2 ∷ pos 3 ∷ pos 4 ∷ pos 5 ∷ pos 6 ∷ pos 7 ∷ pos 8 ∷ [];
}

abbrev context : Context ℤ ℕ ℕ ℕ
context = record { engine = begun; shared_buffer = some (some fresh) }

abbrev block : List ℤ
block = pos 10 ∷ pos 20 ∷ pos 30 ∷ pos 40 ∷ []

noise_engine_get_mode-noise_engine_set_mode_example :
    noise_engine_get_mode (noise_engine_set_mode 7 (some context)) ≡ 7
noise_engine_get_mode-noise_engine_set_mode_example =
    noise_engine_get_mode-noise_engine_set_mode 7 context

-- The segment that a first `noise_shm_create` left, and its handle.
abbrev stale : Segment ℕ
stale = record {
  write_pos = 6;
  read_pos = 5;
  capacity = 4;
  channels = 2;
  sample_rate = 20;
  active = 1;
  heartbeat = 3;
  samples = 1 ∷ 2 ∷ 3 ∷ 4 ∷ [];
}

abbrev held : Machine ℕ
held = (machine 0).store 0 stale ((machine 0).shm_create audio_name blank).1

abbrev old : Handle ℕ ℕ
old = record {
  shm_ptr = some 0;
  shm_size = 208;
  shm_fd = some 0;
  is_creator = true;
  shm_name = audio_name;
}

driver_open-shm_create_in_example :
    (returned : ℕ) × (new : Handle ℕ ℕ) × (after : Machine ℕ) × (shm_create_in
        (machine 0)
        20
        2
        (some none)
        blank
      ≡ some (returned, some (some new), after))
    × Meets 0 (machine-IsPosix 0) 20 2 (omega arith) blank returned new after
driver_open-shm_create_in_example =
    driver_open-shm_create_in 0 (machine-IsPosix 0) 20 2 (omega arith) blank

shm_create_in-again_example :
    (new : Handle ℕ ℕ) × (after : Machine ℕ) × (shm_create_in
        (machine 0)
        20
        2
        (some (some old))
        held
      ≡ some (to_int (is_mapped {F = ℕ} (machine 0) new), some (some new), after))
    × ((machine-IsPosix 0).named audio_name after ≡ none)
    × ((machine-IsPosix 0).contents 0 after ≡ some (record stale { active = 0 }))
unfolding machine-IsPosix
shm_create_in-again_example =
    shm_create_in-again 0 (machine-IsPosix 0) 20 2 (omega arith) held old 0 stale refl refl refl
      refl

engine_destroy_in-shm_create_in_example :
    (returned : ℕ) × (new : Handle ℕ ℕ) × (after : Machine ℕ) × (last : Machine ℕ) × (shm_create_in
        (machine 0)
        20
        2
        (some none)
        held
      ≡ some (returned, some (some new), after))
    × (engine_destroy_in (machine 0) (some (some new)) after ≡ some last)
    × ((machine-IsPosix 0).named audio_name last ≡ none)
engine_destroy_in-shm_create_in_example =
    engine_destroy_in-shm_create_in 0 (machine-IsPosix 0) 20 2 (omega arith) held
