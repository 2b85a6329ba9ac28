-- ===== src/Bridge/Segment.antt =====
-- `noise_shm_create` and `noise_shm_destroy` (bridge/src/noise_bridge.cpp) over the calls of
-- POSIX: the context's pointer to its buffer, and the system. The driver's `ensureConnected`
-- (driver/src/io_handler.cpp) opens the same name.
pub mod Shares
pub mod Cleans
use mathlib.Core.Option.{some-injective}
use noise_ai.Base.{
  ℕ, ◌/◌, ◌≤◌, ◌≡◌, ◌⊎◌, inl, inr, refl, sym, ap, ◌∙◌, Bool, true, false, Option, none, some, ◌>>=◌,
  [], arith, take, mul32,
}
use noise_ai.Bridge.{to_int}
use noise_ai.Engine.ModelPath.{codes}
use noise_ai.Shared.{Segment}
use noise_ai.Shared.Refine.{IsSegment}
use noise_ai.Shared.Posix.{Posix, IsPosix, Name}
use noise_ai.Shared.Handle.{Handle, construct, destroy, buffer}
use noise_ai.Shared.Lifetime.{not_both, Fails, Maps, Creates, construct-Creates}
use noise_ai.Shared.Sharing.{HasHeader, construct-Opens, destroy_creator, destroy_failed}

-- The name of the segment, in the bridge and in the driver.
abbrev pub audio_name : Name
audio_name = codes "/com.noiseai.audio"

module _ {F World Fd Map : Type 0} (p : Posix F World Fd Map) where
  abbrev pub is_pointer : Option Map → Bool
  is_pointer none = false
  is_pointer (some map) = true

  -- `is_valid()`.
  abbrev pub is_mapped : Handle Fd Map → Bool
  is_mapped h = is_pointer h.shm_ptr

  -- `make_unique` constructs the new buffer; the assignment then destroys the old one. The outer
  -- `none` is a null handle, an inner one a null pointer.
  unfoldable pub shm_create_in :
      ℕ
      → ℕ
      → Option (Option (Handle Fd Map))
      → World
      → Option (ℕ × Option (Option (Handle Fd Map)) × World)
  shm_create_in sample_rate channels none w = some (0, none, w)
  shm_create_in sample_rate channels (some old) w = do
    let capacity = mul32 sample_rate channels / 10
    (new, created) ← construct p audio_name capacity channels sample_rate true w
    after ← elim old [ none ↦ some created | some h ↦ destroy p h created ]
    some (to_int (is_mapped new), some (some new), after)

  unfoldable pub shm_destroy_in :
      Option (Option (Handle Fd Map)) → World → Option (Option (Option (Handle Fd Map)) × World)
  shm_destroy_in none w = some (none, w)
  shm_destroy_in (some none) w = some (some none, w)
  shm_destroy_in (some (some h)) w = do after ← destroy p h w; some (some none, after)

  -- `noise_engine_destroy`. The engine is shut down and goes with the context; the system keeps
  -- nothing of it.
  unfoldable pub engine_destroy_in : Option (Option (Handle Fd Map)) → World → Option World
  unfolding shm_destroy_in
  engine_destroy_in handle w = do (rest, after) ← shm_destroy_in handle w; some after

  -- What `ensureConnected` opens.
  unfoldable pub driver_open : World → Option (Handle Fd Map × World)
  driver_open = construct p audio_name 0 2 48000 false
