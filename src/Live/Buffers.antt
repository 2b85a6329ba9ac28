-- ===== src/Live/Buffers.antt =====
-- The methods of `SharedRingBuffer` (engine/src/shared_ring_buffer.cpp) on an open buffer: what
-- they read and write are the bytes of its mapping. `none` is an access that the mapping is too
-- small for.
use noise_ai.Base.{ℕ, Bool, if◌then◌else◌, Option, none, some, List, ◌>>=◌}
use noise_ai.Shared
use noise_ai.Shared.{Segment, Buffer, flush}
use noise_ai.Shared.Posix.{Posix}
use noise_ai.Shared.Handle.{Handle, destroy}

module _ {F World Fd Map : Type 0} (p : Posix F World Fd Map) where
  -- What a method finds behind the pointers, which may be null.
  unfoldable pub load_buffer : Handle Fd Map → World → Option (Buffer F)
  load_buffer h w = elim h.shm_ptr [
    | none ↦ some none
    | some map ↦ do s ← p.load map w; some (some s)
  ]

  -- What a method leaves there.
  unfoldable pub store_buffer : Handle Fd Map → Buffer F → World → World
  store_buffer h none w = w
  store_buffer h (some s) w = elim h.shm_ptr [ none ↦ w | some map ↦ p.store map s w ]

  unfoldable pub write_in : Handle Fd Map → List F → ℕ → World → Option (Bool × World)
  write_in h block num_samples w = do
    b ← load_buffer h w
    (ok, b') ← Shared.write b block num_samples
    some (ok, if ok then store_buffer h b' w else w)

  unfoldable pub read_in : Handle Fd Map → List F → ℕ → World → Option (Bool × List F × World)
  read_in h block num_samples w = do
    b ← load_buffer h w
    (ok, block', b') ← Shared.read b block num_samples
    some (ok, block', if ok then store_buffer h b' w else w)

  unfoldable pub flush_in : Handle Fd Map → World → Option World
  flush_in h w = do b ← load_buffer h w; some (store_buffer h (flush b) w)

  -- `reset` of a `std::unique_ptr` to a buffer.
  unfoldable pub reset : Option (Handle Fd Map) → World → Option World
  reset none w = some w
  reset (some h) w = destroy p h w
