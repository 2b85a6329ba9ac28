-- ===== src/Circular.antt =====
-- The copies into and out of a circular array that `SPSCRingBuffer` (engine/src/ring_buffer.cpp)
-- and `SharedRingBuffer` (engine/src/shared_ring_buffer.cpp) share word for word: one `memcpy` up
-- to the end of the array and, where something is left, one from its start.
pub mod Window
pub mod Copies
pub mod Contents
pub mod Safety
pub mod Holds
use noise_ai.Base.{ℕ, ◌-◌, min, ltb, if◌then◌else◌, Option, some, List, ◌>>=◌, mod?, memcpy}

module _ {ℓ} {A : Type ℓ} where
  -- `num_samples` elements of `samples` into the array, from the running position `w` on.
  unfoldable pub copy_in : ℕ → List A → ℕ → List A → ℕ → Option (List A)
  copy_in capacity buffer w samples num_samples = do
    w_index ← mod? w capacity
    let first_chunk = min num_samples (capacity - w_index)
    let second_chunk = num_samples - first_chunk
    buffer' ← memcpy buffer w_index samples 0 first_chunk
    if ltb 0 second_chunk then memcpy buffer' 0 samples first_chunk second_chunk else some buffer'

  -- `num_samples` elements of the array, from the running position `r` on, over those of the
  -- caller's array.
  unfoldable pub copy_out : ℕ → List A → ℕ → List A → ℕ → Option (List A)
  copy_out capacity buffer r samples num_samples = do
    r_index ← mod? r capacity
    let first_chunk = min num_samples (capacity - r_index)
    let second_chunk = num_samples - first_chunk
    samples' ← memcpy samples 0 buffer r_index first_chunk
    if ltb 0 second_chunk then memcpy samples' first_chunk buffer 0 second_chunk else some samples'
