-- ===== src/Shared.antt =====
-- The methods of `SharedRingBuffer` on a mapped segment
-- (engine/include/noise/shared_ring_buffer.h, engine/src/shared_ring_buffer.cpp): the producer's
-- in the app, the consumer's in the driver. A buffer is the segment that it maps; `none` is one
-- whose mapping failed, with null pointers. Handle has the constructor and the destructor.
pub mod Refine
pub mod Posix
pub mod Handle
pub mod Lifetime
pub mod Sharing
pub mod Determined
pub mod Willing
pub mod Objects
pub mod Machine
pub mod Processes
mod Tests
use noise_ai.Base.{
  ℕ, ◌-◌, ◌==◌, ltb, not, if◌then◌else◌, Bool, true, false, Option, none, some, List, add64, sub64,
  ◌>>=◌,
}
use noise_ai.Circular.{copy_in, copy_out}

-- `SharedRingBufferHeader`, and the samples behind it. The positions and the heartbeat are
-- `uint64_t`, the other fields `uint32_t`.
pub record Segment {ℓ} (A : Type ℓ) : Type ℓ where
  pub write_pos : ℕ
  pub read_pos : ℕ
  pub capacity : ℕ
  pub channels : ℕ
  pub sample_rate : ℕ
  pub active : ℕ
  pub heartbeat : ℕ
  pub samples : List A

abbrev pub Buffer {ℓ} : Type ℓ → Type ℓ
Buffer A = Option (Segment A)

module _ {ℓ} {A : Type ℓ} where
  unfoldable pub write_segment : Segment A → List A → ℕ → Option (Bool × Segment A)
  write_segment s block num_samples =
      let w = s.write_pos in
      let r = s.read_pos in
      let cap = s.capacity in
      let available = sub64 cap (sub64 w r) in
      if ltb available num_samples then some (false, s) else do
        samples' ← copy_in cap s.samples w block num_samples
        some (
          true,
          record s {
            samples = samples';
            write_pos = add64 w num_samples;
            heartbeat = add64 s.heartbeat 1;
          },
        )

  unfoldable pub write : Buffer A → List A → ℕ → Option (Bool × Buffer A)
  write none block num_samples = some (false, none)
  write (some s) block num_samples = do
    (ok, s') ← write_segment s block num_samples
    some (ok, some s')

  -- The list is the caller's array, which a failed read leaves alone.
  unfoldable pub read_segment : Segment A → List A → ℕ → Option (Bool × List A × Segment A)
  read_segment s block num_samples =
      let r = s.read_pos in
      let w = s.write_pos in
      let cap = s.capacity in
      let available = sub64 w r in
      if ltb available num_samples then some (false, block, s) else do
        block' ← copy_out cap s.samples r block num_samples
        some (true, block', record s { read_pos = add64 r num_samples })

  unfoldable pub read : Buffer A → List A → ℕ → Option (Bool × List A × Buffer A)
  read none block num_samples = some (false, block, none)
  read (some s) block num_samples = do
    (ok, block', s') ← read_segment s block num_samples
    some (ok, block', some s')

  unfoldable pub flush : Buffer A → Buffer A
  flush none = none
  flush (some s) = some (record s { read_pos = s.write_pos })

  unfoldable pub available_read : Buffer A → ℕ
  available_read none = 0
  available_read (some s) = sub64 s.write_pos s.read_pos

  unfoldable pub available_write : Buffer A → ℕ
  available_write none = 0
  available_write (some s) = sub64 s.capacity (sub64 s.write_pos s.read_pos)

  unfoldable pub is_active : Buffer A → Bool
  is_active none = false
  is_active (some s) = not (s.active == 0)

  unfoldable pub set_active : Bool → Buffer A → Buffer A
  set_active active none = none
  set_active active (some s) = some (record s { active = if active then 1 else 0 })

  unfoldable pub get_heartbeat : Buffer A → ℕ
  get_heartbeat none = 0
  get_heartbeat (some s) = s.heartbeat

  unfoldable pub is_valid : Buffer A → Bool
  is_valid none = false
  is_valid (some s) = true
