-- ===== src/Spsc.antt =====
-- `SPSCRingBuffer` (engine/include/noise/ring_buffer.h, engine/src/ring_buffer.cpp), with whole
-- calls one after another; Threads has the steps of two threads inside the calls. Positions are
-- `size_t` words that only grow, and wrap at 2^64; a position is reduced to an index of the array
-- by `% capacity_`.
pub mod Refine
pub mod Runs
pub mod Atomic
pub mod Threads
mod Tests
use noise_ai.Base.{
  ℕ, ◌-◌, ltb, if◌then◌else◌, Bool, true, false, Option, some, List, [], ◌∷◌, replicate, add64,
  sub64, ◌>>=◌,
}
use noise_ai.Circular.{copy_in, copy_out}
use noise_ai.Queue.{Call, writes, reads, resets, Reply, wrote, got, done}

pub record SpscRingBuffer {ℓ} (A : Type ℓ) : Type ℓ where
  pub buffer : List A
  pub capacity : ℕ
  pub write_pos : ℕ
  pub read_pos : ℕ

module _ {ℓ} {A : Type ℓ} where
  -- `zero` is the value of the elements of a fresh `std::vector<float>`.
  pub make : A → ℕ → SpscRingBuffer A
  make zero capacity = record {
    buffer = replicate capacity zero;
    capacity = capacity;
    write_pos = 0;
    read_pos = 0;
  }

  pub available_read : SpscRingBuffer A → ℕ
  available_read s = sub64 s.write_pos s.read_pos

  pub available_write : SpscRingBuffer A → ℕ
  available_write s = sub64 s.capacity (sub64 s.write_pos s.read_pos)

  pub write : SpscRingBuffer A → List A → ℕ → Option (Bool × SpscRingBuffer A)
  write s samples num_samples =
      let w = s.write_pos in
      let r = s.read_pos in
      let available = sub64 s.capacity (sub64 w r) in
      if ltb available num_samples then some (false, s) else do
        buffer' ← copy_in s.capacity s.buffer w samples num_samples
        some (true, record s { buffer = buffer'; write_pos = add64 w num_samples })

  -- The list is the caller's array, which a failed read leaves alone.
  pub read : SpscRingBuffer A → List A → ℕ → Option (Bool × List A × SpscRingBuffer A)
  read s samples num_samples =
      let r = s.read_pos in
      let w = s.write_pos in
      let available = sub64 w r in
      if ltb available num_samples then some (false, samples, s) else do
        samples' ← copy_out s.capacity s.buffer r samples num_samples
        some (true, samples', record s { read_pos = add64 r num_samples })

  pub reset : SpscRingBuffer A → SpscRingBuffer A
  reset s = record s { write_pos = 0; read_pos = 0 }

module _ {A : Type 0} where
  -- A client's call, with what it returns.
  pub step : SpscRingBuffer A → Call A → Option (Reply A × SpscRingBuffer A)
  step s (writes samples n) = do (ok, s') ← write s samples n; some (wrote ok, s')
  step s (reads samples n) = do (ok, out, s') ← read s samples n; some (got ok out, s')
  step s resets = some (done, reset s)

  pub run : SpscRingBuffer A → List (Call A) → Option (List (Reply A))
  run s [] = some []
  run s (c ∷ cs) = do (reply, s') ← step s c; replies ← run s' cs; some (reply ∷ replies)
