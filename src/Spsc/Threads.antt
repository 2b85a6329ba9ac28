-- ===== src/Spsc/Threads.antt =====
-- One producer thread and one consumer thread inside `SPSCRingBuffer`: `write` and `read`
-- (engine/src/ring_buffer.cpp) as the steps between which the other thread may run. A step has at
-- most one access to what is shared: a load of the other thread's position, a copy, or a store of
-- the thread's own position. A thread's load of its own position joins the step before its next
-- access, since no other thread stores to it. A copy is one step, which `Spsc/Threads/Races.antt`
-- justifies.
pub mod Invariant
pub mod Produce
pub mod Consume
pub mod Growth
pub mod Safety
pub mod Races
mod Tests
use noise_ai.Base.{
  ℕ, ltb, if◌then◌else◌, ◌≤◌, ◌≡◌, Option, some, List, [], ◌++◌, length, take, replicate, add64,
  sub64, ◌>>=◌,
}
use noise_ai.Circular.{copy_in, copy_out}
use noise_ai.Spsc.Atomic.{Location, initial, store}

-- Where the producer is: outside of `write`, past the check, or past the copies, with the
-- arguments of the call and the word `w`.
pub data Producer (A : Type 0) : Type 0 where
  idle : Producer A
  admitted : List A → ℕ → ℕ → Producer A
  copied : List A → ℕ → ℕ → Producer A

-- Where the consumer is: outside of `read`, past the check, or past the copies, with the caller's
-- array, the number of samples and the word `r`.
pub data Consumer (A : Type 0) : Type 0 where
  idle : Consumer A
  admitted : List A → ℕ → ℕ → Consumer A
  copied : List A → ℕ → ℕ → Consumer A

-- `read_seen` is the newest store of the read position that the producer has seen, `write_seen`
-- that of the write position that the consumer has seen.
pub record System (A : Type 0) : Type 0 where
  pub buffer : List A
  pub capacity : ℕ
  pub write_pos : Location
  pub read_pos : Location
  pub producer : Producer A
  pub consumer : Consumer A
  pub read_seen : ℕ
  pub write_seen : ℕ

module _ {A : Type 0} where
  -- A new ring buffer, as both threads see it.
  unfoldable pub start : A → ℕ → System A
  start zero capacity = record {
    buffer = replicate capacity zero;
    capacity = capacity;
    write_pos = initial;
    read_pos = initial;
    producer = Producer.idle;
    consumer = Consumer.idle;
    read_seen = 0;
    write_seen = 0;
  }

  -- `write` up to its check, where the load of the read position returns its `k`th word.
  unfoldable pub enter_write : ℕ → List A → ℕ → System A → System A
  enter_write k samples num_samples s =
      let w = s.write_pos.value s.write_pos.latest in
      let r = s.read_pos.value k in
      let available = sub64 s.capacity (sub64 w r) in
      if ltb available num_samples
      then record s { read_seen = k }
      else record s { read_seen = k; producer = Producer.admitted samples num_samples w }

  unfoldable pub fill : List A → ℕ → ℕ → System A → Option (System A)
  fill samples num_samples w s = do
    buffer' ← copy_in s.capacity s.buffer w samples num_samples
    some (record s { buffer = buffer'; producer = Producer.copied samples num_samples w })

  unfoldable pub publish : ℕ → ℕ → System A → System A
  publish num_samples w s = record s {
    write_pos = store (add64 w num_samples) s.write_pos;
    producer = Producer.idle;
  }

  -- `read` up to its check, where the load of the write position returns its `k`th word.
  unfoldable pub enter_read : ℕ → List A → ℕ → System A → System A
  enter_read k block num_samples s =
      let r = s.read_pos.value s.read_pos.latest in
      let w = s.write_pos.value k in
      let available = sub64 w r in
      if ltb available num_samples
      then record s { write_seen = k }
      else record s { write_seen = k; consumer = Consumer.admitted block num_samples r }

  pub empty_out : List A → ℕ → ℕ → System A → Option (System A)
  empty_out block num_samples r s = do
    block' ← copy_out s.capacity s.buffer r block num_samples
    some (record s { consumer = Consumer.copied block' num_samples r })

  unfoldable pub release : ℕ → ℕ → System A → System A
  release num_samples r s = record s {
    read_pos = store (add64 r num_samples) s.read_pos;
    consumer = Consumer.idle;
  }

  -- A step of one thread, with the samples that it makes available, and those that it has read.
  -- Callers give arrays that hold the samples which they name. An undefined copy is no step.
  pub data Step (s : System A) (wrote got : List A) (u : System A) : Type 0 where
    enters_write :
        (k : ℕ) (samples : List A) (n : ℕ)
        → s.producer ≡ Producer.idle
        → s.read_seen ≤ k
        → k ≤ s.read_pos.latest
        → n ≤ length samples
        → wrote ≡ []
        → got ≡ []
        → u ≡ enter_write k samples n s
        → Step s wrote got u
    fills :
        (samples : List A) (n w : ℕ)
        → s.producer ≡ Producer.admitted samples n w
        → wrote ≡ []
        → got ≡ []
        → fill samples n w s ≡ some u
        → Step s wrote got u
    publishes :
        (samples : List A) (n w : ℕ)
        → s.producer ≡ Producer.copied samples n w
        → wrote ≡ take n samples
        → got ≡ []
        → u ≡ publish n w s
        → Step s wrote got u
    enters_read :
        (k : ℕ) (block : List A) (n : ℕ)
        → s.consumer ≡ Consumer.idle
        → s.write_seen ≤ k
        → k ≤ s.write_pos.latest
        → n ≤ length block
        → wrote ≡ []
        → got ≡ []
        → u ≡ enter_read k block n s
        → Step s wrote got u
    empties :
        (block : List A) (n r : ℕ)
        → s.consumer ≡ Consumer.admitted block n r
        → wrote ≡ []
        → got ≡ []
        → empty_out block n r s ≡ some u
        → Step s wrote got u
    releases :
        (block : List A) (n r : ℕ)
        → s.consumer ≡ Consumer.copied block n r
        → wrote ≡ []
        → got ≡ take n block
        → u ≡ release n r s
        → Step s wrote got u

  -- Runs of steps from a new ring buffer, with all samples written and all samples read so far.
  pub data Run (zero : A) (capacity : ℕ) : System A → List A → List A → Type 0 where
    begins : Run zero capacity (start zero capacity) [] []
    then_step :
        {s u : System A} {written consumed wrote got : List A}
        → Run zero capacity s written consumed
        → Step s wrote got u
        → Run zero capacity u (written ++ wrote) (consumed ++ got)
