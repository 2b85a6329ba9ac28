-- ===== src/Shared/Processes.antt =====
-- The app and the driver inside one `SharedRingBuffer` (engine/src/shared_ring_buffer.cpp) at
-- once. The loads, copies and stores of `write` and `read` are those of `SPSCRingBuffer`, and
-- their steps are taken from there; the consumer has `flush` besides. The heartbeat is left out:
-- no step on samples or positions reads it.
mod Flushes
mod Trials
use noise_ai.Base.{ℕ, ◌+◌, ◌≤◌, ◌≡◌, Option, none, some, List, [], ◌++◌, length, take, drop, sub64}
use noise_ai.Spsc.Atomic.{Location, store}
use noise_ai.Spsc.Threads.{Consumer, System, start, Step}

module _ {A : Type 0} where
  -- `flush` up to its store, where the load of the write position returns its `k`th word.
  pub enter_flush : ℕ → System A → System A × ℕ
  enter_flush k s = (record s { write_seen = k }, s.write_pos.value k)

  -- The store of the word that was loaded.
  pub snap : ℕ → System A → System A
  snap w s = record s { read_pos = store w s.read_pos }

  -- Runs of both processes from a new segment. `flushing` is the word that a `flush` has loaded
  -- and not yet stored; the consumer does nothing else then. `taken` are all samples that were
  -- read or discarded: a store of `w` takes as many as there are positions from the read position
  -- to `w`.
  pub data Run (zero : A) (capacity : ℕ) : System A → Option ℕ → List A → List A → Type 0 where
    begins : Run zero capacity (start zero capacity) none [] []
    steps :
        {s u : System A} {written taken wrote got : List A}
        → Run zero capacity s none written taken
        → Step s wrote got u
        → Run zero capacity u none (written ++ wrote) (taken ++ got)
    enters_flush :
        {s : System A} {written taken : List A} (k : ℕ)
        → Run zero capacity s none written taken
        → s.consumer ≡ Consumer.idle
        → s.write_seen ≤ k
        → k ≤ s.write_pos.latest
        → Run zero capacity (enter_flush k s).0 (some (enter_flush k s).1) written taken
    steps_beside :
        {s u : System A} {written taken wrote : List A} (w : ℕ)
        → Run zero capacity s (some w) written taken
        → Step s wrote [] u
        → u.consumer ≡ s.consumer
        → u.write_seen ≡ s.write_seen
        → Run zero capacity u (some w) (written ++ wrote) taken
    snaps :
        {s : System A} {written taken : List A} (w : ℕ)
        → Run zero capacity s (some w) written taken
        → Run zero capacity (snap w s) none written (
            taken
            ++ take (sub64 w (s.read_pos.value s.read_pos.latest)) (drop (length taken) written))
