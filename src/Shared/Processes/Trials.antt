-- ===== src/Shared/Processes/Trials.antt =====
-- Two samples are written and discarded; a third is written behind them, and the driver is past
-- its check.
use noise_ai.Base.{ℕ, ◌+◌, ◌≤◌, ◌≡◌, refl, inl, none, some, List, [], ◌∷◌, take, arith}
use noise_ai.Spsc.Atomic.{initial, store}
use noise_ai.Spsc.Threads.{
  Producer, Consumer, System, start, enters_write, fills, publishes, enters_read, enter_write, fill,
  publish, enter_read, empty_out,
}
use noise_ai.Circular.{copy_in}
use noise_ai.Shared.Processes.{
  enter_flush, snap, Run, begins, steps, enters_flush, steps_beside, snaps,
}
use noise_ai.Shared.Processes.Flushes.{Run-reads}

abbrev reading : System ℕ
reading = record {
  buffer = 1 ∷ 2 ∷ 7 ∷ [];
  capacity = 3;
  write_pos = store 3 (store 2 initial);
  read_pos = store 2 initial;
  producer = Producer.idle;
  consumer = Consumer.admitted (0 ∷ []) 1 2;
  read_seen = 0;
  write_seen = 2;
}

reading-Run : Run 0 3 reading none (1 ∷ 2 ∷ 7 ∷ []) (1 ∷ 2 ∷ [])
unfolding start enter_write fill publish enter_read store copy_in enter_flush snap
reading-Run =
    steps
      (snaps 2 (
        steps_beside 2
          (steps_beside 2
            (steps_beside 2
              (enters_flush 1
                (steps
                  (steps
                    (steps begins (
                      enters_write 0 (1 ∷ 2 ∷ []) 2 refl (omega arith) (omega arith) (omega arith)
                        refl refl refl))
                    (fills (1 ∷ 2 ∷ []) 2 0 refl refl refl refl))
                  (publishes (1 ∷ 2 ∷ []) 2 0 refl refl refl refl))
                refl (omega arith) (omega arith))
              (enters_write 0 (7 ∷ []) 1 refl (omega arith) (omega arith) (omega arith) refl refl
                refl)
              refl refl)
            (fills (7 ∷ []) 1 2 refl refl refl refl) refl refl)
          (publishes (7 ∷ []) 1 2 refl refl refl refl) refl refl))
      (enters_read 2 (0 ∷ []) 1 refl (omega arith) (omega arith) (omega arith) refl refl refl)

Run-reads_example :
    (◌≡◌ {A = List ℕ} (1 ∷ 2 ∷ []) (take 2 (1 ∷ 2 ∷ 7 ∷ [])))
    × (3 ≤ 2 + 3)
    × ((u : System ℕ) × (out : List ℕ) × (empty_out (0 ∷ []) 1 2 reading ≡ some u)
        × (u.consumer ≡ Consumer.copied out 1 2)
        × (take 1 out ≡ 7 ∷ []))
Run-reads_example =
    Run-reads 0 reading-Run (omega arith) (omega arith) (inl (omega arith)) (0 ∷ []) 1 2 refl
