-- ===== src/Spsc/Threads/Tests.antt =====
-- Two threads at concrete inputs: two samples are written, and then the consumer reads while the
-- producer writes again.
use noise_ai.Base.{ℕ, ◌+◌, ◌%◌, ◌≤◌, ◌≡◌, ◌≢◌, refl, inl, some, List, [], ◌∷◌, take, arith}
use noise_ai.Circular.{copy_in, copy_out}
use noise_ai.Spsc.Atomic.{store}
use noise_ai.Spsc.Threads.{
  Producer, Consumer, System, start, enter_write, fill, publish, enter_read, empty_out,
  enters_write, fills, publishes, enters_read, empties, releases, release, Run, begins, then_step,
}
use noise_ai.Spsc.Threads.Safety.{Run-stream, Run-empty_out}
use noise_ai.Spsc.Threads.Races.{Run-races}

abbrev both : System ℕ
both = record {
  buffer = 1 ∷ 2 ∷ 0 ∷ [];
  capacity = 3;
  write_pos = record {
    value = λ k. (store 2 (record { value = λ k. 0; latest = 0 })).value k;
    latest = 1;
  };
  read_pos = record { value = λ k. 0; latest = 0 };
  producer = Producer.admitted (7 ∷ []) 1 2;
  consumer = Consumer.admitted (0 ∷ 0 ∷ []) 2 0;
  read_seen = 0;
  write_seen = 1;
}

both-Run : Run 0 3 both (1 ∷ 2 ∷ []) []
unfolding start enter_write fill publish enter_read store copy_in
both-Run =
    then_step
      (then_step
        (then_step
          (then_step
            (then_step begins (
              enters_write 0 (1 ∷ 2 ∷ []) 2 refl (omega arith) (omega arith) (omega arith) refl refl
                refl))
            (fills (1 ∷ 2 ∷ []) 2 0 refl refl refl refl))
          (publishes (1 ∷ 2 ∷ []) 2 0 refl refl refl refl))
        (enters_read 1 (0 ∷ 0 ∷ []) 2 refl (omega arith) (omega arith) (omega arith) refl refl
          refl))
      (enters_write 0 (7 ∷ []) 1 refl (omega arith) (omega arith) (omega arith) refl refl refl)

-- The consumer's copies, and its store.
abbrev later : System ℕ
later = record both {
  consumer = Consumer.idle;
  read_pos = store 2 (record { value = λ k. 0; latest = 0 });
}

later-Run : Run 0 3 later (1 ∷ 2 ∷ []) (1 ∷ 2 ∷ [])
unfolding empty_out release store copy_out
later-Run =
    then_step (then_step both-Run (empties (0 ∷ 0 ∷ []) 2 0 refl refl refl refl))
      (releases (1 ∷ 2 ∷ []) 2 0 refl refl refl refl)

Run-stream_example : (◌≡◌ {A = List ℕ} (1 ∷ 2 ∷ []) (take 2 (1 ∷ 2 ∷ []))) × (2 ≤ 2) × (2 ≤ 2 + 3)
Run-stream_example = Run-stream 0 later-Run (omega arith) (omega arith) (inl (omega arith))

Run-empty_out_example :
    (u : System ℕ) × (out : List ℕ) × (empty_out (0 ∷ 0 ∷ []) 2 0 both ≡ some u)
    × (u.consumer ≡ Consumer.copied out 2 0)
    × (take 2 out ≡ 1 ∷ 2 ∷ [])
Run-empty_out_example =
    Run-empty_out 0 both-Run (omega arith) (omega arith) (inl (omega arith)) (0 ∷ 0 ∷ []) 2 0 refl

Run-races_example : (2 % 3 + 0) % 3 ≢ (0 % 3 + 1) % 3
Run-races_example =
    Run-races 0 both-Run (omega arith) (omega arith) (inl (omega arith)) (7 ∷ []) (0 ∷ 0 ∷ []) 1 2 2
      0 0 1 refl refl (omega arith) (omega arith)
