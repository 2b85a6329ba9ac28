-- ===== src/Spsc/Tests.antt =====
-- Runs of the ring buffer at concrete inputs, as engine/tests/test_ring_buffer.cpp makes them.
use noise_ai.Base.{ℕ, ◌≡◌, refl, inl, true, false, some, List, [], ◌∷◌, arith}
use noise_ai.Queue.{Call, writes, reads, resets, Reply, wrote, got, done}
use noise_ai.Queue
use noise_ai.Circular.{copy_in, copy_out}
use noise_ai.Spsc.{make, write, read, reset, step, run}
use noise_ai.Spsc.Refine.{make-IsRing}
use noise_ai.Spsc.Runs.{run_refines}

-- A capacity that does not divide 2^64, and calls that go round the end of the array.
abbrev script : List (Call ℕ)
script =
    writes (1 ∷ 2 ∷ 3 ∷ []) 3
    ∷ reads (0 ∷ 0 ∷ []) 2
    ∷ writes (4 ∷ 5 ∷ 6 ∷ []) 3
    ∷ writes (7 ∷ 8 ∷ []) 2
    ∷ reads (0 ∷ 0 ∷ 0 ∷ 0 ∷ []) 4
    ∷ reads (9 ∷ []) 1
    ∷ resets
    ∷ []

run-script :
    run (make 0 5) script
    ≡ some (
        wrote true
        ∷ got true (1 ∷ 2 ∷ [])
        ∷ wrote true
        ∷ wrote false
        ∷ got true (3 ∷ 4 ∷ 5 ∷ 6 ∷ [])
        ∷ got false (9 ∷ [])
        ∷ done
        ∷ [])
unfolding run step make write read reset copy_in copy_out
run-script = refl

run_refines_example : run (make 0 5) script ≡ some (Queue.run 5 [] script)
unfolding make
run_refines_example =
    run_refines 0 script (make-IsRing 0 5 (omega arith) (omega arith)) (omega arith)
      (inl (omega arith))
