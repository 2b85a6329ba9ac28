-- ===== src/Engine/Tests/Overloads.antt =====
-- Overload at concrete inputs: slow chunks, and frames that pass as they are.
use noise_ai.Base.{
  ℕ, ◌≡◌, refl, true, false, some, List, [], ◌∷◌, arith, length, replicate, length-replicate,
}
use noise_ai.Float.Fixed.{ℤ, pos, fixed}
use noise_ai.Frames.{frame_size}
use noise_ai.Engine.{Engine}
use noise_ai.Engine.Chunk.{process_mono_chunk, overload_threshold_ms}
use noise_ai.Engine.Overload.{run_chunks, passed, overload_passes}
use noise_ai.Engine.Fallback.{run_chunks_falls_back}
use noise_ai.Engine.Switch.{switch, step, process_mono_chunk-step}
use noise_ai.Engine.Tests.{halving, halving-KeepsFrames, silent, silent-HasShapes, begun}

-- Five slow chunks were seen: three more pass as they are.
abbrev overloaded : Engine ℤ ℕ ℕ ℕ
overloaded = record begun {
  input_buffer = replicate 1500 (pos 7);
  overload_count = 5;
  overload_cooldown = 100;
  in_overload = true;
}

overloaded_size : length overloaded.input_buffer ≡ 1500
overloaded_size = length-replicate 1500 (pos 7)

overload_passes_example :
    run_chunks halving silent (pos 900 ∷ pos 100 ∷ pos 900 ∷ []) overloaded
    ≡ some (passed 3 overloaded)
unfolding frame_size
overload_passes_example =
    overload_passes halving silent (pos 900 ∷ pos 100 ∷ pos 900 ∷ []) overloaded refl (omega arith)
      (omega (arith, overloaded_size))

-- A fifth slow chunk.
abbrev slowed : Engine ℤ ℕ ℕ ℕ
slowed = record begun { input_buffer = replicate 480 (pos 7); overload_count = 4 }

process_mono_chunk-step_example :
    (next : Engine ℤ ℕ ℕ ℕ) × (process_mono_chunk halving silent (pos 900) slowed ≡ some next)
    × (switch next ≡ step (fixed.lt overload_threshold_ms (pos 900)) (switch slowed))
unfolding frame_size
process_mono_chunk-step_example =
    process_mono_chunk-step halving silent halving-KeepsFrames silent-HasShapes (pos 900) slowed
      (omega (arith, length-replicate 480 (pos 7))) refl tt
      (omega arith, omega arith, λ off. omega arith)

-- Seven frames, of which the first five are slow.
abbrev busy : Engine ℤ ℕ ℕ ℕ
busy = record begun { input_buffer = replicate 3400 (pos 7) }

abbrev times : List ℤ
times = pos 900 ∷ pos 900 ∷ pos 900 ∷ pos 900 ∷ pos 900 ∷ pos 100 ∷ pos 900 ∷ []

run_chunks_falls_back_example :
    (next : Engine ℤ ℕ ℕ ℕ) × (run_chunks halving silent times busy ≡ some next)
    × (next.in_overload ≡ true)
    × (next.overload_cooldown ≡ 98)
unfolding frame_size
run_chunks_falls_back_example =
    run_chunks_falls_back halving silent halving-KeepsFrames silent-HasShapes times
      (false ∷ true ∷ []) busy (omega (arith, length-replicate 3400 (pos 7))) refl tt (omega arith)
      refl refl refl (omega arith)
