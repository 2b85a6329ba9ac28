-- ===== src/Engine/Trials.antt =====
-- The loop over chunks, the limits and refusals, at concrete inputs.
use noise_ai.Base.{
  ℕ, ◌+◌, ◌/◌, ◌≡◌, refl, true, false, none, some, List, [], ◌∷◌, ◌++◌, ◌>>=◌, arith, length, take,
  replicate, length-replicate,
}
use noise_ai.Float.{one}
use noise_ai.Float.Order.{AllWithin}
use noise_ai.Float.Fixed.{ℤ, pos, fixed, Fixed-IsOrdered}
use noise_ai.Frames.{frame_size}
use noise_ai.Engine.{Engine, make, is_running, max_quality}
use noise_ai.Engine.Lifecycle.{init}
use noise_ai.Engine.Process.{process_chunks, process_frame}
use noise_ai.Engine.Loop.{Drains, process_chunks-Drains}
use noise_ai.Engine.Partition.{denoise, denoise-append}
use noise_ai.Engine.Limits.{process_frame-AllWithin}
use noise_ai.Engine.Api.{Call, shuts, sets_mode, processes}
use noise_ai.Engine.Refusal.{apply_all, idle_refuses}
use noise_ai.Engine.Tests.{
  halving, halving-KeepsFrames, silent, silent-HasShapes, begun, begun-IsValid, quiet,
}

abbrev waiting : Engine ℤ ℕ ℕ ℕ
waiting = record begun { input_buffer = replicate 1000 (pos 7) }

process_chunks-Drains_example :
    Drains halving silent quiet 0 waiting (process_chunks halving silent 1001 quiet 0 waiting)
process_chunks-Drains_example =
    process_chunks-Drains halving silent halving-KeepsFrames silent-HasShapes 1001 quiet 0 waiting
      (omega (arith, length-replicate 1000 (pos 7))) refl tt

denoise-append_example :
    denoise halving silent halving-KeepsFrames silent-HasShapes
      (replicate 300 (pos 4) ++ replicate 500 (pos 9))
      quiet
      0
      waiting
    ≡ (denoise halving silent halving-KeepsFrames silent-HasShapes
          (replicate 300 (pos 4))
          quiet
          0
          waiting
        >>= denoise halving silent halving-KeepsFrames silent-HasShapes
            (replicate 500 (pos 9))
            quiet
            ((length waiting.input_buffer + length (replicate 300 (pos 4))) / frame_size))
denoise-append_example =
    denoise-append halving silent halving-KeepsFrames silent-HasShapes quiet (replicate 300 (pos 4))
      (replicate 500 (pos 9)) waiting refl tt

abbrev frames : List ℤ
frames = pos 250 ∷ pos 30 ∷ pos 50 ∷ pos 900 ∷ []

process_frame-AllWithin_example :
    (output' : List ℤ) × (next : Engine ℤ ℕ ℕ ℕ) × (process_frame halving silent quiet frames frames
        2 begun
      ≡ some (true, output', next))
    × AllWithin (fixed.neg one) one (take 4 output')
unfolding is_running
process_frame-AllWithin_example =
    process_frame-AllWithin Fixed-IsOrdered (refl, refl) halving silent halving-KeepsFrames
      silent-HasShapes quiet frames frames 2 begun-IsValid refl (omega arith) (omega arith)
      (omega arith) (omega arith)

-- RNNoise gave no state.
abbrev failed : Engine ℤ ℕ ℕ ℕ
failed =
    (init silent (record { exe = none; exists = λ path. false }) none
      (record { sample_rate = 48000; channels = 2; frames_per_buffer = 480 }) make).1

abbrev calls : List (Call ℤ ℕ)
calls = sets_mode max_quality ∷ processes quiet frames frames 2 ∷ shuts ∷ []

idle_refuses_example :
    (last : Engine ℤ ℕ ℕ ℕ) × (apply_all halving silent calls failed ≡ some last)
    × (is_running last.status ≡ false)
    × (process_frame halving silent quiet frames frames 2 last ≡ some (false, frames, last))
unfolding init is_running
idle_refuses_example = idle_refuses halving silent calls tt failed refl quiet frames frames 2
