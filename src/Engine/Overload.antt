-- ===== src/Engine/Overload.antt =====
-- The overload switch over runs of chunks: five slow ones in a row turn inference off, and
-- exactly the cooldown's number of chunks then pass unchanged.
use mathlib.Core.List.{append-nil, append_assoc}
use noise_ai.Base.{
  take-add, ℕ, suc, ◌+◌, ◌-◌, ◌*◌, ◌≤◌, ◌<◌, ◌≡◌, sym, ap, ◌∙◌, true, Option, some, List, [], ◌∷◌,
  ◌++◌, arith, length, take, drop, length-drop, drop-drop, lt→ltb, if-true, ◌>>=◌,
}
use noise_ai.Float.{Float}
use noise_ai.Frames.{frame_size, read_block-some}
use noise_ai.DeepFilter.{Ort}
use noise_ai.Engine.{Engine, RnNoise}
use noise_ai.Engine.Chunk.{put_frame, process_mono_chunk}

module _ {F R S N : Type 0} ⦃f : Float F⦄ where
  -- The engine with what `n` chunks past the denoiser change.
  abbrev pub passed : ℕ → Engine F R S N → Engine F R S N
  passed n e = record e {
    output_buffer = e.output_buffer ++ take (n * frame_size) e.input_buffer;
    input_buffer = drop (n * frame_size) e.input_buffer;
    overload_cooldown = e.overload_cooldown - n;
  }

  fields :
      (e : Engine F R S N) {b b' i i' : List F} {c c' : ℕ}
      → b ≡ b'
      → i ≡ i'
      → c ≡ c'
      → ◌≡◌ {A = Engine F R S N}
          (record e { output_buffer = b; input_buffer = i; overload_cooldown = c })
          (record e { output_buffer = b'; input_buffer = i'; overload_cooldown = c' })
  fields e p q r =
      λ j. record e { output_buffer = p j; input_buffer = q j; overload_cooldown = r j }

  module _ (rn : RnNoise F R) (ort : Ort F S N) where
    -- Chunks one after another, with what the clock measures of each.
    unfoldable pub run_chunks : List F → Engine F R S N → Option (Engine F R S N)
    run_chunks [] e = some e
    run_chunks (ms ∷ elapsed) e = process_mono_chunk rn ort ms e >>= run_chunks elapsed

    pass_chunk :
        (ms : F) (e : Engine F R S N)
        → frame_size ≤ length e.input_buffer
        → e.in_overload ≡ true
        → 0 < e.overload_cooldown
        → process_mono_chunk rn ort ms e
          ≡ some (
              put_frame
                (take frame_size e.input_buffer)
                (record e { overload_cooldown = e.overload_cooldown - 1 }))
    unfolding process_mono_chunk
    pass_chunk ms e whole over cooling =
        rw (read_block-some frame_size e.input_buffer whole, lt→ltb 0 e.overload_cooldown cooling)
          (if-true e.in_overload _ _ over)

    -- In overload, a run of chunks that are waiting, of at most the cooldown's number, goes to
    -- the output as it is and in order, and each counts the cooldown down by one; nothing else
    -- changes, whatever the clock measures.
    pub overload_passes :
        (elapsed : List F) (e : Engine F R S N)
        → e.in_overload ≡ true
        → length elapsed ≤ e.overload_cooldown
        → length elapsed * frame_size ≤ length e.input_buffer
        → run_chunks elapsed e ≡ some (passed (length elapsed) e)
    unfolding run_chunks
    overload_passes [] e over cooling enough =
        let none : 0 * frame_size ≡ 0 = omega arith in
        ap some (
          fields e
            (sym (append-nil e.output_buffer)
              ∙ ap (λ k. e.output_buffer ++ take k e.input_buffer) (sym none))
            (ap (λ k. drop k e.input_buffer) (sym none)) (omega arith))
    overload_passes (ms ∷ elapsed) e over cooling enough =
        let k = length elapsed in
        let more : frame_size + k * frame_size ≡ suc k * frame_size = omega arith in
        let whole : frame_size ≤ length e.input_buffer = omega (arith, more) in
        let next : Engine F R S N =
          put_frame (take frame_size e.input_buffer)
            (record e { overload_cooldown = e.overload_cooldown - 1 }) in
        rw (pass_chunk ms e whole over (omega arith)) (
          overload_passes elapsed next over (omega arith)
            (omega (arith, more, length-drop frame_size e.input_buffer))
          ∙ ap some (
              fields e
                (append_assoc e.output_buffer (take frame_size e.input_buffer) _
                  ∙ ap (◌++◌ e.output_buffer) (
                      sym (take-add frame_size (k * frame_size) e.input_buffer)
                      ∙ ap (λ t. take t e.input_buffer) more))
                (drop-drop (k * frame_size) frame_size e.input_buffer
                  ∙ ap (λ t. drop t e.input_buffer) more)
                (omega arith)))
