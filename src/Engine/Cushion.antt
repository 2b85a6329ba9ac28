-- ===== src/Engine/Cushion.antt =====
-- The prefill is enough: once the output has started, it never runs dry.
use noise_ai.Base.{
  ℕ, ◌+◌, ◌*◌, ◌≤◌, ◌<◌, ◌≡◌, sym, ap, ◌∙◌, true, false, Bool-cases, inl, inr, some, List, ◌++◌,
  arith, length, take, drop, length-append, length-take, length-drop, le→leb, u32,
}
use noise_ai.Float.{Float}
use noise_ai.Frames.{frame_size}
use noise_ai.Delay
use noise_ai.Delay.{Line}
use noise_ai.DeepFilter.{Ort}
use noise_ai.DeepFilter.Laws.{HasShapes}
use noise_ai.Engine.{Engine, RnNoise, is_running}
use noise_ai.Engine.Process.{output_prefill_samples, process_frame}
use noise_ai.Engine.Valid.{IsValid, KeepsFrames}
use noise_ai.Engine.Output.{line, render}
use noise_ai.Engine.Answer.{process_frame-Answers}

-- A line that has started, and has at least as many samples as are asked for, gives them.
step-gives :
    {F : Type 0} (prefill n : ℕ) (fresh : List F) (l : Line F)
    → l.started ≡ true
    → n ≤ length (l.queue ++ fresh)
    → Delay.step prefill fresh n l ≡ (
      some (take n (l.queue ++ fresh)),
      record { started = true; queue = drop n (l.queue ++ fresh) },
    )
unfolding Delay.step
step-gives prefill n fresh l on enough = rw (on, le→leb n (length (l.queue ++ fresh)) enough)

-- How many samples the line loses in a step, and that it starts with the prefill or not at all.
step_starts :
    {F : Type 0} (prefill n : ℕ) (fresh : List F) (l : Line F)
    → l.started ≡ false
    → (Delay.step prefill fresh n l).1.started ≡ true
    → (prefill ≤ length (l.queue ++ fresh))
      × (length (l.queue ++ fresh) ≤ length (Delay.step prefill fresh n l).1.queue + n)
unfolding Delay.step
step_starts prefill n fresh l off = ground (arith, length-drop n (l.queue ++ fresh))

prefill_size : output_prefill_samples ≡ frame_size + frame_size
unfolding output_prefill_samples
prefill_size = omega arith

module _ {F R S N : Type 0} where
  -- All samples in the engine: those waiting for the denoiser and those denoised.
  abbrev pub backlog : Engine F R S N → ℕ
  backlog e = length e.input_buffer + length (line e).queue

  -- Once started, the engine holds at least one sample less than a frame.
  abbrev pub IsCushioned : Engine F R S N → Type 0
  IsCushioned e = e.output_started ≡ true → frame_size ≤ backlog e + 1

module _ {F R S N : Type 0} ⦃f : Float F⦄ where
  module _ (rn : RnNoise F R) (ort : Ort F S N) (frames : KeepsFrames rn) (shapes : HasShapes ort)
      (elapsed : ℕ → F) (input output : List F) (n : ℕ) {e : Engine F R S N} (v : IsValid e)
      (run : is_running e.status ≡ true) (given : n * e.channels ≤ length input)
      (small : length input < u32) (room : n * e.channels ≤ length output)
      (small' : length output < u32) where
    -- With libraries that return whole frames, a running, well-formed engine and arrays of less
    -- than 2^32 samples that hold the call's frames: an engine whose output has started, and that
    -- holds at least a frame less one sample, answers a call for any number of frames with that
    -- many samples, never silence, and is such an engine after it.
    pub no_underrun :
        e.output_started ≡ true
        → IsCushioned e
        → (samples : List F) × (next : Engine F R S N) × (process_frame rn ort elapsed input output
              n e
            ≡ some (true, render e.channels n output (some samples), next))
          × (length samples ≡ n)
          × (next.output_started ≡ true)
          × IsCushioned next
          × IsValid next
    no_underrun on cushion =
        let a =
          process_frame-Answers rn ort frames shapes elapsed input output n {e = e} v run given
            small room small' in
        let pool = (line e).queue ++ a.fresh in
        let enough : n ≤ length pool =
          omega
            (arith, a.total, a.valid.waiting, cushion on, length-append (line e).queue a.fresh) in
        let gives = step-gives output_prefill_samples n a.fresh (line e) on enough in
        let view = a.view ∙ ap (λ g. g.1) gives in
        (
          take n pool,
          a.next,
          a.ran ∙ ap (λ g. some (true, render e.channels n output g.0, a.next)) gives,
          omega (arith, length-take n pool),
          ap (λ l. l.started) view,
          λ _. omega (
            arith,
            ap (λ l. length l.queue) view,
            length-drop n pool,
            a.total,
            cushion on,
            length-append (line e).queue a.fresh,
          ),
          a.valid,
        )

    -- With libraries that return whole frames, a running, well-formed engine and arrays of less
    -- than 2^32 samples that hold the call's frames: a call for at most 481 frames, on an engine
    -- that, if its output has started, holds at least a frame less one sample, returns true and
    -- leaves such an engine.
    pub process_frame-IsCushioned :
        n ≤ frame_size + 1
        → IsCushioned e
        → (output' : List F) × (next : Engine F R S N) × (process_frame rn ort elapsed input output
              n e
            ≡ some (true, output', next))
          × IsCushioned next
          × IsValid next
    process_frame-IsCushioned few cushion = elim (Bool-cases e.output_started) [
      | inl on ↦
          let (samples, next, ran, size, on', cushion', v') = no_underrun on cushion in
          (_, next, ran, cushion', v')
      | inr off ↦
          let a =
            process_frame-Answers rn ort frames shapes elapsed input output n {e = e} v run given
              small room small' in
          (
            _,
            a.next,
            a.ran,
            λ on'.
                let (filled, kept) =
                  step_starts output_prefill_samples n a.fresh (line e) off
                    (ap (λ l. l.started) (sym a.view) ∙ on') in
                omega (arith, filled, kept, ap (λ l. length l.queue) a.view, prefill_size),
            a.valid,
          )
    ]
