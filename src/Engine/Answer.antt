-- ===== src/Engine/Answer.antt =====
-- The whole of `process_frame`: a running engine answers every call, without undefined behaviour,
-- as the delay line answers with the denoised samples, and stays well-formed.
use mathlib.Core.List.{append-nil}
use mathlib.Core.Path.{subst}
use noise_ai.Base.{
  ℕ, suc, ◌+◌, ◌*◌, ◌≤◌, ◌<◌, ◌≡◌, sym, ap, ap₂, ◌∙◌, Bool, true, Option, some, List, [], ◌++◌,
  arith, length, drop, length-append, drop-append_le, u32,
}
use noise_ai.Float.{Float}
use noise_ai.Delay
use noise_ai.Delay.{Line}
use noise_ai.DeepFilter.{Ort}
use noise_ai.DeepFilter.Laws.{HasShapes}
use noise_ai.Engine.{Engine, RnNoise, is_running, is_set}
use noise_ai.Engine.Process.{output_prefill_samples, to_mono, process_frame}
use noise_ai.Engine.Heard.{Voice, voice, Frames}
use noise_ai.Engine.Valid.{IsValid, KeepsFrames}
use noise_ai.Engine.Loop.{process_chunks-Drains}
use noise_ai.Engine.Interleave.{means, length-means, to_mono-means}
use noise_ai.Engine.Output.{line, render, drain_output-Delivers}

-- Samples that join the queue within a step may as well be queued before it.
step-queued :
    {F : Type 0} (prefill n : ℕ) (started : Bool) (q xs : List F)
    → Delay.step prefill [] n (record { started = started; queue = q ++ xs })
      ≡ Delay.step prefill xs n (record { started = started; queue = q })
unfolding Delay.step
step-queued prefill n started q xs = rw (append-nil (q ++ xs))

module _ {F R S N : Type 0} ⦃f : Float F⦄ where
  -- The answer to a call for `n` frames: `fresh` is what the whole frames of the samples that
  -- waited, and of the means of the call's frames behind them, become.
  pub record Answers (rn : RnNoise F R) (ort : Ort F S N) (elapsed : ℕ → F) (input : List F)
      (e : Engine F R S N) (n : ℕ) (output : List F) (r : Option (Bool × List F × Engine F R S N))
      : Type 0 where
    pub next : Engine F R S N
    pub fresh : List F
    pub denoised :
        Frames rn ort elapsed 0
          (voice e)
          (e.input_buffer ++ means e.channels input n)
          fresh
          next.input_buffer
          (voice next)
    pub ran :
        r
        ≡ some (
          true,
          render e.channels n output (Delay.step output_prefill_samples fresh n (line e)).0,
          next,
        )
    pub view : line next ≡ (Delay.step output_prefill_samples fresh n (line e)).1
    pub total : length next.input_buffer + length fresh ≡ length e.input_buffer + n
    pub status : next.status ≡ e.status
    pub channels : next.channels ≡ e.channels
    pub valid : IsValid next

  module _ (rn : RnNoise F R) (ort : Ort F S N) (frames : KeepsFrames rn)
      (shapes : HasShapes ort) where
    -- With libraries that return whole frames, a running, well-formed engine, and arrays of less
    -- than 2^32 samples that hold the call's frames: `process_frame` has no undefined behaviour
    -- and returns true. The samples that waited, with the means of the channels of the call's
    -- frames behind them, go in whole frames, in order, through the denoiser that the mode and
    -- the model choose, with the wet and the dry share mixed for the model, or past it in
    -- overload; what is left of them waits. The output is what the delay line gives for the
    -- samples so made, on every channel and clipped, or silence. The states of the denoisers and
    -- the overload counters are those after the last frame, and the engine stays well-formed.
    pub process_frame-Answers :
        (elapsed : ℕ → F) (input output : List F) (n : ℕ) {e : Engine F R S N}
        → IsValid e
        → is_running e.status ≡ true
        → n * e.channels ≤ length input
        → length input < u32
        → n * e.channels ≤ length output
        → length output < u32
        → Answers rn ort elapsed input e n output (process_frame rn ort elapsed input output n e)
    unfolding process_frame
    process_frame-Answers elapsed input output n {e} v run given small room small' =
        let d =
          process_chunks-Drains rn ort frames shapes (suc (length (e.input_buffer ++ samples)))
            elapsed 0 (record e { input_buffer = e.input_buffer ++ samples }) (omega arith) set
            v.model in
        let s = d.steps in
        let queued : line d.next
            ≡ record { started = e.output_started; queue = (line e).queue ++ d.out } =
          ap₂ (λ b q. record { started = b; queue = q }) s.started
            (ap₂ drop s.position d.output
              ∙ drop-append_le e.output_read_pos e.output_buffer d.out v.position) in
        let same : Delay.step output_prefill_samples [] n (line d.next)
            ≡ Delay.step output_prefill_samples d.out n (line e) =
          ap (Delay.step output_prefill_samples [] n) queued
          ∙ step-queued output_prefill_samples n e.output_started (line e).queue d.out in
        let o =
          drain_output-Delivers n output d.next
            (omega (
              arith,
              s.position,
              ap length d.output,
              length-append e.output_buffer d.out,
              v.position,
            ))
            (rw s.channels room) small' in
        rw (run, set, mono, d.ran, o.ran)
          (record {
            next = o.next;
            fresh = d.out;
            denoised =
                subst
                  (λ (end : List F × Voice F R S N).
                    Frames rn ort elapsed 0 (voice e) (e.input_buffer ++ samples) d.out end.0 end.1)
                  (λ i. (sym o.input i, sym o.still i)) d.frames;
            ran =
                ap₂ (λ c g. some (true, render c n output g, o.next)) s.channels
                  (ap (λ g. g.0) same);
            view = o.view ∙ ap (λ g. g.1) same;
            total = omega (
              arith,
              d.total,
              ap length o.input,
              length-append e.input_buffer samples,
              length-means e.channels input n,
            );
            status = o.status ∙ s.status;
            channels = o.channels ∙ s.channels;
            valid = record {
              position = o.position;
              waiting = omega (arith, d.waiting, ap length o.input);
              denoiser = λ _. ap is_set o.denoiser ∙ s.denoiser ∙ set;
              model = rw o.model s.model;
              cooldown = omega (arith, o.cooldown, d.cooldown v.cooldown);
            };
          })
      where
        set : is_set e.rnnoise_state ≡ true
        set = v.denoiser run

        samples : List F
        samples = means e.channels input n

        mono : to_mono e.channels input n 0 ≡ some samples
        mono =
            let a : 0 + n ≡ n = omega arith in
            let b : 0 * e.channels ≡ 0 = omega arith in
            to_mono-means e.channels input n 0 (rw a given) small
            ∙ ap (λ k. some (means e.channels (drop k input) n)) b
