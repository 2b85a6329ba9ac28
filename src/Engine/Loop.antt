-- ===== src/Engine/Loop.antt =====
-- The loop over whole chunks: it ends within its fuel, leaves less than a frame waiting, and
-- turns every sample that it takes into a sample of the output.
use noise_ai.Base.{
  ℕ, zero, suc, ◌+◌, ◌-◌, ◌≤◌, ◌<◌, ◌≡◌, refl, sym, ap, ◌∙◌, true, Option, some, List, [], ◌++◌,
  arith, length, length-append, length-drop, le→leb, lt→leb,
}
use native.Mathlib.Decide.{dec_le}
use mathlib.Core.Path.{subst}
use mathlib.Core.List.{append-nil, append_assoc}
use noise_ai.Float.{Float}
use noise_ai.Frames.{frame_size}
use noise_ai.DeepFilter.{Ort}
use noise_ai.DeepFilter.Laws.{IsModel, HasShapes}
use noise_ai.Engine.{Engine, RnNoise, is_set}
use noise_ai.Engine.Chunk.{overload_cooldown_frames}
use noise_ai.Engine.Process.{process_chunks}
use noise_ai.Engine.Valid.{Each, KeepsFrames}
use noise_ai.Engine.Heard.{voice, Frames, frame, waits}
use noise_ai.Engine.Denoise.{Steps}
use noise_ai.Engine.Chunks.{process_mono_chunk-Chunks}

module _ {F R S N : Type 0} where
  -- The loop ends in `next`, with the samples `out` added to the output: what the samples that
  -- waited are to become, frame by frame.
  pub record Drains ⦃f : Float F⦄ (rn : RnNoise F R) (ort : Ort F S N) (elapsed : ℕ → F) (k : ℕ)
      (e : Engine F R S N) (r : Option (Engine F R S N)) : Type 0 where
    pub next : Engine F R S N
    pub out : List F
    pub ran : r ≡ some next
    pub frames : Frames rn ort elapsed k (voice e) e.input_buffer out next.input_buffer (voice next)
    pub steps : Steps e next
    pub output : next.output_buffer ≡ e.output_buffer ++ out
    pub waiting : length next.input_buffer < frame_size
    pub total : length next.input_buffer + length out ≡ length e.input_buffer
    pub cooldown :
        e.overload_cooldown ≤ overload_cooldown_frames
        → next.overload_cooldown ≤ overload_cooldown_frames

  Steps-trans : {a b c : Engine F R S N} → Steps a b → Steps b c → Steps a c
  Steps-trans s t = record {
    mode = t.mode ∙ s.mode;
    status = t.status ∙ s.status;
    channels = t.channels ∙ s.channels;
    dry_mix = t.dry_mix ∙ s.dry_mix;
    position = t.position ∙ s.position;
    started = t.started ∙ s.started;
    denoiser = t.denoiser ∙ s.denoiser;
    model = t.model;
  }

frame_size_pos : 0 < frame_size
unfolding frame_size
frame_size_pos = omega arith

module _ {F R S N : Type 0} ⦃f : Float F⦄ where
  module _ (rn : RnNoise F R) (ort : Ort F S N) (frames : KeepsFrames rn)
      (shapes : HasShapes ort) where
    -- With libraries that return whole frames, an RNNoise state and a well-formed model: on any
    -- fuel above the number of samples that wait, the loop over whole chunks ends without
    -- undefined behaviour and with less than a frame waiting; it adds to the output what the
    -- frames that it takes are to become, a sample for each sample.
    pub process_chunks-Drains :
        (fuel : ℕ) (elapsed : ℕ → F) (k : ℕ) (e : Engine F R S N)
        → length e.input_buffer < fuel
        → is_set e.rnnoise_state ≡ true
        → Each IsModel e.deepfilter
        → Drains rn ort elapsed k e (process_chunks rn ort fuel elapsed k e)
    unfolding process_chunks
    process_chunks-Drains zero elapsed k e enough set model = absurd (omega arith)
    process_chunks-Drains (suc fuel) elapsed k e enough set model =
        elim (dec_le frame_size (length e.input_buffer)) [
          | yes whole ↦
              let c =
                process_mono_chunk-Chunks rn ort frames shapes (elapsed k) {e = e} whole set
                  model in
              let s = c.takes.steps in
              let left : length c.next.input_buffer ≡ length e.input_buffer - frame_size =
                ap length c.takes.input ∙ length-drop frame_size e.input_buffer in
              let d =
                process_chunks-Drains fuel elapsed (k + 1) c.next (omega (arith, frame_size_pos))
                  (s.denoiser ∙ set) s.model in
              rw (le→leb frame_size (length e.input_buffer) whole, c.ran)
                (record {
                  next = d.next;
                  out = c.out ++ d.out;
                  ran = d.ran;
                  frames = frame whole c.framed (
                      subst
                        (λ (xs : List F).
                          Frames rn ort elapsed (k + 1) (voice c.next) xs d.out d.next.input_buffer
                            (voice d.next))
                        c.takes.input d.frames);
                  steps = Steps-trans s d.steps;
                  output =
                      d.output
                      ∙ ap (λ b. b ++ d.out) c.takes.output
                      ∙ append_assoc e.output_buffer c.out d.out;
                  waiting = d.waiting;
                  total = omega (arith, length-append c.out d.out, d.total, c.takes.size);
                  cooldown = λ h. d.cooldown (c.cooldown h);
                })
          | no few ↦ rw (lt→leb frame_size (length e.input_buffer) (omega arith)) (record {
            next = e;
            out = [];
            ran = refl;
            frames = waits (omega arith);
            steps = record {
              mode = refl;
              status = refl;
              channels = refl;
              dry_mix = refl;
              position = refl;
              started = refl;
              denoiser = refl;
              model = model;
            };
            output = sym (append-nil e.output_buffer);
            waiting = omega arith;
            total = omega arith;
            cooldown = λ h. h;
          })
        ]
