-- ===== src/Engine/Chunks.antt =====
-- One chunk through the engine, in overload or not: exactly one frame in and one frame out, and
-- the overload counters stay within their bounds.
use mathlib.Core.Path.{subst}
use noise_ai.Base.{
  ◌<◌, ltb, ltb→lt, sym, ◌∙◌, ◌-◌, ◌≤◌, ◌≡◌, refl, ap, Bool, true, false, Option, some, List, ◌++◌,
  arith, length, take, drop, length-take, if◌then◌else◌,
}
use noise_ai.Float.{Float}
use noise_ai.Frames.{frame_size, read_block-some}
use noise_ai.DeepFilter.{Ort}
use noise_ai.DeepFilter.Laws.{IsModel, HasShapes}
use noise_ai.Engine.{Engine, RnNoise, is_set}
use noise_ai.Engine.Chunk.{
  put_frame, timed_chunk, process_mono_chunk, overload_cooldown_frames, overload_threshold_ms,
}
use noise_ai.Engine.Valid.{Each, KeepsFrames}
use noise_ai.Engine.Heard.{Voice, voice, counted, Denoised, Framed, passes, recovers, runs}
use noise_ai.Engine.Counters.{update_overload_shape, update_overload-counted}
use noise_ai.Engine.Denoise.{Takes, denoise_frame-Denoises}

module _ {F R S N : Type 0} where
  -- A call of `process_mono_chunk` takes a frame and leaves a frame; `P` says which, and what it
  -- leaves of the engine.
  pub record Chunks (P : List F → Engine F R S N → Type 0) (e : Engine F R S N)
      (r : Option (Engine F R S N)) : Type 0 where
    pub next : Engine F R S N
    pub out : List F
    pub ran : r ≡ some next
    pub framed : P out next
    pub takes : Takes e next out
    pub cooldown :
        e.overload_cooldown ≤ overload_cooldown_frames
        → next.overload_cooldown ≤ overload_cooldown_frames

  if-Chunks :
      {P : List F → Engine F R S N → Type 0} {e : Engine F R S N} (b : Bool)
      {x y : Option (Engine F R S N)}
      → (b ≡ true → Chunks P e x)
      → (b ≡ false → Chunks P e y)
      → Chunks P e (if b then x else y)
  if-Chunks true p q = p refl
  if-Chunks false p q = q refl

  -- The same run, with something else said of what it leaves.
  Chunks-map :
      {P Q : List F → Engine F R S N → Type 0} {e : Engine F R S N} {x : Option (Engine F R S N)}
      → ((out : List F) → (next : Engine F R S N) → P out next → Q out next)
      → Chunks P e x
      → Chunks Q e x
  Chunks-map says c = record {
    next = c.next;
    out = c.out;
    ran = c.ran;
    framed = says c.out c.next c.framed;
    takes = c.takes;
    cooldown = c.cooldown;
  }

  -- Leaving the overload changes nothing that `Chunks` speaks of.
  of_recovered :
      {P : List F → Engine F R S N → Type 0} {e : Engine F R S N} {x : Option (Engine F R S N)}
      → Chunks P (record e { in_overload = false; overload_count = 0 }) x
      → Chunks P e x
  of_recovered c = record {
    next = c.next;
    out = c.out;
    ran = c.ran;
    framed = c.framed;
    takes = record {
      steps = record {
        mode = s.mode;
        status = s.status;
        channels = s.channels;
        dry_mix = s.dry_mix;
        position = s.position;
        started = s.started;
        denoiser = s.denoiser;
        model = s.model;
      };
      output = c.takes.output;
      input = c.takes.input;
      size = c.takes.size;
    };
    cooldown = c.cooldown;
  }
    where
      open c.takes use {steps as s}

module _ {F R S N : Type 0} ⦃f : Float F⦄ where
  module _ (rn : RnNoise F R) (ort : Ort F S N) (frames : KeepsFrames rn)
      (shapes : HasShapes ort) where
    -- What a chunk that is timed leaves.
    abbrev Timed : F → List F → Engine F R S N → List F → Engine F R S N → Type 0
    Timed elapsed_ms input e out next =
        (v : Voice F R S N) × Denoised rn ort input (voice e) out v
        × (voice next ≡ counted (f.lt overload_threshold_ms elapsed_ms) v)

    timed_chunk-Chunks :
        (elapsed_ms : F) (input : List F) {e : Engine F R S N}
        → length input ≡ frame_size
        → is_set e.rnnoise_state ≡ true
        → Each IsModel e.deepfilter
        → Chunks (Timed elapsed_ms input e) e (timed_chunk rn ort elapsed_ms input e)
    unfolding timed_chunk
    timed_chunk-Chunks elapsed_ms input {e} size set model =
        let d = denoise_frame-Denoises rn ort frames shapes input {e = e} size set model in
        let (count, passing, cooldown, shape, bound) = update_overload_shape elapsed_ms d.next in
        let s = d.steps in
        record {
          next = put_frame d.out (record d.next {
            overload_count = count;
            in_overload = passing;
            overload_cooldown = cooldown;
          });
          out = d.out;
          ran = rw (d.ran, shape);
          framed = (
            voice d.next,
            d.denoised,
            ap voice (sym shape) ∙ update_overload-counted elapsed_ms d.next,
          );
          takes = record {
            steps = record {
              mode = s.mode;
              status = s.status;
              channels = s.channels;
              dry_mix = s.dry_mix;
              position = s.position;
              started = s.started;
              denoiser = s.denoiser;
              model = s.model;
            };
            output = ap (λ b. b ++ d.out) d.output;
            input = ap (drop frame_size) d.input;
            size = d.size;
          };
          cooldown = λ h. bound (omega (arith, d.cooldown));
        }

    -- What a chunk leaves.
    abbrev pub Leaves : F → Engine F R S N → List F → Engine F R S N → Type 0
    Leaves elapsed_ms e out next =
        Framed rn ort (f.lt overload_threshold_ms elapsed_ms) (take frame_size e.input_buffer)
          (voice e) out (voice next)

    -- With a whole frame waiting and the denoisers in order, a chunk has no undefined behaviour,
    -- takes one frame, and leaves what it is to leave for it.
    pub process_mono_chunk-Chunks :
        (elapsed_ms : F) {e : Engine F R S N}
        → frame_size ≤ length e.input_buffer
        → is_set e.rnnoise_state ≡ true
        → Each IsModel e.deepfilter
        → Chunks (Leaves elapsed_ms e) e (process_mono_chunk rn ort elapsed_ms e)
    unfolding process_mono_chunk
    process_mono_chunk-Chunks elapsed_ms {e} whole set model =
        rw (read_block-some frame_size e.input_buffer whole) (
          if-Chunks e.in_overload
            (λ over.
              if-Chunks (ltb 0 e.overload_cooldown)
                (λ cooling. passed_on over (ltb→lt 0 e.overload_cooldown cooling))
                (λ expired.
                  Chunks-map
                    (λ out next. λ (v, out_of, at).
                      subst (Framed rn ort slow input (voice e) out) (sym at)
                        (recovers over (none_left expired) out_of))
                    (of_recovered (
                      timed_chunk-Chunks elapsed_ms input
                        {e = record e { in_overload = false; overload_count = 0 }} size set
                        model))))
            (λ normal.
              Chunks-map
                (λ out next. λ (v, out_of, at).
                  subst (Framed rn ort slow input (voice e) out) (sym at) (runs normal out_of))
                (timed_chunk-Chunks elapsed_ms input size set model)))
      where
        input : List F
        input = take frame_size e.input_buffer

        slow : Bool
        slow = f.lt overload_threshold_ms elapsed_ms

        size : length input ≡ frame_size
        size = omega (arith, length-take frame_size e.input_buffer)

        none_left : ltb 0 e.overload_cooldown ≡ false → e.overload_cooldown ≡ 0
        none_left h = ground arith

        passed_on :
            e.in_overload ≡ true
            → 0 < e.overload_cooldown
            → Chunks
                (Leaves elapsed_ms e)
                e
                (some (put_frame input (record e { overload_cooldown = e.overload_cooldown - 1 })))
        passed_on over some_left = record {
          next = put_frame input (record e { overload_cooldown = e.overload_cooldown - 1 });
          out = input;
          ran = refl;
          framed = passes over some_left;
          takes = record {
            steps = record {
              mode = refl;
              status = refl;
              channels = refl;
              dry_mix = refl;
              position = refl;
              started = refl;
              denoiser = refl;
              model = model;
            };
            output = refl;
            input = refl;
            size = size;
          };
          cooldown = λ h. omega arith;
        }
