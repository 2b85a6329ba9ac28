-- ===== src/Engine/Output.antt =====
-- Step 3 of `process_frame` is the delay line: neither the read position nor the compaction of
-- the output buffer shows.
use mathlib.Core.List.{append-nil}
use noise_ai.Base.{
  ℕ, ◌+◌, ◌-◌, ◌*◌, ◌≤◌, ◌<◌, ◌≡◌, refl, sym, ap, ◌∙◌, Bool, Bool-cases, inl, inr, ◌&&◌, ◌||◌,
  Option, none, some, List, [], ◌++◌, arith, length, take, drop, map, length-drop, take-append-drop,
  length-take, drop-drop, leb, ltb, le→leb, mul32, u32, memcpy, memcpy-some, overwrite,
  overwrite_start, leb→le, and_right, ◌>>=◌, take-length,
}
use noise_ai.Float.{Float, clip}
use noise_ai.Frames.{zeros, length-zeros}
use noise_ai.Delay
use noise_ai.Delay.{Line}
use noise_ai.Engine.{Engine}
use noise_ai.Engine.Heard.{voice}
use noise_ai.Engine.Process.{output_prefill_samples, compact, from_mono, drain_output}
use noise_ai.Engine.Interleave.{spread, from_mono-spread}

module _ {F R S N : Type 0} where
  -- The delay line that the engine's output buffer stands for.
  abbrev pub line : Engine F R S N → Line F
  line e = record { started = e.output_started; queue = drop e.output_read_pos e.output_buffer }

-- What the caller's array of frames holds: the samples given, on every channel, or silence. The
-- rest of the array stays.
abbrev pub render : {F : Type 0} ⦃f : Float F⦄ → ℕ → ℕ → List F → Option (List F) → List F
render c n output none = zeros (n * c) ++ drop (n * c) output
render c n output (some xs) = spread c (map clip xs) ++ drop (n * c) output

module _ {F R S N : Type 0} where
  -- The output is given as the line says; the rest of the engine stays.
  pub record Delivers (e : Engine F R S N) (given : Line F) (output : List F)
      (r : Option (List F × Engine F R S N)) : Type 0 where
    pub next : Engine F R S N
    pub ran : r ≡ some (output, next)
    pub view : line next ≡ given
    pub position : next.output_read_pos ≤ length next.output_buffer
    pub input : next.input_buffer ≡ e.input_buffer
    pub status : next.status ≡ e.status
    pub channels : next.channels ≡ e.channels
    pub denoiser : next.rnnoise_state ≡ e.rnnoise_state
    pub model : next.deepfilter ≡ e.deepfilter
    pub cooldown : next.overload_cooldown ≡ e.overload_cooldown
    pub still : voice next ≡ voice e

module _ {F R S N : Type 0} ⦃f : Float F⦄ where
  compact_lem :
      (e : Engine F R S N)
      → e.output_read_pos ≤ length e.output_buffer
      → (p : ℕ) × (b : List F) × (compact e
          ≡ some (record e { output_buffer = b; output_read_pos = p }))
        × (p ≤ length b)
        × (drop p b ≡ drop e.output_read_pos e.output_buffer)
  unfolding compact
  compact_lem e h = elim (Bool-cases (ltb output_prefill_samples e.output_read_pos)) [
    | inl many ↦
        rw (many, le→leb e.output_read_pos (length e.output_buffer) h)
          (0, drop e.output_read_pos e.output_buffer, refl, omega arith, refl)
    | inr few ↦ rw few (e.output_read_pos, e.output_buffer, refl, h, refl)
  ]

  module _ (n : ℕ) (output : List F) (e : Engine F R S N)
      (inside : e.output_read_pos ≤ length e.output_buffer) (room : n * e.channels ≤ length output)
      (small : length output < u32) where
    queue : List F
    queue = drop e.output_read_pos e.output_buffer

    ready : length e.output_buffer - e.output_read_pos ≡ length queue
    unfolding queue
    ready = sym (length-drop e.output_read_pos e.output_buffer)

    begun : Bool → Engine F R S N
    begun started = record e { output_started = started }

    -- The samples go out on every channel.
    give :
        (started : Bool)
        → n ≤ length queue
        → Delivers e
            (record { started = started; queue = drop n queue })
            (render e.channels n output (some (take n queue)))
            (from_mono e.channels e.output_buffer e.output_read_pos n 0 output >>= λ output'.
              compact
                (record e { output_started = started; output_read_pos = e.output_read_pos + n })
              >>= λ e'. some (output', e'))
    unfolding queue
    give started enough =
        let taken : ℕ = e.output_read_pos + n in
        let within : taken ≤ length e.output_buffer = omega (arith, ready) in
        let (p, b, compacted, le, same) =
          compact_lem (record e { output_started = started; output_read_pos = taken }) within in
        rw (written, compacted)
          (record {
            next = record e { output_started = started; output_buffer = b; output_read_pos = p };
            ran = refl;
            view =
                ap (λ q. record { started = started; queue = q })
                  (same ∙ sym (drop-drop n e.output_read_pos e.output_buffer));
            position = le;
            input = refl;
            status = refl;
            channels = refl;
            denoiser = refl;
            model = refl;
            cooldown = refl;
            still = refl;
          })
      where
        start : e.output_read_pos + 0 ≡ e.output_read_pos
        start = omega arith

        written :
            from_mono e.channels e.output_buffer e.output_read_pos n 0 output
            ≡ some (render e.channels n output (some (take n queue)))
        written =
            let whole = take-append-drop (n * e.channels) output in
            ap (from_mono e.channels e.output_buffer e.output_read_pos n 0) (sym whole)
            ∙ from_mono-spread e.channels e.output_buffer e.output_read_pos n 0 []
                (take (n * e.channels) output) (drop (n * e.channels) output) (omega (arith, ready))
                (omega arith) (omega (arith, length-take (n * e.channels) output))
                (omega (arith, ap length whole))
            ∙ ap
                (λ i. some (
                  spread e.channels (map clip (take n (drop i e.output_buffer)))
                  ++ drop (n * e.channels) output))
                start

    -- Silence, while there are too few samples.
    wait :
        (started : Bool)
        → Delivers e
            (record { started = started; queue = queue })
            (render e.channels n output none)
            (memcpy output 0 (zeros (mul32 n e.channels)) 0 (mul32 n e.channels) >>= λ output'.
              some (output', record e { output_started = started }))
    unfolding queue
    wait started = rw silenced (record {
      next = record e { output_started = started };
      ran = refl;
      view = refl;
      position = inside;
      input = refl;
      status = refl;
      channels = refl;
      denoiser = refl;
      model = refl;
      cooldown = refl;
      still = refl;
    })
      where
        words : mul32 n e.channels ≡ n * e.channels
        words = omega arith

        size : length (zeros {F = F} (n * e.channels)) ≡ n * e.channels
        size = length-zeros F (n * e.channels)

        silenced :
            memcpy output 0 (zeros (mul32 n e.channels)) 0 (mul32 n e.channels)
            ≡ some (render e.channels n output none)
        silenced = rw words (
            memcpy-some output 0 (zeros (n * e.channels)) 0 (n * e.channels) (omega arith)
              (omega (arith, size))
            ∙ ap some (
                ap (λ z. overwrite 0 z output)
                  (take-length (n * e.channels) (zeros (n * e.channels)) (omega (arith, size)))
                ∙ overwrite_start (zeros (n * e.channels)) output (omega (arith, size))
                ∙ ap (λ k. zeros (n * e.channels) ++ drop k output) size))

    pub drain_output-Delivers :
        let (given, line') = Delay.step output_prefill_samples [] n (line e) in
        Delivers e line' (render e.channels n output given) (drain_output n output e)
    unfolding drain_output Delay.step queue
    drain_output-Delivers =
        let started = e.output_started || leb output_prefill_samples (length queue) in
        rw (append-nil queue, ready)
          (elim (Bool-cases (started && leb n (length queue))) [
            | inl now ↦ rw now (give started (leb→le n (length queue) (and_right started _ now)))
            | inr later ↦ rw later (wait started)
          ])
