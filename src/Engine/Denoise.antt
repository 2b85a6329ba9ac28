-- ===== src/Engine/Denoise.antt =====
-- One chunk through the engine: no undefined behaviour, and exactly one frame in and one frame
-- out, whichever denoiser runs, and in overload too.
use noise_ai.Base.{
  length-map, suc, ◌≡◌, ◌≤◌, refl, sym, ap, ◌∙◌, true, false, Bool-cases, inl, inr, Option, none,
  some, List, [], ◌∷◌, ◌++◌, arith, length, drop, map, add32, if◌then◌else◌,
}
use noise_ai.Float.{Float, nought, one}
use noise_ai.Frames.{frame_size}
use noise_ai.DeepFilter.{DeepFilter, Ort}
use noise_ai.DeepFilter.Laws.{IsModel, HasShapes, process_frame_lem}
use noise_ai.Engine.{Engine, RnNoise, is_set, has_deepfilter}
use noise_ai.Engine.Chunk.{
  blend, mix, scale, use_deepfilter, deepfilter_chunk, rnnoise_chunk, denoise_frame,
}
use noise_ai.Engine.Settings.{get_dry_mix}
use noise_ai.Engine.Heard.{voice, uses_model, mixed, Denoised, by_rnnoise, by_model}
use mathlib.Core.Path.{subst}
use mathlib.Core.List.{zip_with}
use noise_ai.Engine.Valid.{Each, KeepsFrames}

module _ {F R S N : Type 0} where
  -- What a chunk changes: the denoisers' states and the overload counters. The rest stays.
  pub record Steps (e e' : Engine F R S N) : Type 0 where
    pub mode : e'.mode ≡ e.mode
    pub status : e'.status ≡ e.status
    pub channels : e'.channels ≡ e.channels
    pub dry_mix : e'.dry_mix_override ≡ e.dry_mix_override
    pub position : e'.output_read_pos ≡ e.output_read_pos
    pub started : e'.output_started ≡ e.output_started
    pub denoiser : is_set e'.rnnoise_state ≡ is_set e.rnnoise_state
    pub model : Each IsModel e'.deepfilter

  -- A frame `out` leaves for a frame taken.
  pub record Takes (e e' : Engine F R S N) (out : List F) : Type 0 where
    pub steps : Steps e e'
    pub output : e'.output_buffer ≡ e.output_buffer ++ out
    pub input : e'.input_buffer ≡ drop frame_size e.input_buffer
    pub size : length out ≡ frame_size

module _ {F : Type 0} ⦃f : Float F⦄ where
  length-blend :
      (wet dry : F) (outputs inputs : List F)
      → length (blend wet dry outputs inputs) ≡ length outputs
  unfolding blend
  length-blend wet dry [] inputs = refl
  length-blend wet dry (o ∷ outputs) [] = refl
  length-blend wet dry (o ∷ outputs) (i ∷ inputs) = ap suc (length-blend wet dry outputs inputs)

  length-mix :
      (dry : F) (outputs inputs : List F) → length (mix dry outputs inputs) ≡ length outputs
  unfolding mix
  length-mix dry outputs inputs = ground (arith, length-blend (f.sub one dry) dry outputs inputs)

  blend-zip_with :
      (wet dry : F) (outputs inputs : List F)
      → length outputs ≤ length inputs
      → blend wet dry outputs inputs
        ≡ zip_with (λ o i. f.add (f.mul wet o) (f.mul dry i)) outputs inputs
  unfolding blend zip_with
  blend-zip_with wet dry [] inputs h = refl
  blend-zip_with wet dry (o ∷ outputs) [] h = absurd (omega arith)
  blend-zip_with wet dry (o ∷ outputs) (i ∷ inputs) h =
      ap (◌∷◌ (f.add (f.mul wet o) (f.mul dry i)))
        (blend-zip_with wet dry outputs inputs (omega arith))

  mix-mixed :
      (dry : F) (outputs inputs : List F)
      → length outputs ≤ length inputs
      → mix dry outputs inputs ≡ mixed dry outputs inputs
  unfolding mix
  mix-mixed dry outputs inputs h =
      ap (λ b. if f.lt nought dry then b else outputs)
        (blend-zip_with (f.sub one dry) dry outputs inputs h)

some_of_set : {R : Type 0} (o : Option R) → is_set o ≡ true → (r : R) × (o ≡ some r)
some_of_set none h = cc
some_of_set (some r) h = (r, refl)

module _ {F S N : Type 0} where
  loaded_of_has :
      (o : Option (DeepFilter F S N))
      → has_deepfilter o ≡ true
      → Each IsModel o
      → (d : DeepFilter F S N) × (o ≡ some d) × (d.loaded ≡ true) × IsModel d
  unfolding has_deepfilter
  loaded_of_has none h m = cc
  loaded_of_has (some d) h m = (d, refl, h, m)

module _ {F R S N : Type 0} where
  -- A call of a denoiser returns what it is to return for the frame `heard`, and changes the
  -- denoisers' states alone.
  pub record Denoises ⦃f : Float F⦄ (rn : RnNoise F R) (ort : Ort F S N) (heard : List F)
      (e : Engine F R S N) (r : Option (List F × Engine F R S N)) : Type 0 where
    pub out : List F
    pub next : Engine F R S N
    pub ran : r ≡ some (out, next)
    pub size : length out ≡ frame_size
    pub denoised : Denoised rn ort heard (voice e) out (voice next)
    pub steps : Steps e next
    pub output : next.output_buffer ≡ e.output_buffer
    pub input : next.input_buffer ≡ e.input_buffer
    pub count : next.overload_count ≡ e.overload_count
    pub cooldown : next.overload_cooldown ≡ e.overload_cooldown
    pub passing : next.in_overload ≡ e.in_overload

module _ {F R S N : Type 0} ⦃f : Float F⦄ where
  has_of_use : (e : Engine F R S N) → use_deepfilter e ≡ true → has_deepfilter e.deepfilter ≡ true
  unfolding use_deepfilter
  has_of_use e h = ground arith

  use-uses_model : (e : Engine F R S N) → use_deepfilter e ≡ uses_model (voice e)
  unfolding use_deepfilter uses_model
  use-uses_model e = refl

  module _ (rn : RnNoise F R) (ort : Ort F S N) (frames : KeepsFrames rn)
      (shapes : HasShapes ort) where
    module _ (input : List F) {e : Engine F R S N} (size : length input ≡ frame_size)
        (set : is_set e.rnnoise_state ≡ true) (model : Each IsModel e.deepfilter) where
      rnnoise_chunk-Denoises :
          use_deepfilter e ≡ false → Denoises rn ort input e (rnnoise_chunk rn ort input e)
      unfolding rnnoise_chunk
      rnnoise_chunk-Denoises rnn =
          let (r, here) = some_of_set e.rnnoise_state set in
          let scaled = map (λ (x : F). f.mul x scale) input in
          record {
            out = map (λ x. f.div x scale) (rn.denoise r scaled).0;
            next = record e {
              rnnoise_state = some (rn.denoise r scaled).1;
              debug_frame_count = add32 e.debug_frame_count 1;
            };
            ran = rw here;
            denoised = by_rnnoise (sym (use-uses_model e) ∙ rnn) here;
            size = length-map _ _ ∙ frames r scaled (length-map _ input ∙ size);
            steps = record {
              mode = refl;
              status = refl;
              channels = refl;
              dry_mix = refl;
              position = refl;
              started = refl;
              denoiser = sym set;
              model = model;
            };
            output = refl;
            input = refl;
            count = refl;
            cooldown = refl;
            passing = refl;
          }

      deepfilter_chunk-Denoises :
          use_deepfilter e ≡ true → Denoises rn ort input e (deepfilter_chunk rn ort input e)
      unfolding deepfilter_chunk get_dry_mix
      deepfilter_chunk-Denoises deep =
          let (d, here, on, m) = loaded_of_has e.deepfilter (has_of_use e deep) model in
          let (ok, out, d', ran, whole, (s, is_open, made), on', m') =
            process_frame_lem ort input shapes m on size in
          record {
            out = mix (get_dry_mix e) out input;
            next = record e {
              deepfilter = some d';
              debug_frame_count = add32 e.debug_frame_count 1;
            };
            ran = rw (here, ran);
            denoised =
                subst
                  (λ (o : List F).
                    Denoised rn ort input (voice e) o (record (voice e) { model = some d' }))
                  (sym (mix-mixed (get_dry_mix e) out input (omega (arith, whole, size))))
                  (by_model (sym (use-uses_model e) ∙ deep) here is_open made);
            size = length-mix _ out input ∙ whole;
            steps = record {
              mode = refl;
              status = refl;
              channels = refl;
              dry_mix = refl;
              position = refl;
              started = refl;
              denoiser = refl;
              model = m';
            };
            output = refl;
            input = refl;
            count = refl;
            cooldown = refl;
            passing = refl;
          }

      pub denoise_frame-Denoises : Denoises rn ort input e (denoise_frame rn ort input e)
      unfolding denoise_frame
      denoise_frame-Denoises = elim (Bool-cases (use_deepfilter e)) [
        | inl deep ↦ rw deep (deepfilter_chunk-Denoises deep)
        | inr rnn ↦ rw rnn (rnnoise_chunk-Denoises rnn)
      ]
