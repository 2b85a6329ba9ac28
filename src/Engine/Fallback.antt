-- ===== src/Engine/Fallback.antt =====
-- Runs of chunks against the overload switch: when inference falls back to passthrough.
use mathlib.Core.Option.{some-injective}
use mathlib.Core.Path.{subst}
use noise_ai.Base.{
  suc, ◌+◌, ◌-◌, ◌*◌, ◌≤◌, ◌≡◌, refl, sym, ap, ◌∙◌, Bool, true, false, some, List, [], ◌∷◌, map,
  ◌>>=◌, arith, length, length-drop,
}
use noise_ai.Float.{Float}
use noise_ai.Frames.{frame_size}
use noise_ai.DeepFilter.{Ort}
use noise_ai.DeepFilter.Laws.{IsModel, HasShapes}
use noise_ai.Engine.{Engine, RnNoise, is_set}
use noise_ai.Engine.Chunk.{overload_threshold_ms}
use noise_ai.Engine.Valid.{Each, KeepsFrames}
use noise_ai.Engine.Chunks.{process_mono_chunk-Chunks}
use noise_ai.Engine.Overload.{run_chunks}
use noise_ai.Engine.Switch.{
  switch, run, step, IsBounded, step-IsBounded, process_mono_chunk-step, trigger,
}

module _ {F : Type 0} ⦃f : Float F⦄ where
  -- Whether each chunk was slow.
  abbrev pub slow : List F → List Bool
  slow elapsed = map (f.lt overload_threshold_ms) elapsed

module _ {F R S N : Type 0} ⦃f : Float F⦄ (rn : RnNoise F R) (ort : Ort F S N)
    (frames : KeepsFrames rn) (shapes : HasShapes ort) where
  run_chunks-run :
      (elapsed : List F) (e : Engine F R S N)
      → length elapsed * frame_size ≤ length e.input_buffer
      → is_set e.rnnoise_state ≡ true
      → Each IsModel e.deepfilter
      → IsBounded (switch e)
      → (next : Engine F R S N) × (run_chunks rn ort elapsed e ≡ some next)
        × (switch next ≡ run (slow elapsed) (switch e))
  unfolding run_chunks run
  run_chunks-run [] e enough set model bounded = (e, refl, refl)
  run_chunks-run (ms ∷ elapsed) e enough set model bounded =
      let more : frame_size + length elapsed * frame_size ≡ suc (length elapsed) * frame_size =
        omega arith in
      let whole : frame_size ≤ length e.input_buffer = omega (arith, more) in
      let (e', ran, moved) =
        process_mono_chunk-step rn ort frames shapes ms e whole set model bounded in
      let c = process_mono_chunk-Chunks rn ort frames shapes ms {e = e} whole set model in
      let same : c.next ≡ e' = some-injective _ _ (sym c.ran ∙ ran) in
      let moved' : switch c.next ≡ step (f.lt overload_threshold_ms ms) (switch e) =
        ap switch same ∙ moved in
      let left : length elapsed * frame_size ≤ length c.next.input_buffer =
        omega (arith, more, ap length c.takes.input, length-drop frame_size e.input_buffer) in
      let (next, ran', moved'') =
        run_chunks-run elapsed c.next left (c.takes.steps.denoiser ∙ set) c.takes.steps.model (
          subst IsBounded (sym moved')
            (step-IsBounded (f.lt overload_threshold_ms ms) (switch e) bounded)) in
      (
        next,
        ap (λ r. r >>= run_chunks rn ort elapsed) c.ran ∙ ran',
        moved'' ∙ ap (run (slow elapsed)) moved',
      )

  -- With libraries that return whole frames, whole frames waiting for a run of chunks, an RNNoise
  -- state, a well-formed model, no overload and no slow chunk counted: if the first five chunks
  -- of the run are slow, and at most 100 follow, the run has no undefined behaviour and ends in
  -- overload, with the cooldown that the chunks after the fifth leave of 100, whether they are
  -- slow or not.
  pub run_chunks_falls_back :
      (elapsed : List F) (rest : List Bool) (e : Engine F R S N)
      → length elapsed * frame_size ≤ length e.input_buffer
      → is_set e.rnnoise_state ≡ true
      → Each IsModel e.deepfilter
      → e.overload_cooldown ≤ 100
      → e.overload_count ≡ 0
      → e.in_overload ≡ false
      → slow elapsed ≡ true ∷ true ∷ true ∷ true ∷ true ∷ rest
      → length rest ≤ 100
      → (next : Engine F R S N) × (run_chunks rn ort elapsed e ≡ some next)
        × (next.in_overload ≡ true)
        × (next.overload_cooldown ≡ 100 - length rest)
  run_chunks_falls_back elapsed rest e enough set model cool none off five few =
      let (next, ran, moved) =
        run_chunks-run elapsed e enough set model
          (omega (arith, none), cool, λ _. omega (arith, none)) in
      let at : switch e ≡ record { count = 0; cooldown = e.overload_cooldown; passing = false } =
        λ i. record { count = none i; cooldown = e.overload_cooldown; passing = off i } in
      let ends : switch next ≡ record { count = 5; cooldown = 100 - length rest; passing = true } =
        moved
        ∙ ap (run (slow elapsed)) at
        ∙ ap
            (λ told.
              run told (record { count = 0; cooldown = e.overload_cooldown; passing = false }))
            five
        ∙ (trigger rest e.overload_cooldown few).0 in
      (next, ran, ap (λ w. w.passing) ends, ap (λ w. w.cooldown) ends)
