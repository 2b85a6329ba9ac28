-- ===== src/Engine/Switch.antt =====
-- The overload switch as a machine of its own: what it is told is whether a chunk was slow.
use noise_ai.Base.{
  ℕ, ◌+◌, ◌-◌, ◌≤◌, ◌<◌, ◌≡◌, refl, sym, ap, ◌∙◌, Bool, true, false, Bool-cases, inl, inr, some,
  List, [], ◌∷◌, arith, length, take, length-take, ltb, leb, lt→ltb, if-true, if-false, add32,
  if◌then◌else◌,
}
use noise_ai.Float.{Float}
use noise_ai.Frames.{frame_size, read_block-some}
use noise_ai.DeepFilter.{Ort}
use noise_ai.DeepFilter.Laws.{IsModel, HasShapes}
use noise_ai.Engine.{Engine, RnNoise, is_set}
use noise_ai.Engine.Chunk.{
  update_overload, put_frame, timed_chunk, process_mono_chunk, overload_threshold_ms,
}
use noise_ai.Engine.Valid.{Each, KeepsFrames}
use noise_ai.Engine.Denoise.{denoise_frame-Denoises}

pub record Switch : Type 0 where
  pub count : ℕ
  pub cooldown : ℕ
  pub passing : Bool

-- After a chunk that was timed: five slow chunks in a row start the passthrough.
unfoldable pub timed : Bool → Switch → Switch
timed true s =
    if leb 5 (s.count + 1)
    then record { count = s.count + 1; cooldown = 100; passing = true }
    else record s { count = s.count + 1 }
timed false s = record s { count = 0 }

unfoldable pub step : Bool → Switch → Switch
unfolding timed
step slow s =
    if s.passing
    then if ltb 0 s.cooldown
      then record s { cooldown = s.cooldown - 1 }
      else timed slow (record s { passing = false; count = 0 })
    else timed slow s

unfoldable pub run : List Bool → Switch → Switch
unfolding step
run [] s = s
run (slow ∷ rest) s = run rest (step slow s)

-- The count never wraps: it stays at 5 or less.
abbrev pub IsBounded : Switch → Type 0
IsBounded s = (s.count ≤ 5) × (s.cooldown ≤ 100) × (s.passing ≡ false → s.count < 5)

pub step-IsBounded : (slow : Bool) (s : Switch) → IsBounded s → IsBounded (step slow s)
unfolding step
step-IsBounded true s b = ground (arith, b.2)
step-IsBounded false s b = ground (arith, b.2)

module _ {F R S N : Type 0} where
  abbrev pub switch : Engine F R S N → Switch
  switch e = record {
    count = e.overload_count;
    cooldown = e.overload_cooldown;
    passing = e.in_overload;
  }

module _ {F R S N : Type 0} ⦃f : Float F⦄ where
  timed_lem :
      (ms : F) (e : Engine F R S N)
      → e.overload_count < 5
      → switch (update_overload ms e) ≡ timed (f.lt overload_threshold_ms ms) (switch e)
  unfolding update_overload timed
  timed_lem ms e small =
      let word : add32 e.overload_count 1 ≡ e.overload_count + 1 = omega arith in
      elim (Bool-cases (f.lt overload_threshold_ms ms)) [
        | inl slow ↦
            rw (slow, word)
              (elim (Bool-cases (leb 5 (e.overload_count + 1))) [
                | inl many ↦ rw many
                | inr few ↦ rw few
              ])
        | inr fast ↦ rw fast
      ]

  module _ (rn : RnNoise F R) (ort : Ort F S N) (frames : KeepsFrames rn)
      (shapes : HasShapes ort) where
    timed_chunk_lem :
        (ms : F) (input : List F) (e : Engine F R S N)
        → length input ≡ frame_size
        → is_set e.rnnoise_state ≡ true
        → Each IsModel e.deepfilter
        → e.overload_count < 5
        → (next : Engine F R S N) × (timed_chunk rn ort ms input e ≡ some next)
          × (switch next ≡ timed (f.lt overload_threshold_ms ms) (switch e))
    unfolding timed_chunk
    timed_chunk_lem ms input e size set model small =
        let d = denoise_frame-Denoises rn ort frames shapes input {e = e} size set model in
        let same : switch d.next ≡ switch e =
          λ i. record { count = d.count i; cooldown = d.cooldown i; passing = d.passing i } in
        (
          put_frame d.out (update_overload ms d.next),
          rw d.ran,
          timed_lem ms d.next (omega (arith, d.count))
              ∙ ap (timed (f.lt overload_threshold_ms ms)) same,
        )

    -- With libraries that return whole frames, a whole frame waiting, an RNNoise state, a
    -- well-formed model, and overload counters within their bounds: `process_mono_chunk` has no
    -- undefined behaviour, and moves the overload counters as one step of the switch, which
    -- counts without wrapping, does.
    pub process_mono_chunk-step :
        (ms : F) (e : Engine F R S N)
        → frame_size ≤ length e.input_buffer
        → is_set e.rnnoise_state ≡ true
        → Each IsModel e.deepfilter
        → IsBounded (switch e)
        → (next : Engine F R S N) × (process_mono_chunk rn ort ms e ≡ some next)
          × (switch next ≡ step (f.lt overload_threshold_ms ms) (switch e))
    unfolding process_mono_chunk step
    process_mono_chunk-step ms e whole set model bounded =
        let size : length (take frame_size e.input_buffer) ≡ frame_size =
          omega (arith, length-take frame_size e.input_buffer) in
        let read = read_block-some frame_size e.input_buffer whole in
        elim (Bool-cases e.in_overload) [
          | inl over ↦ elim (Bool-cases (ltb 0 e.overload_cooldown)) [
            | inl cooling ↦ (
              put_frame (take frame_size e.input_buffer)
                  (record e { overload_cooldown = e.overload_cooldown - 1 }),
              rw read (if-true e.in_overload _ _ over ∙ if-true _ _ _ cooling),
              sym (if-true e.in_overload _ _ over ∙ if-true _ _ _ cooling),
            )
            | inr expired ↦
                let (next, ran, same) =
                  timed_chunk_lem ms (take frame_size e.input_buffer)
                    (record e { in_overload = false; overload_count = 0 }) size set model
                    (omega arith) in
                (
                  next,
                  rw read (if-true e.in_overload _ _ over ∙ if-false _ _ _ expired ∙ ran),
                  same ∙ sym (if-true e.in_overload _ _ over ∙ if-false _ _ _ expired),
                )
          ]
          | inr normal ↦
              let (next, ran, same) =
                timed_chunk_lem ms (take frame_size e.input_buffer) e size set model
                  (bounded.2 normal) in
              (
                next,
                rw read (if-false e.in_overload _ _ normal ∙ ran),
                same ∙ sym (if-false e.in_overload _ _ normal),
              )
        ]

-- While the cooldown lasts, the switch counts it down, whatever it is told.
run_passing :
    (rest : List Bool) (c k : ℕ)
    → length rest ≤ k
    → run rest (record { count = c; cooldown = k; passing = true })
      ≡ record { count = c; cooldown = k - length rest; passing = true }
unfolding run
run_passing [] c k h =
    ap (λ t. record { count = c; cooldown = t; passing = true }) {x = k} (omega arith)
run_passing (slow ∷ rest) c k h =
    ap (run rest) (if-true (ltb 0 k) _ _ (lt→ltb 0 k (omega arith)))
    ∙ run_passing rest c (k - 1) (omega arith)
    ∙ ap (λ t. record { count = c; cooldown = t; passing = true }) {x = k - 1 - length rest}
        (omega arith)

-- From a switch that is off with count 0: five slow chunks in a row turn the passthrough on, and
-- up to 100 chunks after them, slow or fast, count the cooldown down and do not end it; four slow
-- chunks do not turn it on; and a fast chunk after those sets the count back.
pub trigger :
    (rest : List Bool) (k : ℕ)
    → length rest ≤ 100
    → let off : Switch = record { count = 0; cooldown = k; passing = false } in
      (run (true ∷ true ∷ true ∷ true ∷ true ∷ rest) off
        ≡ record { count = 5; cooldown = 100 - length rest; passing = true })
      × (run (true ∷ true ∷ true ∷ true ∷ []) off ≡ record off { count = 4 })
      × (run (true ∷ true ∷ true ∷ true ∷ false ∷ []) off ≡ off)
unfolding run
trigger rest k h = (run_passing rest 5 100 h, refl, refl)
