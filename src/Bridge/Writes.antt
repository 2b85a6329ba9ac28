-- ===== src/Bridge/Writes.antt =====
-- The app's audio callback: what `noise_engine_process_and_write` hands to the driver.
use mathlib.Core.Option.{some-injective}
use noise_ai.Base.{
  length-map, ℕ, ◌-◌, ◌*◌, ◌≤◌, ◌<◌, ◌≡◌, refl, sym, ap, ◌∙◌, Bool, true, Bool-cases, inl, inr,
  ◌||◌, ◌&&◌, Option, none, some, List, ◌++◌, arith, length, take, drop, length-append, length-take,
  length-drop, map, leb, leb→le, and_right, if-true, if-false, if◌then◌else◌, add64, u32,
}
use noise_ai.Float.{Float, nought, clip}
use noise_ai.Frames.{zeros, length-zeros}
use noise_ai.Queue.{push}
use noise_ai.Delay
use noise_ai.Delay.{Line}
use noise_ai.DeepFilter.{Ort}
use noise_ai.DeepFilter.Laws.{HasShapes}
use noise_ai.Shared.{Segment}
use noise_ai.Shared.Refine.{IsSegment}
use noise_ai.Engine.{Engine, RnNoise, is_running}
use noise_ai.Engine.Process.{process_frame, output_prefill_samples}
use noise_ai.Engine.Interleave.{spread, length-spread}
use noise_ai.Engine.Output.{line, render}
use noise_ai.Engine.Valid.{IsValid, KeepsFrames}
use noise_ai.Engine.Answer.{process_frame-Answers}
use noise_ai.Bridge.{Context, to_int, grown}

-- What a line gives is what was asked for, in number.
step-size :
    {F : Type 0} (prefill n : ℕ) (fresh : List F) (l : Line F) (xs : List F)
    → (Delay.step prefill fresh n l).0 ≡ some xs
    → length xs ≡ n
unfolding Delay.step
step-size {F} prefill n fresh l xs given =
    let pool = l.queue ++ fresh in
    elim (Bool-cases ((l.started || leb prefill (length pool)) && leb n (length pool))) [
      | inl gives ↦
          let given' : some (take n pool) ≡ some xs =
            sym (ap (λ (g : Option (List F) × Line F). g.0) (if-true _ _ _ gives)) ∙ given in
          omega (
            arith,
            ap length (some-injective _ _ given'),
            length-take n pool,
            leb→le n (length pool) (and_right _ _ gives),
          )
      | inr waits ↦
          let given' : none ≡ some xs =
            sym (ap (λ (g : Option (List F) × Line F). g.0) (if-false _ _ _ waits)) ∙ given in
          absurd (cc)
    ]

module _ {F : Type 0} ⦃f : Float F⦄ where
  length-render :
      (c n : ℕ) (output : List F) (g : Option (List F))
      → ((xs : List F) → g ≡ some xs → length xs ≡ n)
      → n * c ≤ length output
      → length (render c n output g) ≡ length output
  length-render c n output none size room = omega (
    arith,
    length-append (zeros (n * c)) (drop (n * c) output),
    length-zeros F (n * c),
    length-drop (n * c) output,
  )
  length-render c n output (some xs) size room =
      let same : length xs * c ≡ n * c = ap (λ k. k * c) (size xs refl) in
      omega (
        arith,
        same,
        length-append (spread c (map clip xs)) (drop (n * c) output),
        length-spread c (map clip xs),
        ap (λ k. k * c) (length-map clip xs),
        length-drop (n * c) output,
      )

  -- The thread's buffer has room for the call.
  grown-length :
      (output_buf : List F) (n : ℕ)
      → length output_buf < u32
      → n < u32
      → (n ≤ length (grown output_buf n)) × (length (grown output_buf n) < u32)
  grown-length output_buf n small small' = ground (
    arith,
    length-append output_buf (zeros (n - length output_buf)),
    length-zeros F (n - length output_buf),
  )

module _ {F R S N : Type 0} ⦃f : Float F⦄ where
  -- The engine's answer in the thread's buffer: `out`, of which `fresh` samples were denoised in
  -- the call.
  pub record Renders (e : Engine F R S N) (n : ℕ) (output_buf : List F)
      (r : Option (Bool × List F × Engine F R S N)) : Type 0 where
    pub out : List F
    pub fresh : List F
    pub next : Engine F R S N
    pub ran : r ≡ some (true, out, next)
    pub rendered :
        out
        ≡ render 2 n
            (grown output_buf (n * 2))
            (Delay.step output_prefill_samples fresh n (line e)).0
    pub size : n * 2 ≤ length out
    pub view : line next ≡ (Delay.step output_prefill_samples fresh n (line e)).1
    pub valid : IsValid next

  -- What a call hands on: `out` is the engine's output for the `n` frames, of which `fresh`
  -- samples were denoised in the call, and the segment takes all of it or nothing.
  pub record Writes (ctx : Context F R S N) (s : Segment F) (W : ℕ) (q : List F) (n : ℕ)
      (output_buf : List F) (r : Option (ℕ × List F × Option (Context F R S N))) : Type 0 where
    pub out : List F
    pub fresh : List F
    pub engine : Engine F R S N
    pub segment : Segment F
    pub total : ℕ
    pub ran :
        r
        ≡ some (
          to_int (push s.capacity q out (n * 2)).0,
          out,
          some (record { engine = engine; shared_buffer = some (some segment) }),
        )
    pub rendered :
        out
        ≡ render 2 n
            (grown output_buf (n * 2))
            (Delay.step output_prefill_samples fresh n (line ctx.engine)).0
    pub size : n * 2 ≤ length out
    pub view : line engine ≡ (Delay.step output_prefill_samples fresh n (line ctx.engine)).1
    pub held : IsSegment nought segment total (push s.capacity q out (n * 2)).1
    pub heartbeat :
        segment.heartbeat
        ≡ (if (push s.capacity q out (n * 2)).0 then add64 s.heartbeat 1 else s.heartbeat)
    pub active : segment.active ≡ s.active
    pub valid : IsValid engine

  module _ (rn : RnNoise F R) (ort : Ort F S N) (frames : KeepsFrames rn)
      (shapes : HasShapes ort) where
    pub process_frame-Renders :
        (elapsed : ℕ → F) (input output_buf : List F) (n : ℕ) {e : Engine F R S N}
        → IsValid e
        → is_running e.status ≡ true
        → e.channels ≡ 2
        → n * 2 ≤ length input
        → length input < u32
        → length output_buf < u32
        → Renders e n output_buf (process_frame rn ort elapsed input (grown output_buf (n * 2)) n e)
    process_frame-Renders elapsed input output_buf n {e} v run two given small small' =
        let buffer = grown output_buf (n * 2) in
        let (room, little) = grown-length output_buf (n * 2) (omega arith) (omega arith) in
        let a =
          process_frame-Answers rn ort frames shapes elapsed input buffer n {e = e} v run
            (rw two given) small (rw two room) little in
        let gives = (Delay.step output_prefill_samples a.fresh n (line e)).0 in
        let size : length (render 2 n buffer gives) ≡ length buffer =
          length-render 2 n buffer gives (step-size output_prefill_samples n a.fresh (line e))
            room in
        record {
          out = render 2 n buffer gives;
          fresh = a.fresh;
          next = a.next;
          ran = a.ran ∙ ap (λ c. some (true, render c n buffer gives, a.next)) two;
          rendered = refl;
          size = omega (arith, size, room);
          view = a.view;
          valid = a.valid;
        }
