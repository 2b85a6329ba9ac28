-- ===== src/Driver/Connect.antt =====
-- The driver's handler between callbacks, what a callback may answer, and what connecting leaves.
use mathlib.Core.Path.{subst}
use noise_ai.Base.{
  ℕ, ◌-◌, ◌≤◌, ◌<◌, ◌≡◌, ◌⊎◌, inl, inr, refl, sym, ap, ◌∙◌, Bool, true, false, Bool-cases, ltb,
  if-true, if-false, if-both, if◌then◌else◌, Option, none, some, List, [], ◌++◌, arith, length,
  take, drop,
}
use noise_ai.Float.{Float, nought}
use noise_ai.Frames.{zeros}
use noise_ai.Shared.{Segment, Buffer, flush, is_valid}
use noise_ai.Shared.Refine.{IsSegment, flush-IsSegment}
use noise_ai.Driver.{IoHandler, is_connected, try_open, ensure_connected}

module _ {F : Type 0} ⦃f : Float F⦄ where
  -- A buffer whose segment is mapped, and holds a queue.
  abbrev pub IsMapped : Buffer F → Type 0
  IsMapped b = (s : Segment F) × (b ≡ some s) × (W : ℕ) × (q : List F) × IsSegment nought s W q

  abbrev pub IsMappedOrNull : Option (Buffer F) → Type 0
  IsMappedOrNull none = Unit {0}
  IsMappedOrNull (some b) = IsMapped b

  -- What opening the shared memory returns: a mapped buffer, or one that failed.
  abbrev pub IsOpened : Buffer F → Type 0
  IsOpened none = Unit {0}
  IsOpened (some s) = (W : ℕ) × (q : List F) × IsSegment nought s W q

  -- Between callbacks.
  pub record IsHandler (h : IoHandler F) : Type 0 where
    pub mapped : IsMappedOrNull h.shared_buffer
    pub connected : is_connected h.shared_buffer ≡ false → h.was_connected ≡ false
    pub stale : h.stale_count < 50
    pub countdown : h.reconnect_countdown ≤ 47

  -- `n` samples of the caller's array are the oldest of the queue that the segment holds, and
  -- leave the queue, or they are silence. The rest of the array stays.
  pub record Heard (before after : Option (Buffer F)) (opened : Buffer F) (n : ℕ)
      (output out : List F) : Type 0 where
    pub segment : Segment F
    pub rest : Segment F
    pub total : ℕ
    pub queue : List F
    pub source : (before ≡ some (some segment)) ⊎ (flush opened ≡ some segment)
    pub held : IsSegment nought segment total queue
    pub left : IsSegment nought rest total (drop n queue)
    pub kept : after ≡ some (some rest)
    pub enough : n ≤ length queue
    pub samples : out ≡ take n queue ++ drop n output

  pub record Plays (before : Option (Buffer F)) (opened : Buffer F) (n : ℕ) (output : List F)
      (r : Option (List F × IoHandler F)) : Type 0 where
    pub out : List F
    pub next : IoHandler F
    pub ran : r ≡ some (out, next)
    pub heard :
        (out ≡ zeros n ++ drop n output) ⊎ Heard before next.shared_buffer opened n output out
    pub handler : IsHandler next

  pub if-Plays :
      {before : Option (Buffer F)} {opened : Buffer F} {n : ℕ} {output : List F} (b : Bool)
      {x y : Option (List F × IoHandler F)}
      → (b ≡ true → Plays before opened n output x)
      → (b ≡ false → Plays before opened n output y)
      → Plays before opened n output (if b then x else y)
  if-Plays true p q = p refl
  if-Plays false p q = q refl

  mapped_of_connected :
      (p : Option (Buffer F))
      → IsMappedOrNull p
      → is_connected p ≡ true
      → (s : Segment F) × (W : ℕ) × (q : List F) × (p ≡ some (some s)) × IsSegment nought s W q
  unfolding is_connected is_valid
  mapped_of_connected none m on = absurd (cc)
  mapped_of_connected (some b) (s, at, W, q, held) on = (s, W, q, ap some at, held)

  -- Failing leaves a well-formed handler without a connection; success gives the segment that was
  -- mapped, or the one that was opened, flushed.
  abbrev pub Ensures : Option (Buffer F) → Buffer F → Bool × IoHandler F → Type 0
  Ensures before opened r =
      ((tried : IoHandler F) × (r ≡ (false, tried))
        × IsHandler (record tried { was_connected = false }))
      ⊎ ((tried : IoHandler F) × (s : Segment F) × (W : ℕ) × (q : List F) × (r ≡ (true, tried))
          × (tried.shared_buffer ≡ some (some s))
          × IsSegment nought s W q
          × ((before ≡ some (some s)) ⊎ (flush opened ≡ some s))
          × (tried.stale_count < 50)
          × (tried.reconnect_countdown ≤ 47))

  try_open-Ensures :
      (before : Option (Buffer F)) (opened : Buffer F) (h : IoHandler F)
      → IsOpened opened
      → h.stale_count < 50
      → Ensures before opened (try_open opened h)
  unfolding try_open is_valid flush
  try_open-Ensures before none h o fresh = inl (
    record h { shared_buffer = none; reconnect_countdown = if h.was_ever_connected then 47 else 5 },
    refl,
    record {
      mapped = tt;
      connected = λ e. refl;
      stale = fresh;
      countdown = if-both (λ k. k ≤ 47) h.was_ever_connected (omega arith) (omega arith);
    },
  )
  try_open-Ensures before (some s) h (W, q, held) fresh = inr (
    record h {
      shared_buffer = some (some (record s { read_pos = s.write_pos }));
      reconnect_countdown = 0;
      was_ever_connected = true;
    },
    record s { read_pos = s.write_pos },
    W,
    [],
    refl,
    refl,
    (flush-IsSegment nought held).1,
    inr refl,
    fresh,
    omega arith,
  )

  pub ensure_connected-Ensures :
      (opened : Buffer F) {h : IoHandler F}
      → IsOpened opened
      → IsHandler h
      → Ensures h.shared_buffer opened (ensure_connected opened h)
  unfolding ensure_connected
  ensure_connected-Ensures opened {h} o v = elim (Bool-cases (is_connected h.shared_buffer)) [
    | inl on ↦
        let (s, W, q, at, held) = mapped_of_connected h.shared_buffer v.mapped on in
        inr (h, s, W, q, if-true _ _ _ on, at, held, inl at, v.stale, v.countdown)
    | inr off ↦ elim (Bool-cases (ltb 0 h.reconnect_countdown)) [
      | inl wait ↦ inl (
        record h { reconnect_countdown = h.reconnect_countdown - 1 },
        if-false _ _ _ off ∙ if-true _ _ _ wait,
        record {
          mapped = v.mapped;
          connected = λ e. refl;
          stale = v.stale;
          countdown = omega (arith, v.countdown);
        },
      )
      | inr expired ↦
          subst (Ensures h.shared_buffer opened) (sym (if-false _ _ _ off ∙ if-false _ _ _ expired))
            (try_open-Ensures h.shared_buffer opened h o v.stale)
    ]
  ]
