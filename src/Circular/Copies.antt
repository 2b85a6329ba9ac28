-- ===== src/Circular/Copies.antt =====
-- What the copies into a circular array leave at each position.
use native.Mathlib.Nat.{mod-lt, mod-add-mod, mod-eq_of_lt, mod-eq-sub-mod}
use native.Mathlib.Decide.{dec_lt}
use noise_ai.Base.{
  ℕ, ◌+◌, ◌-◌, ◌%◌, ◌≤◌, ◌<◌, min, ltb, ltb→lt, lt→ltb, ltb→le, le→ltb, Bool-cases, if◌then◌else◌,
  ◌≡◌, refl, sym, ap, ◌∙◌, inl, inr, List, arith, length, get_or, take, drop, length-take,
  length-drop, overwrite, slice, length-overwrite, get_or-overwrite_in, get_or-overwrite_out,
  get_or-take, get_or-drop,
}

-- The index of a position less than one lap ahead.
pub mod_ahead_in : (c w i k : ℕ) → w % c ≡ i → i + k < c → (w + k) % c ≡ i + k
mod_ahead_in c w i k e h = sym (mod-add-mod w c k) ∙ rw e (mod-eq_of_lt {n = i + k} {m = c} h)

pub mod_ahead_out : (c w i k : ℕ) → w % c ≡ i → k < c → c ≤ i + k → (w + k) % c ≡ i + k - c
mod_ahead_out c w i k e h g =
    sym (mod-add-mod w c k)
    ∙ rw e (
        mod-eq-sub-mod {n = i + k} {m = c} g
        ∙ mod-eq_of_lt {n = i + k - c} {m = c} (omega (arith, mod-lt w {m = c} (omega arith))))

module _ {ℓ} {A : Type ℓ} where
  -- The two copies of `copy_in`, with `i` the index of the position, `f` and `s` the chunks.
  abbrev copied : ℕ → ℕ → ℕ → List A → List A → List A
  copied i f s buffer samples =
      overwrite 0 (slice f s samples) (overwrite i (take f samples) buffer)

  -- The array after both copies of `copy_in`, and the caller's array after those of `copy_out`.
  unfoldable pub splice : ℕ → List A → ℕ → List A → ℕ → List A
  splice c buffer w samples n = let f = min n (c - w % c) in copied (w % c) f (n - f) buffer samples

  unfoldable pub collect : ℕ → List A → ℕ → List A → ℕ → List A
  collect c buffer r samples n =
      let f = min n (c - r % c) in
      overwrite f (take (n - f) buffer) (overwrite 0 (slice (r % c) f buffer) samples)

module _ {ℓ} {A : Type ℓ} (d : A) where
  -- What a circular array holds at a running position.
  abbrev pub cell : ℕ → List A → ℕ → A
  cell c buffer p = get_or buffer (p % c) d

  pub get_or-slice :
      (i n k : ℕ) (xs : List A) → k < n → get_or (slice i n xs) k d ≡ get_or xs (i + k) d
  get_or-slice i n k xs h = get_or-take n k (drop i xs) d h ∙ get_or-drop i k xs d

  pub length-slice : (i n : ℕ) (xs : List A) → i + n ≤ length xs → length (slice i n xs) ≡ n
  length-slice i n xs h = omega (arith, length-take n (drop i xs), length-drop i xs)

  module _ (i f s : ℕ) (buffer samples : List A) (room : i + f ≤ length buffer)
      (given : f + s ≤ length samples) (apart : s ≤ i) where
    -- Up to the end of the array.
    copied_ahead :
        (k : ℕ)
        → i + k < length buffer
        → get_or (copied i f s buffer samples) (i + k) d
          ≡ (if ltb k f then get_or samples k d else get_or buffer (i + k) d)
    copied_ahead k h =
        get_or-overwrite_out 0 (i + k) (slice f s samples) _ d
          (inr (omega (arith, length-slice f s samples given)))
        ∙ elim (Bool-cases (ltb k f)) [
          | inl lt ↦ rw lt (
              get_or-overwrite_in i (i + k) (take f samples) buffer d (omega arith)
                (omega (arith, length-take f samples, ltb→lt k f lt)) h
              ∙ ap (λ m. get_or (take f samples) m d) (omega arith)
              ∙ get_or-take f k samples d (ltb→lt k f lt))
          | inr ge ↦ rw ge (
              get_or-overwrite_out i (i + k) (take f samples) buffer d
                (inr (omega (arith, length-take f samples, ltb→le k f ge))))
        ]

    -- From its start.
    copied_behind :
        (j : ℕ)
        → j < i
        → j < length buffer
        → get_or (copied i f s buffer samples) j d
          ≡ (if ltb j s then get_or samples (f + j) d else get_or buffer j d)
    copied_behind j h g = elim (Bool-cases (ltb j s)) [
      | inl lt ↦ rw lt (
          get_or-overwrite_in 0 j (slice f s samples) _ d (omega arith)
            (omega (arith, length-slice f s samples given, ltb→lt j s lt))
            (omega (arith, length-overwrite i (take f samples) buffer))
          ∙ get_or-slice f s (j - 0) samples (omega (arith, ltb→lt j s lt))
          ∙ ap (λ m. get_or samples m d) (omega arith))
      | inr ge ↦ rw ge (
          get_or-overwrite_out 0 j (slice f s samples) _ d
            (inr (omega (arith, length-slice f s samples given, ltb→le j s ge)))
          ∙ get_or-overwrite_out i j (take f samples) buffer d (inl h))
    ]

  cell-copied :
      (c w n k i f s : ℕ) (buffer samples : List A)
      → w % c ≡ i
      → f ≡ min n (c - i)
      → s ≡ n - f
      → length buffer ≡ c
      → n ≤ c
      → n ≤ length samples
      → k < c
      → cell c (copied i f s buffer samples) (w + k)
        ≡ (if ltb k n then get_or samples k d else cell c buffer (w + k))
  cell-copied c w n k i f s buffer samples ei ef es eb hc hs hk = elim (dec_lt (i + k) c) [
    | yes lt ↦
        let same : ltb k f ≡ ltb k n = ground arith in
        rw (mod_ahead_in c w i k ei lt, ← same)
          (copied_ahead i f s buffer samples room given apart k (omega arith))
    | no ge ↦ rw (mod_ahead_out c w i k ei hk (omega arith)) (
        copied_behind i f s buffer samples room given apart (i + k - c) (omega arith) (omega arith)
        ∙ elim (dec_lt k n) [
          | yes new ↦
              let at : f + (i + k - c) ≡ k = omega arith in
              rw (lt→ltb (i + k - c) s (omega arith), lt→ltb k n new, at)
          | no old ↦ rw (le→ltb (i + k - c) s (omega arith), le→ltb k n (omega arith))
        ])
  ]
    where
      index : i < c
      index = rw ei at (mod-lt w {m = c} (omega arith))

      room : i + f ≤ length buffer
      room = omega arith

      given : f + s ≤ length samples
      given = omega arith

      apart : s ≤ i
      apart = omega arith

  -- After a copy from position `w`: the new samples, then what was there.
  pub cell-splice :
      (c w n k : ℕ) (buffer samples : List A)
      → length buffer ≡ c
      → n ≤ c
      → n ≤ length samples
      → k < c
      → cell c (splice c buffer w samples n) (w + k)
        ≡ (if ltb k n then get_or samples k d else cell c buffer (w + k))
  unfolding splice
  cell-splice c w n k buffer samples e hc hs hk =
      cell-copied c w n k (w % c) (min n (c - w % c)) (n - min n (c - w % c)) buffer samples refl
        refl refl e hc hs hk
