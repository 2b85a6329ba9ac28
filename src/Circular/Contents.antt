-- ===== src/Circular/Contents.antt =====
-- The contents of a circular array after the copies into it, and what the copies out return.
use native.Mathlib.Nat.{add-mod_right}
use mathlib.Core.List.{append_assoc}
use noise_ai.Base.{
  ℕ, ◌+◌, ◌-◌, ◌%◌, ◌≤◌, ◌<◌, min, lt→ltb, le→ltb, ◌≡◌, refl, sym, ap, ap₂, ◌∙◌, ◌≡⟨◌⟩◌, ◌∎, ◌⊎◌,
  List, ◌++◌, arith, length, get_or, take, drop, length-take, length-drop, drop-drop, overwrite,
  slice, length-overwrite, overwrite_start, overwrite_behind, get_or-take,
}
use noise_ai.Circular.Window.{window, window_ext, window-append, eq-window}
use noise_ai.Circular.Copies.{
  cell, cell-splice, splice, collect, get_or-slice, length-slice, mod_ahead_in, mod_ahead_out,
}

module _ {ℓ} {A : Type ℓ} (d : A) where
  pub length-splice :
      (c w n : ℕ) (buffer samples : List A) → length (splice c buffer w samples n) ≡ length buffer
  unfolding splice
  length-splice c w n buffer samples = length-overwrite 0 _ _ ∙ length-overwrite (w % c) _ buffer

  module _ (c r m n : ℕ) (buffer samples : List A) (full : length buffer ≡ c) (fits : m + n ≤ c)
      (given : n ≤ length samples) where
    -- What was buffered stays, since the copy goes round to positions not yet used.
    kept :
        (k : ℕ)
        → k < m
        → cell d c (splice c buffer (r + m) samples n) (r + k) ≡ cell d c buffer (r + k)
    kept k h =
        ap (λ i. get_or (splice c buffer (r + m) samples n) i d) (sym lap)
        ∙ cell-splice d c (r + m) n (k + c - m) buffer samples full (omega arith) given
            (omega arith)
        ∙ rw (le→ltb (k + c - m) n (omega arith)) (ap (λ i. get_or buffer i d) lap)
      where
        lap : (r + m + (k + c - m)) % c ≡ (r + k) % c
        lap =
            let e : r + m + (k + c - m) ≡ r + k + c = omega arith in rw e (add-mod_right (r + k) c)

    -- Copying in behind `m` buffered samples appends the new ones.
    pub window-splice :
        window (cell d c (splice c buffer (r + m) samples n)) r (m + n)
        ≡ window (cell d c buffer) r m ++ take n samples
    window-splice =
        window-append _ r m n
        ∙ ap₂ ◌++◌ (window_ext _ _ r r m kept) (
            sym (
              eq-window (take n samples) d _ (r + m) n (omega (arith, length-take n samples))
                (λ k lt.
                  get_or-take n k samples d lt
                  ∙ sym (
                      cell-splice d c (r + m) n k buffer samples full (omega arith) given
                        (omega arith)
                      ∙ rw (lt→ltb k n lt)))))

  module _ (c r n : ℕ) (buffer samples : List A) (full : length buffer ≡ c) (some_room : r % c < c)
      (fits : n ≤ c) (given : n ≤ length samples) where
    slice-window : (f : ℕ) → r % c + f ≤ c → slice (r % c) f buffer ≡ window (cell d c buffer) r f
    slice-window f h =
        eq-window (slice (r % c) f buffer) d _ r f (length-slice d (r % c) f buffer (omega arith))
          (λ k lt.
            get_or-slice d (r % c) f k buffer lt
            ∙ ap (λ i. get_or buffer i d) (sym (mod_ahead_in c r (r % c) k refl (omega arith))))

    wrapped-window :
        (f s : ℕ)
        → f + s ≡ n
        → (s ≡ 0) ⊎ (r % c + f ≡ c)
        → slice 0 s buffer ≡ window (cell d c buffer) (r + f) s
    wrapped-window f s e h =
        eq-window (slice 0 s buffer) d _ (r + f) s (length-slice d 0 s buffer (omega arith))
          (λ k lt.
            get_or-slice d 0 s k buffer lt
            ∙ ap (λ i. get_or buffer i d)
                (let at : r + f + k ≡ r + (f + k) = omega arith in
                  rw (at, mod_ahead_out c r (r % c) (f + k) refl (omega arith) (omega arith))
                    (omega arith)))

    two_copies :
        (f s : ℕ)
        → f + s ≡ n
        → r % c + f ≤ c
        → (s ≡ 0) ⊎ (r % c + f ≡ c)
        → overwrite f (slice 0 s buffer) (overwrite 0 (slice (r % c) f buffer) samples)
          ≡ window (cell d c buffer) r n ++ drop n samples
    two_copies f s e h g =
        overwrite f Y (overwrite 0 X samples)
        ≡⟨ ap (overwrite f Y) (overwrite_start X samples (omega (arith, lengthX))) ⟩
          overwrite f Y (X ++ drop (length X) samples)
        ≡⟨ overwrite_behind f X Y _ lengthX ⟩ X ++ overwrite 0 Y (drop (length X) samples)
        ≡⟨ ap (◌++◌ X)
            (rw lengthX (overwrite_start Y _ (omega (arith, lengthY, length-drop f samples)))) ⟩
          X ++ (Y ++ drop (length Y) (drop f samples))
        ≡⟨ rw (lengthY, drop-drop s f samples, e, slice-window f h, wrapped-window f s e g)
            (sym (
              append_assoc (window (cell d c buffer) r f) (window (cell d c buffer) (r + f) s)
                (drop n samples))) ⟩
          (window (cell d c buffer) r f ++ window (cell d c buffer) (r + f) s) ++ drop n samples
        ≡⟨ ap (λ t. t ++ drop n samples) (sym (window-append _ r f s) ∙ ap (window _ r) e) ⟩
          window (cell d c buffer) r n ++ drop n samples ∎
      where
        X : List A
        X = slice (r % c) f buffer

        Y : List A
        Y = slice 0 s buffer

        lengthX : length X ≡ f
        lengthX = length-slice d (r % c) f buffer (omega arith)

        lengthY : length Y ≡ s
        lengthY = length-slice d 0 s buffer (omega arith)

    -- The samples copied out are those at the `n` positions from `r` on; the rest of the
    -- caller's array stays.
    pub collect-window :
        collect c buffer r samples n ≡ window (cell d c buffer) r n ++ drop n samples
    unfolding collect
    collect-window =
        two_copies (min n (c - r % c)) (n - min n (c - r % c)) (omega arith) (omega arith)
          (grind arith)
