-- ===== src/Circular/Holds.antt =====
-- What a circular array holds: the words of its positions against the positions they stand for,
-- which do not wrap.
use native.Mathlib.Nat.{mod-lt, mod-eq_of_lt, mod-mod_of_dvd, dvd_of_mod-eq-zero}
use noise_ai.Base.{
  ℕ, ◌+◌, ◌-◌, ◌%◌, ◌≤◌, ◌<◌, ◌≡◌, ◌⊎◌, inl, inr, sym, ap, ◌∙◌, some, List, [], ◌++◌, arith, length,
  take, drop, u64, add64, sub64,
}
use noise_ai.Circular.{copy_in, copy_out}
use noise_ai.Circular.Window.{window, length-window, take-window, drop-window}
use noise_ai.Circular.Copies.{cell, splice, collect}
use noise_ai.Circular.Contents.{length-splice, window-splice, collect-window}
use noise_ai.Circular.Safety.{copy_in-splice, copy_out-collect}

-- Positions below the bound index the array alike before and after they wrap: either no position
-- wraps, or the capacity divides 2^64.
abbrev pub Laps : ℕ → ℕ → Type 0
Laps capacity bound = (bound < u64) ⊎ (u64 % capacity ≡ 0)

pub index_of_word : (c bound p : ℕ) → Laps c bound → p ≤ bound → (p % u64) % c ≡ p % c
index_of_word c bound p (inl h) le = ap (λ k. k % c) (mod-eq_of_lt {n = p} {m = u64} (omega arith))
index_of_word c bound p (inr h) le = mod-mod_of_dvd c p (dvd_of_mod-eq-zero c h)

module _ {ℓ} {A : Type ℓ} (d : A) where
  -- An array of `c` samples, with words `w` and `r` for positions, holds the samples `q`, written
  -- at the positions from `R` up to `W`.
  pub record Holds (c : ℕ) (buffer : List A) (w r R W : ℕ) (q : List A) : Type ℓ where
    pub room : 0 < c
    pub small : c < u64
    pub full : length buffer ≡ c
    pub write_word : w ≡ W % u64
    pub read_word : r ≡ R % u64
    pub order : R ≤ W
    pub fits : W ≤ R + c
    pub laps : Laps c W
    pub contents : q ≡ window (cell d c buffer) R (W - R)

  module _ {c : ℕ} {buffer : List A} {w r R W : ℕ} {q : List A} (h : Holds c buffer w r R W q) where
    open h use {room, small, full, write_word, read_word, order, fits, laps, contents}

    pub length-contents : length q ≡ W - R
    length-contents = ap length contents ∙ length-window (cell d c buffer) R (W - R)

    -- The words give the number of samples held, and the room that is left.
    pub words-length : sub64 w r ≡ length q
    words-length = omega (arith, length-contents)

    pub words-free : sub64 c (sub64 w r) ≡ c - length q
    words-free = omega (arith, length-contents)

    write_index : w % c ≡ W % c
    write_index = ap (λ k. k % c) write_word ∙ index_of_word c W W laps (omega arith)

    read_index : r % c ≡ R % c
    read_index = ap (λ k. k % c) read_word ∙ index_of_word c W R laps order

    splice_word :
        (samples : List A) (n : ℕ) → splice c buffer w samples n ≡ splice c buffer W samples n
    unfolding splice
    splice_word samples n = rw write_index

    collect_word :
        (samples : List A) (n : ℕ) → collect c buffer r samples n ≡ collect c buffer R samples n
    unfolding collect
    collect_word samples n = rw read_index

    -- A copy in that fits is inside the arrays, and appends the samples.
    pub copy_in-Holds :
        (samples : List A) (n : ℕ)
        → length q + n ≤ c
        → n ≤ length samples
        → Laps c (W + n)
        → (copy_in c buffer w samples n ≡ some (splice c buffer w samples n))
          × Holds c (splice c buffer w samples n) (add64 w n) r R (W + n) (q ++ take n samples)
    copy_in-Holds samples n free given laps' = (
      copy_in-splice c buffer w samples n room full (omega arith) given,
      record {
        room = room;
        small = small;
        full = length-splice d c w n buffer samples ∙ full;
        write_word = omega arith;
        read_word = read_word;
        order = omega arith;
        fits = omega (arith, length-contents);
        laps = laps';
        contents =
            sym appended ∙ ap (window (cell d c (splice c buffer w samples n)) R) (omega arith);
      },
    )
      where
        start : R + (W - R) ≡ W
        start = omega arith

        appended :
            window (cell d c (splice c buffer w samples n)) R (W - R + n) ≡ q ++ take n samples
        appended =
            ap (λ b. window (cell d c b) R (W - R + n))
              (splice_word samples n ∙ ap (λ t. splice c buffer t samples n) (sym start))
            ∙ window-splice d c R (W - R) n buffer samples full (omega (arith, length-contents))
                given
            ∙ ap (λ t. t ++ take n samples) (sym contents)

    -- A copy out of samples that are held is inside the arrays, and takes the oldest.
    pub copy_out-Holds :
        (samples : List A) (n : ℕ)
        → n ≤ length q
        → n ≤ length samples
        → (copy_out c buffer r samples n ≡ some (take n q ++ drop n samples))
          × Holds c buffer w (add64 r n) (R + n) W (drop n q)
    copy_out-Holds samples n held given = (
      copy_out-collect c buffer r samples n room full (omega (arith, length-contents)) given
          ∙ ap some (
              collect_word samples n
              ∙ collect-window d c R n buffer samples full (mod-lt R room)
                  (omega (arith, length-contents)) given
              ∙ ap (λ t. t ++ drop n samples) (sym taken)),
      record {
        room = room;
        small = small;
        full = full;
        write_word = write_word;
        read_word = omega arith;
        order = omega (arith, length-contents);
        fits = omega arith;
        laps = laps;
        contents =
            ap (drop n) contents
            ∙ drop-window (cell d c buffer) R n (W - R) (omega (arith, length-contents))
            ∙ ap (window (cell d c buffer) (R + n)) (omega arith);
      },
    )
      where
        taken : take n q ≡ window (cell d c buffer) R n
        taken =
            ap (take n) contents
            ∙ take-window (cell d c buffer) R n (W - R) (omega (arith, length-contents))

    -- Moving the read position up to the write position empties the array.
    pub flush-Holds : Holds c buffer w w W W []
    flush-Holds = record {
      room = room;
      small = small;
      full = full;
      write_word = write_word;
      read_word = write_word;
      order = omega arith;
      fits = omega arith;
      laps = laps;
      contents = ap (window (cell d c buffer) W) {x = 0} {y = W - W} (omega arith);
    }

  -- A fresh array, or one whose positions are set back to 0, is empty.
  pub fresh-Holds :
      (c : ℕ) (buffer : List A) → 0 < c → c < u64 → length buffer ≡ c → Holds c buffer 0 0 0 0 []
  fresh-Holds c buffer pos small full = record {
    room = pos;
    small = small;
    full = full;
    write_word = omega arith;
    read_word = omega arith;
    order = omega arith;
    fits = omega arith;
    laps = inl (omega arith);
    contents = ap (window (cell d c buffer) 0) {x = 0} {y = 0 - 0} (omega arith);
  }
