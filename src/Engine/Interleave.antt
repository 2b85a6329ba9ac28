-- ===== src/Engine/Interleave.antt =====
-- Interleaved frames to mono and back: the index arithmetic of the two loops against blocks of a
-- list, without index.
use mathlib.Core.List.{append_assoc, foldl}
use noise_ai.Base.{
  ℕ, zero, suc, ◌+◌, ◌*◌, ◌≤◌, ◌<◌, ◌≡◌, refl, sym, ap, ◌∙◌, some, List, [], ◌∷◌, ◌++◌, arith,
  length, take, drop, replicate, set, get_elem?, map, length-append, length-take, length-drop,
  length-replicate, take-append-drop, drop-drop, lt→ltb, add32, mul32, u32, slice,
}
use noise_ai.Float.{Float, nought, clip}
use noise_ai.Engine.Process.{add_channels, to_mono, put_channels, from_mono}

module _ {F : Type 0} ⦃f : Float F⦄ where
  -- The mean of the channels of each of `n` frames at the head of a list.
  pub means : ℕ → List F → ℕ → List F
  means c xs zero = []
  means c xs (suc n) = f.div (foldl f.add nought (take c xs)) (f.of_uint c) ∷ means c (drop c xs) n

  pub length-means : (c : ℕ) (xs : List F) (n : ℕ) → length (means c xs n) ≡ n
  unfolding means
  length-means c xs zero = refl
  length-means c xs (suc n) = ap suc (length-means c (drop c xs) n)

  -- Each sample of a mono list, once for each channel.
  abbrev pub spread : ℕ → List F → List F
  spread c [] = []
  spread c (x ∷ xs) = replicate c x ++ spread c xs

  pub length-spread : (c : ℕ) (xs : List F) → length (spread c xs) ≡ length xs * c
  length-spread c [] = omega arith
  length-spread c (x ∷ xs) =
      omega (
        arith,
        length-append (replicate c x) (spread c xs),
        length-replicate c x,
        length-spread c xs,
      )

  -- A list from an index within it on.
  split_at :
      (i : ℕ) (xs : List F)
      → i < length xs
      → (x : F) × (get_elem? xs i ≡ some x) × (drop i xs ≡ x ∷ drop (i + 1) xs)
  split_at i [] h = elim h [ ]
  split_at zero (x ∷ xs) h = (x, refl, refl)
  split_at (suc i) (x ∷ xs) h =
      let (y, e, g) = split_at i xs (omega arith) in
      let s : suc i + 1 ≡ suc (i + 1) = omega arith in (y, e, rw s g)

  set-append :
      (pre : List F) (x : F) (post : List F) (i : ℕ) (v : F)
      → length pre ≡ i
      → set (pre ++ x ∷ post) i v ≡ pre ++ v ∷ post
  set-append [] x post zero v e = refl
  set-append [] x post (suc i) v e = absurd (omega arith)
  set-append (p ∷ pre) x post zero v e = absurd (omega arith)
  set-append (p ∷ pre) x post (suc i) v e = ap (◌∷◌ p) (set-append pre x post i v (omega arith))

  module _ (c : ℕ) where
    add_channels_lem :
        (input : List F) (i n ch : ℕ) (acc : F)
        → i * c + ch + n ≤ length input
        → length input < u32
        → add_channels c input i n ch acc
          ≡ some (foldl f.add acc (take n (drop (i * c + ch) input)))
    unfolding add_channels
    add_channels_lem input i zero ch acc h small = refl
    add_channels_lem input i (suc n) ch acc h small =
        let (x, got, rest) = split_at (i * c + ch) input (omega arith) in
        let at : add32 (mul32 i c) ch ≡ i * c + ch = omega arith in
        let next : i * c + (ch + 1) ≡ i * c + ch + 1 = omega arith in
        rw (at, got, rest, ← next)
          (add_channels_lem input i n (ch + 1) (f.add acc x) (omega arith) small)

    -- For frames within the caller's array of less than 2^32 samples, the mono samples are the
    -- means of the frames, without reading outside the array.
    pub to_mono-means :
        (input : List F) (n i : ℕ)
        → (i + n) * c ≤ length input
        → length input < u32
        → to_mono c input n i ≡ some (means c (drop (i * c) input) n)
    unfolding to_mono means
    to_mono-means input zero i h small = refl
    to_mono-means input (suc n) i h small =
        let frame : i * c + 0 + c ≤ length input = grind arith in
        let at : i * c + 0 ≡ i * c = omega arith in
        let next : (i + 1) * c ≡ i * c + c = omega arith in
        rw (
          add_channels_lem input i c 0 nought frame small,
          to_mono-means input n (i + 1) (grind arith) small,
          at,
          next,
          drop-drop c (i * c) input,
        )

    -- A block of the caller's array, one frame long, is filled with a sample.
    put_channels_lem :
        (v : F) (i ch : ℕ) (pre mid post : List F)
        → length pre ≡ i * c + ch
        → length (pre ++ (mid ++ post)) < u32
        → put_channels c v i (length mid) ch (pre ++ (mid ++ post))
          ≡ some (pre ++ (replicate (length mid) v ++ post))
    unfolding put_channels
    put_channels_lem v i ch pre [] post e small = refl
    put_channels_lem v i ch pre (m ∷ mid) post e small =
        let size = length-append pre (m ∷ (mid ++ post)) in
        let at : add32 (mul32 i c) ch ≡ i * c + ch = omega (arith, size) in
        let inside : i * c + ch < length (pre ++ (m ∷ (mid ++ post))) = omega (arith, size) in
        let moved : (xs : List F) → (pre ++ v ∷ []) ++ xs ≡ pre ++ v ∷ xs =
          λ xs. append_assoc pre (v ∷ []) xs in
        let ih =
          put_channels_lem v i (ch + 1) (pre ++ v ∷ []) mid post
            (omega (arith, length-append pre (v ∷ [])))
            (omega (
              arith,
              size,
              ap length (moved (mid ++ post)),
              length-append pre (v ∷ (mid ++ post)),
            )) in
        rw (at, lt→ltb _ _ inside, set-append pre m (mid ++ post) (i * c + ch) v e)
          (rw (← moved (mid ++ post), ← moved (replicate (length mid) v ++ post)) ih)

    -- For samples within the output buffer, and frames within the caller's array of less than
    -- 2^32 samples: the frames hold each sample, clipped, on every channel, and the rest of the
    -- array stays.
    pub from_mono-spread :
        (buffer : List F) (pos n i : ℕ) (pre mid post : List F)
        → pos + (i + n) ≤ length buffer
        → length pre ≡ i * c
        → length mid ≡ n * c
        → length (pre ++ (mid ++ post)) < u32
        → from_mono c buffer pos n i (pre ++ (mid ++ post))
          ≡ some (pre ++ (spread c (map clip (slice (pos + i) n buffer)) ++ post))
    unfolding from_mono
    from_mono-spread buffer pos zero i pre [] post h e g small = refl
    from_mono-spread buffer pos zero i pre (m ∷ mid) post h e g small = absurd (omega arith)
    from_mono-spread buffer pos (suc n) i pre mid post h e g small =
        let (x, got, rest) = split_at (pos + i) buffer (omega arith) in
        let first = take c mid in
        let others = drop c mid in
        let enough : c ≤ length mid = omega arith in
        let size : length first ≡ c = omega (arith, length-take c mid) in
        let cut : pre ++ (mid ++ post) ≡ pre ++ (first ++ (others ++ post)) =
          ap (◌++◌ pre)
            (ap (λ t. t ++ post) (sym (take-append-drop c mid)) ∙ append_assoc first others post) in
        let filled =
          put_channels_lem (clip x) i 0 pre first (others ++ post) (omega arith)
            (rw (← cut) small) in
        let joined : (xs : List F)
            → (pre ++ replicate c (clip x)) ++ xs ≡ pre ++ (replicate c (clip x) ++ xs) =
          λ xs. append_assoc pre (replicate c (clip x)) xs in
        let ih =
          from_mono-spread buffer pos n (i + 1) (pre ++ replicate c (clip x)) others post
            (omega arith)
            (grind (arith, length-append pre (replicate c (clip x)), length-replicate c (clip x)))
            (omega (arith, length-drop c mid))
            (omega (
              arith,
              length-append pre (mid ++ post),
              length-append mid post,
              length-append (pre ++ replicate c (clip x)) (others ++ post),
              length-append pre (replicate c (clip x)),
              length-append others post,
              length-replicate c (clip x),
              length-drop c mid,
            )) in
        let ready : List F = spread c (map clip (take n (drop (pos + i + 1) buffer))) in
        let next : pos + (i + 1) ≡ pos + i + 1 = omega arith in
        rw (got, rest, cut, rw size at filled, ← joined (others ++ post))
          ((rw next at ih)
            ∙ ap some (
                joined (ready ++ post)
                ∙ ap (◌++◌ pre) (sym (append_assoc (replicate c (clip x)) ready post))))
