-- ===== src/Frames.antt =====
-- The frame of both denoisers, and copies of whole frames.
use noise_ai.Base.{
  ℕ, ◌≡◌, ◌≤◌, leb, le→leb, if◌then◌else◌, Option, some, none, List, length, take, replicate,
  length-replicate,
}
use noise_ai.Float.{Float, nought}

-- `DENOISE_FRAME_SIZE` of engine.cpp and `FRAME_SIZE` of deepfilter.cpp.
unfoldable pub frame_size : ℕ
frame_size = 480

-- The first `n` elements of an array; `none` is a read past its end.
abbrev pub read_block : {F : Type 0} → ℕ → List F → Option (List F)
read_block n xs = if leb n (length xs) then some (take n xs) else none

pub read_block-some :
    {F : Type 0} (n : ℕ) (xs : List F) → n ≤ length xs → read_block n xs ≡ some (take n xs)
read_block-some n xs h = rw (le→leb n (length xs) h)

-- `n` zeros, as `memset` or `std::fill` leaves them.
unfoldable pub zeros : {F : Type 0} ⦃f : Float F⦄ → ℕ → List F
zeros n = replicate n nought

pub length-zeros : (F : Type 0) ⦃f : Float F⦄ (n : ℕ) → length (zeros {F = F} n) ≡ n
unfolding zeros
length-zeros F n = length-replicate n nought
