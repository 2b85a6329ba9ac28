-- ===== src/Driver/Blocks.antt =====
-- The block that a callback fills: with silence, or by a read of the segment.
use mathlib.Core.Path.{subst}
use noise_ai.Base.{
  ℕ, ◌*◌, ◌/◌, ◌%◌, ◌≤◌, ◌<◌, ◌≡◌, ap, ◌∙◌, Bool, true, false, leb, le→leb, lt→leb, if-true,
  if-false, some, List, ◌++◌, arith, length, take, drop, take-length, memcpy, memcpy-some,
  overwrite, overwrite_start, u32,
}
use noise_ai.Float.{Float, nought}
use noise_ai.Frames.{zeros, length-zeros}
use noise_ai.Queue.{pop}
use noise_ai.Shared.{Segment, read_segment}
use noise_ai.Shared.Refine.{IsSegment, Consumes, read-Consumes}
use noise_ai.Driver.{num_channels, silence, total_samples}

module _ {F : Type 0} ⦃f : Float F⦄ where
  module _ (bytes_count n : ℕ) (output : List F) (bytes : bytes_count ≡ n * 4) (even : n % 2 ≡ 0)
      (room : n ≤ length output) (small : bytes_count < u32) where
    pub memset_lem :
        memcpy output 0 (zeros (bytes_count / 4)) 0 (bytes_count / 4)
        ≡ some (zeros n ++ drop n output)
    memset_lem =
        let size : bytes_count / 4 ≡ n = omega arith in
        rw
          (size, memcpy-some output 0 (zeros n) 0 n (omega arith) (omega (arith, length-zeros F n)))
          (ap some (
            ap (λ z. overwrite 0 z output)
              (take-length n (zeros n) (omega (arith, length-zeros F n)))
            ∙ overwrite_start (zeros n) output (omega (arith, length-zeros F n))
            ∙ ap (λ k. zeros n ++ drop k output) (length-zeros F n)))

    pub silence_lem : silence bytes_count output ≡ some (zeros n ++ drop n output)
    unfolding silence
    silence_lem = memset_lem

    pub total_lem : total_samples bytes_count output ≡ n
    unfolding num_channels
    total_lem = omega arith

    module _ {s : Segment F} {W : ℕ} {q : List F} (held : IsSegment nought s W q) where
      pub read_enough :
          n ≤ length q
          → Consumes nought held true
              (take n q ++ drop n output)
              (drop n q)
              (read_segment s output n)
      unfolding pop
      read_enough enough =
          subst
            (λ (r : Bool × List F × List F).
              Consumes nought held r.0 r.1 r.2 (read_segment s output n))
            (if-true (leb n (length q)) _ _ (le→leb n (length q) enough))
            (read-Consumes nought held output n room)

      pub read_short : length q < n → Consumes nought held false output q (read_segment s output n)
      unfolding pop
      read_short few =
          subst
            (λ (r : Bool × List F × List F).
              Consumes nought held r.0 r.1 r.2 (read_segment s output n))
            (if-false (leb n (length q)) _ _ (lt→leb n (length q) few))
            (read-Consumes nought held output n room)
