-- ===== src/Shared/Determined.antt =====
-- The queue that a segment holds is determined by its bytes.
use mathlib.Core.List.{append-nil}
use mathlib.Core.Option.{some-injective}
use mathlib.Core.Path.{subst}
use noise_ai.Base.{
  ℕ, ◌≡◌, refl, sym, ap, ◌∙◌, Bool, true, if-true, le→leb, some, List, ◌++◌, arith, length, take,
  drop, take-length, drop-length,
}
use noise_ai.Queue.{pop}
use noise_ai.Circular.Holds.{words-length}
use noise_ai.Shared.{Segment, read_segment}
use noise_ai.Shared.Refine.{IsSegment, Consumes, read-Consumes}

module _ {A : Type 0} (d : A) {s : Segment A} where
  -- A read of all that is held, into an array of the same size.
  read_all :
      {W : ℕ} {q : List A}
      → IsSegment d s W q
      → (block : List A) → length block ≡ length q
      → (next : Segment A) × (read_segment s block (length q) ≡ some (true, q, next))
  unfolding pop
  read_all {W} {q} held block size =
      let c =
        subst
          (λ (r : Bool × List A × List A).
            Consumes d held r.0 r.1 r.2 (read_segment s block (length q)))
          (if-true _ _ _ (le→leb (length q) (length q) (omega arith)))
          (read-Consumes d held block (length q) (omega (arith, size))) in
      let whole : take (length q) q ++ drop (length q) block ≡ q =
        ap (λ xs. xs ++ drop (length q) block) (take-length (length q) q (omega arith))
        ∙ ap (◌++◌ q) (drop-length (length q) block (omega (arith, size)))
        ∙ append-nil q in
      (c.next, c.ran ∙ ap (λ out. some (true, out, c.next)) whole)

  pub IsSegment-unique :
      {W W' : ℕ} {q q' : List A} → IsSegment d s W q → IsSegment d s W' q' → q ≡ q'
  IsSegment-unique {q = q} {q' = q'} held held' =
      let size : length q ≡ length q' =
        sym (words-length d held.holds) ∙ words-length d held'.holds in
      let (next, ran) = read_all held q refl in
      let (next', ran') = read_all held' q size in
      ap (λ (r : Bool × List A × Segment A). r.1)
        (some-injective _ _ (sym ran ∙ ap (read_segment s q) size ∙ ran'))
