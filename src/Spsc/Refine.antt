-- ===== src/Spsc/Refine.antt =====
-- Called from one thread at a time, the ring buffer is the bounded queue of its contents.
use native.Mathlib.Decide.{dec_le}
use noise_ai.Base.{
  ℕ, ◌+◌, ◌-◌, ◌≤◌, ◌<◌, ◌≡◌, refl, lt→ltb, le→ltb, le→leb, lt→leb, some, List, [], arith, length,
  length-replicate, u64, add64,
}
use noise_ai.Queue.{push, pop, free}
use noise_ai.Circular.Holds.{
  Laps, Holds, words-length, words-free, copy_in-Holds, copy_out-Holds, fresh-Holds,
  length-contents,
}
use noise_ai.Circular.Copies.{splice}
use noise_ai.Spsc.{SpscRingBuffer, make, available_read, available_write, write, read, reset}

module _ {ℓ} {A : Type ℓ} (d : A) where
  -- The buffer holds `q`, and `W` samples have been written since it was made or reset.
  pub record IsRing (s : SpscRingBuffer A) (W : ℕ) (q : List A) : Type ℓ where
    pub start : ℕ
    pub holds : Holds d s.capacity s.buffer s.write_pos s.read_pos start W q

  pub make-IsRing : (c : ℕ) → 0 < c → c < u64 → IsRing (make d c) 0 []
  unfolding make
  make-IsRing c pos small = record {
    start = 0;
    holds = fresh-Holds d c _ pos small (length-replicate c d);
  }

  module _ {s : SpscRingBuffer A} {W : ℕ} {q : List A} (h : IsRing s W q) where
    open h use {holds}

    pub available_lem : (available_read s ≡ length q) × (available_write s ≡ free s.capacity q)
    unfolding available_read available_write free
    available_lem = (words-length d holds, words-free d holds)

    -- `write` returns what `push` returns, and leaves the buffer holding what `push` leaves.
    pub write_refines :
        (samples : List A) (n : ℕ)
        → n ≤ length samples
        → Laps s.capacity (W + n)
        → (s' : SpscRingBuffer A) × (write s samples n ≡ some ((push s.capacity q samples n).0, s'))
          × (s'.capacity ≡ s.capacity)
          × (W' : ℕ) × (W' ≤ W + n)
          × IsRing s' W' (push s.capacity q samples n).1
    unfolding write push
    write_refines samples n given laps = elim (dec_le (length q + n) s.capacity) [
      | yes fit ↦
          let (copied, held) = copy_in-Holds d holds samples n fit given laps in
          rw
            (
              words-free d holds,
              le→ltb (s.capacity - length q) n (omega arith),
              le→leb (length q + n) s.capacity fit,
              copied,
            )
            (
              record s {
                buffer = splice s.capacity s.buffer s.write_pos samples n;
                write_pos = add64 s.write_pos n;
              },
              refl,
              refl,
              W + n,
              omega arith,
              record { start = h.start; holds = held },
            )
      | no full ↦
          let fits : length q ≤ s.capacity = omega (arith, length-contents d holds, holds.fits) in
          rw
            (
              words-free d holds,
              lt→ltb (s.capacity - length q) n (omega arith),
              lt→leb (length q + n) s.capacity (omega arith),
            )
            (s, refl, refl, W, omega arith, h)
    ]

    -- `read` returns what `pop` returns, in the caller's array too, and leaves what `pop` leaves.
    pub read_refines :
        (samples : List A) (n : ℕ)
        → n ≤ length samples
        → let (ok, out, q') = pop q samples n in
          (s' : SpscRingBuffer A) × (read s samples n ≡ some (ok, out, s'))
          × (s'.capacity ≡ s.capacity)
          × IsRing s' W q'
    unfolding read pop
    read_refines samples n given = elim (dec_le n (length q)) [
      | yes held ↦
          let (copied, rest) = copy_out-Holds d holds samples n held given in
          rw (words-length d holds, le→ltb (length q) n held, le→leb n (length q) held, copied)
            (
              record s { read_pos = add64 s.read_pos n },
              refl,
              refl,
              record { start = h.start + n; holds = rest },
            )
      | no few ↦
          rw
            (
              words-length d holds,
              lt→ltb (length q) n (omega arith),
              lt→leb n (length q) (omega arith),
            )
            (s, refl, refl, h)
    ]

    pub reset_refines : IsRing (reset s) 0 []
    unfolding reset
    reset_refines = record {
      start = 0;
      holds = fresh-Holds d s.capacity s.buffer holds.room holds.small holds.full;
    }
