-- ===== src/Shared/Refine.antt =====
-- A mapped segment is the bounded queue of its contents, for the producer and for the consumer.
use native.Mathlib.Decide.{dec_le}
use noise_ai.Base.{
  ℕ, ◌+◌, ◌-◌, ◌≤◌, ◌≡◌, refl, lt→ltb, le→ltb, le→leb, lt→leb, Bool, if◌then◌else◌, Option, some,
  List, [], arith, length, add64,
}
use noise_ai.Queue.{push, pop, free}
use noise_ai.Circular.Holds.{
  Laps, Holds, words-length, words-free, copy_in-Holds, copy_out-Holds, flush-Holds,
  length-contents,
}
use noise_ai.Circular.Copies.{splice}
use noise_ai.Shared.{Segment, write_segment, read_segment, flush, available_read, available_write}

module _ {ℓ} {A : Type ℓ} (d : A) where
  -- The segment holds `q`, and `W` samples have been written since it was created.
  pub record IsSegment (s : Segment A) (W : ℕ) (q : List A) : Type ℓ where
    pub start : ℕ
    pub holds : Holds d s.capacity s.samples s.write_pos s.read_pos start W q

  module _ {s : Segment A} {W : ℕ} {q : List A} (h : IsSegment s W q) where
    open h use {holds}

    pub available_lem :
        (available_read (some s) ≡ length q) × (available_write (some s) ≡ free s.capacity q)
    unfolding available_read available_write free
    available_lem = (words-length d holds, words-free d holds)

    -- What the producer's call returns and leaves: the heartbeat goes up by one with a block that
    -- is taken, and stays with one that is not.
    pub record Produces (n : ℕ) (ok : Bool) (q' : List A) (r : Option (Bool × Segment A))
        : Type ℓ where
      pub next : Segment A
      pub total : ℕ
      pub ran : r ≡ some (ok, next)
      pub heartbeat : next.heartbeat ≡ (if ok then add64 s.heartbeat 1 else s.heartbeat)
      pub capacity : next.capacity ≡ s.capacity
      pub active : next.active ≡ s.active
      pub written : total ≡ (if ok then W + n else W)
      pub segment : IsSegment next total q'

    -- On a segment that holds the queue `q`, where the capacity divides 2^64 or the positions do
    -- not reach 2^64: the producer's `write` of a block within the caller's array has no
    -- undefined behaviour, takes the block whole or not at all as the bounded queue does, and
    -- raises the heartbeat by one (modulo 2^64) when it takes it, and else leaves it; the
    -- capacity and the active flag stay.
    pub write-Produces :
        (block : List A) (n : ℕ)
        → n ≤ length block
        → Laps s.capacity (W + n)
        → let (ok, q') = push s.capacity q block n in Produces n ok q' (write_segment s block n)
    unfolding write_segment push
    write-Produces block n given laps = elim (dec_le (length q + n) s.capacity) [
      | yes fit ↦
          let (copied, held) = copy_in-Holds d holds block n fit given laps in
          rw
            (
              words-free d holds,
              le→ltb (s.capacity - length q) n (omega arith),
              le→leb (length q + n) s.capacity fit,
              copied,
            )
            (record {
              next = record s {
                samples = splice s.capacity s.samples s.write_pos block n;
                write_pos = add64 s.write_pos n;
                heartbeat = add64 s.heartbeat 1;
              };
              total = W + n;
              ran = refl;
              heartbeat = refl;
              capacity = refl;
              active = refl;
              written = refl;
              segment = record { start = h.start; holds = held };
            })
      | no full ↦
          let fits : length q ≤ s.capacity = omega (arith, length-contents d holds, holds.fits) in
          rw
            (
              words-free d holds,
              lt→ltb (s.capacity - length q) n (omega arith),
              lt→leb (length q + n) s.capacity (omega arith),
            )
            (record {
              next = s;
              total = W;
              ran = refl;
              heartbeat = refl;
              capacity = refl;
              active = refl;
              written = refl;
              segment = h;
            })
    ]

    -- What the consumer's call returns and leaves: the producer's fields stay.
    pub record Consumes (ok : Bool) (out q' : List A) (r : Option (Bool × List A × Segment A))
        : Type ℓ where
      pub next : Segment A
      pub ran : r ≡ some (ok, out, next)
      pub heartbeat : next.heartbeat ≡ s.heartbeat
      pub capacity : next.capacity ≡ s.capacity
      pub active : next.active ≡ s.active
      pub written : next.write_pos ≡ s.write_pos
      pub segment : IsSegment next W q'

    -- On a segment that holds the queue `q`: the consumer's `read` of a block within the caller's
    -- array has no undefined behaviour, gives the block whole or leaves the array alone as the
    -- bounded queue does, and leaves the write position, the heartbeat, the capacity and the
    -- active flag as they are.
    pub read-Consumes :
        (block : List A) (n : ℕ)
        → n ≤ length block
        → let (ok, out, q') = pop q block n in Consumes ok out q' (read_segment s block n)
    unfolding read_segment pop
    read-Consumes block n given = elim (dec_le n (length q)) [
      | yes held ↦
          let (copied, rest) = copy_out-Holds d holds block n held given in
          rw (words-length d holds, le→ltb (length q) n held, le→leb n (length q) held, copied)
            (record {
              next = record s { read_pos = add64 s.read_pos n };
              ran = refl;
              heartbeat = refl;
              capacity = refl;
              active = refl;
              written = refl;
              segment = record { start = h.start + n; holds = rest };
            })
      | no few ↦
          rw
            (
              words-length d holds,
              lt→ltb (length q) n (omega arith),
              lt→leb n (length q) (omega arith),
            )
            (record {
              next = s;
              ran = refl;
              heartbeat = refl;
              capacity = refl;
              active = refl;
              written = refl;
              segment = h;
            })
    ]

    -- On a segment that holds a queue, `flush` sets the read position to the write position and
    -- no more, and the segment then holds the empty queue.
    pub flush-IsSegment :
        (flush (some s) ≡ some (record s { read_pos = s.write_pos }))
        × IsSegment (record s { read_pos = s.write_pos }) W []
    unfolding flush
    flush-IsSegment = (refl, record { start = W; holds = flush-Holds d holds })
