-- ===== src/Spsc/Threads/Produce.antt =====
-- The producer's steps keep the invariant.
use mathlib.Core.Path.{subst}
use mathlib.Core.List.{append-nil}
use noise_ai.Base.{
  ℕ, ◌+◌, ◌-◌, ◌%◌, ◌≤◌, ◌≡◌, refl, sym, ap, ◌∙◌, Bool-cases, inl, inr, ltb, ltb→le, if-true,
  if-false, some, List, ◌++◌, length, take, drop, length-append, length-take, length-drop,
  take-append_le, drop-append_le, arith, u64, sub64,
}
use noise_ai.Circular.Holds.{Laps, Holds, copy_in-Holds}
use noise_ai.Circular.Copies.{splice}
use noise_ai.Spsc.Atomic.{store-Tracks, extend, extend-seen, at-newest, store}
use noise_ai.Spsc.Threads.{Producer, Consumer, System, enter_write, fill, publish}
use noise_ai.Spsc.Threads.Invariant.{
  filled, Admits, IsProducer, IsConsumer, Content, Content-of-Holds, IsShared,
}

module _ {A : Type 0} {d : A} {s : System A} {written consumed : List A}
    (v : IsShared d s written consumed) where
  open v use {
    write_at, read_at, writes, reads, read_seen, write_seen, order, stream, room, behind, held,
    producer, consumer,
  }

  -- The room that the producer computes from a word of the read position.
  free_words :
      (k : ℕ)
      → s.producer ≡ Producer.idle
      → s.read_seen ≤ k
      → k ≤ s.read_pos.latest
      → sub64 s.capacity (sub64 (s.write_pos.value s.write_pos.latest) (s.read_pos.value k))
        ≡ s.capacity + read_at k - length written
  free_words k at old new = omega (
    arith,
    writes.words s.write_pos.latest (omega arith),
    writes.newest,
    reads.words k new,
    reads.mono s.read_seen k old new,
    at-newest reads k new,
    held.small,
  )

  pub enter_write-IsShared :
      (k : ℕ) (samples : List A) (n : ℕ)
      → s.producer ≡ Producer.idle
      → s.read_seen ≤ k
      → k ≤ s.read_pos.latest
      → n ≤ length samples
      → IsShared d (enter_write k samples n s) written consumed
  unfolding enter_write
  enter_write-IsShared k samples n at old new given = elim (Bool-cases (ltb available n)) [
    | inl full ↦
        subst (λ (u : System A). IsShared d u written consumed) (sym (if-true _ _ _ full))
          (record {
            write_at = write_at;
            read_at = read_at;
            writes = writes;
            reads = reads;
            read_seen = new;
            write_seen = write_seen;
            order = order;
            stream = stream;
            room = omega (arith, reads.mono s.read_seen k old new);
            behind = behind;
            held = held;
            producer =
                subst (λ (p : Producer A). IsProducer (length written) (read_at k + s.capacity) p)
                  (sym at) tt;
            consumer = consumer;
          })
    | inr free ↦
        subst (λ (u : System A). IsShared d u written consumed) (sym (if-false _ _ _ free))
          (record {
            write_at = write_at;
            read_at = read_at;
            writes = writes;
            reads = reads;
            read_seen = new;
            write_seen = write_seen;
            order = order;
            stream = stream;
            room = omega (arith, reads.mono s.read_seen k old new);
            behind = behind;
            held =
                subst
                  (λ (p : Producer A). Content d s.capacity s.buffer consumed (written ++ filled p))
                  at held;
            producer = record {
              given = given;
              word =
                  writes.words s.write_pos.latest (omega arith) ∙ ap (λ t. t % u64) writes.newest;
              room = omega (
                arith,
                ltb→le available n free,
                free_words k at old new,
                reads.mono s.read_seen k old new,
              );
            };
            consumer = consumer;
          })
  ]
    where
      available : ℕ
      available =
          sub64 s.capacity (sub64 (s.write_pos.value s.write_pos.latest) (s.read_pos.value k))

  -- A copy that was admitted is inside the arrays.
  pub fill-IsShared :
      (samples : List A) (n w : ℕ)
      → s.producer ≡ Producer.admitted samples n w
      → Laps s.capacity (length written + n)
      → (u : System A) × (fill samples n w s ≡ some u) × IsShared d u written consumed
  unfolding fill
  fill-IsShared samples n w at laps =
      let p : Admits (length written) (read_at s.read_seen + s.capacity) samples n w =
        subst (λ (p : Producer A). IsProducer (length written) (read_at s.read_seen + s.capacity) p)
          at producer in
      let now : Holds d s.capacity s.buffer w (length consumed % u64) (length consumed)
          (length written) (drop (length consumed) written) =
        rw p.word (
          rw (append-nil written) at (
            subst (λ (p : Producer A). Content d s.capacity s.buffer consumed (written ++ filled p))
              at held)) in
      let (ran, held') =
        copy_in-Holds d now samples n
          (omega (
            arith,
            p.room,
            length-drop (length consumed) written,
            at-newest reads s.read_seen read_seen,
          ))
          p.given laps in
      let total : length written + n ≡ length (written ++ take n samples) =
        omega (arith, p.given, length-append written (take n samples), length-take n samples) in
      (
        record s {
          buffer = splice s.capacity s.buffer w samples n;
          producer = Producer.copied samples n w;
        },
        rw ran,
        record {
          write_at = write_at;
          read_at = read_at;
          writes = writes;
          reads = reads;
          read_seen = read_seen;
          write_seen = write_seen;
          order = order;
          stream = stream;
          room = room;
          behind = behind;
          held =
              Content-of-Holds d s.capacity _ consumed (written ++ take n samples) held' refl total
                (sym (drop-append_le (length consumed) written (take n samples) order));
          producer = p;
          consumer = consumer;
        },
      )

  -- What the consumer has read stays what it read when more is published.
  grown :
      (c : Consumer A) (limit : ℕ) (more : List A)
      → IsConsumer written (length consumed) limit c
      → limit ≤ length written
      → IsConsumer (written ++ more) (length consumed) limit c
  grown Consumer.idle limit more h below = tt
  grown (Consumer.admitted block n r) limit more h below = h
  grown (Consumer.copied block n r) limit more (h, same) below = (
    h,
    same
        ∙ sym (
            ap (take n) (drop-append_le (length consumed) written more order)
            ∙ take-append_le n (drop (length consumed) written) more
                (omega (arith, h.room, length-drop (length consumed) written))),
  )

  pub publish-IsShared :
      (samples : List A) (n w : ℕ)
      → s.producer ≡ Producer.copied samples n w
      → IsShared d (publish n w s) (written ++ take n samples) consumed
  unfolding publish store
  publish-IsShared samples n w at =
      let p : Admits (length written) (read_at s.read_seen + s.capacity) samples n w =
        subst (λ (p : Producer A). IsProducer (length written) (read_at s.read_seen + s.capacity) p)
          at producer in
      let total : length written + n ≡ length (written ++ take n samples) =
        omega (arith, p.given, length-append written (take n samples), length-take n samples) in
      record {
        write_at = extend s.write_pos.latest write_at (length (written ++ take n samples));
        read_at = read_at;
        writes =
            store-Tracks writes _ (length (written ++ take n samples))
              (omega (arith, total, p.word)) (omega (arith, total));
        reads = reads;
        read_seen = read_seen;
        write_seen = omega (arith, write_seen);
        order = omega (arith, total, order);
        stream = stream ∙ sym (take-append_le (length consumed) written (take n samples) order);
        room = omega (arith, total, p.room);
        behind =
            rw (extend-seen writes s.write_seen (length (written ++ take n samples)) write_seen)
              behind;
        held = rw (append-nil (written ++ take n samples)) (
            subst (λ (p : Producer A). Content d s.capacity s.buffer consumed (written ++ filled p))
              at held);
        producer = tt;
        consumer =
            rw (extend-seen writes s.write_seen (length (written ++ take n samples)) write_seen) (
              grown s.consumer (write_at s.write_seen) (take n samples) consumer
                (at-newest writes s.write_seen write_seen));
      }
