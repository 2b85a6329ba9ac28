-- ===== src/Spsc/Threads/Consume.antt =====
-- The consumer's steps keep the invariant.
use mathlib.Core.Path.{subst}
use noise_ai.Base.{
  ℕ, ◌+◌, ◌-◌, ◌%◌, ◌≤◌, ◌≡◌, refl, sym, ap, ◌∙◌, Bool-cases, inl, inr, ltb, ltb→le, if-true,
  if-false, some, List, ◌++◌, length, take, drop, length-append, length-take, length-drop,
  take-append_le, drop-append_le, take-add, drop-drop, take-length, arith, u64, sub64,
}
use noise_ai.Circular.Holds.{Holds, copy_out-Holds}
use noise_ai.Spsc.Atomic.{store-Tracks, extend, extend-seen, at-newest, store}
use noise_ai.Spsc.Threads.{Consumer, System, enter_read, empty_out, release}
use noise_ai.Spsc.Threads.Invariant.{filled, Admits, IsConsumer, Content-of-Holds, IsShared}

module _ {A : Type 0} {d : A} {s : System A} {written consumed : List A}
    (v : IsShared d s written consumed) where
  open v use {
    write_at, read_at, writes, reads, read_seen, write_seen, order, stream, room, behind, held,
    producer, consumer,
  }

  -- The samples that the consumer computes to be there from a word of the write position.
  held_words :
      (k : ℕ)
      → s.write_seen ≤ k
      → k ≤ s.write_pos.latest
      → sub64 (s.write_pos.value k) (s.read_pos.value s.read_pos.latest)
        ≡ write_at k - length consumed
  held_words k old new = omega (
    arith,
    reads.words s.read_pos.latest (omega arith),
    reads.newest,
    writes.words k new,
    writes.mono s.write_seen k old new,
    at-newest writes k new,
    at-newest reads s.read_seen read_seen,
    room,
    held.small,
  )

  pub enter_read-IsShared :
      (k : ℕ) (block : List A) (n : ℕ)
      → s.consumer ≡ Consumer.idle
      → s.write_seen ≤ k
      → k ≤ s.write_pos.latest
      → n ≤ length block
      → IsShared d (enter_read k block n s) written consumed
  unfolding enter_read
  enter_read-IsShared k block n at old new given = elim (Bool-cases (ltb available n)) [
    | inl few ↦
        subst (λ (u : System A). IsShared d u written consumed) (sym (if-true _ _ _ few))
          (record {
            write_at = write_at;
            read_at = read_at;
            writes = writes;
            reads = reads;
            read_seen = read_seen;
            write_seen = new;
            order = order;
            stream = stream;
            room = room;
            behind = omega (arith, behind, writes.mono s.write_seen k old new);
            held = held;
            producer = producer;
            consumer =
                subst (λ (c : Consumer A). IsConsumer written (length consumed) (write_at k) c)
                  (sym at) tt;
          })
    | inr enough ↦
        subst (λ (u : System A). IsShared d u written consumed) (sym (if-false _ _ _ enough))
          (record {
            write_at = write_at;
            read_at = read_at;
            writes = writes;
            reads = reads;
            read_seen = read_seen;
            write_seen = new;
            order = order;
            stream = stream;
            room = room;
            behind = omega (arith, behind, writes.mono s.write_seen k old new);
            held = held;
            producer = producer;
            consumer = record {
              given = given;
              word = reads.words s.read_pos.latest (omega arith) ∙ ap (λ t. t % u64) reads.newest;
              room = omega (
                arith,
                ltb→le available n enough,
                held_words k old new,
                behind,
                writes.mono s.write_seen k old new,
              );
            };
          })
  ]
    where
      available : ℕ
      available = sub64 (s.write_pos.value k) (s.read_pos.value s.read_pos.latest)

  -- What the consumer was admitted to read is the oldest part of what the array holds.
  oldest :
      (n : ℕ)
      → length consumed + n ≤ length written
      → take n (drop (length consumed) (written ++ filled s.producer))
        ≡ take n (drop (length consumed) written)
  oldest n h =
      ap (take n) (drop-append_le (length consumed) written (filled s.producer) order)
      ∙ take-append_le n (drop (length consumed) written) (filled s.producer)
          (omega (arith, length-drop (length consumed) written))

  reach :
      (n : ℕ)
      → length consumed + n ≤ length written
      → n ≤ length (drop (length consumed) (written ++ filled s.producer))
  reach n h = omega (
    arith,
    length-drop (length consumed) (written ++ filled s.producer),
    length-append written (filled s.producer),
  )

  -- A copy that was admitted is inside the arrays.
  pub empty_out-IsShared :
      (block : List A) (n r : ℕ)
      → s.consumer ≡ Consumer.admitted block n r
      → (u : System A) × (empty_out block n r s ≡ some u) × IsShared d u written consumed
  unfolding empty_out
  empty_out-IsShared block n r at =
      let c : Admits (length consumed) (write_at s.write_seen) block n r =
        subst (λ (c : Consumer A). IsConsumer written (length consumed) (write_at s.write_seen) c)
          at consumer in
      let inside : length consumed + n ≤ length written =
        omega (arith, c.room, at-newest writes s.write_seen write_seen) in
      let q = drop (length consumed) (written ++ filled s.producer) in
      let now : Holds d s.capacity s.buffer (length (written ++ filled s.producer) % u64) r
          (length consumed) (length (written ++ filled s.producer)) q =
        rw c.word held in
      let (ran, held') = copy_out-Holds d now block n (reach n inside) c.given in
      let size : length (take n q) ≡ n = omega (arith, length-take n q, reach n inside) in
      (
        record s { consumer = Consumer.copied (take n q ++ drop n block) n r },
        rw ran,
        record {
          write_at = write_at;
          read_at = read_at;
          writes = writes;
          reads = reads;
          read_seen = read_seen;
          write_seen = write_seen;
          order = order;
          stream = stream;
          room = room;
          behind = behind;
          held = held;
          producer = producer;
          consumer = (
            record {
              given = omega (arith, size, length-append (take n q) (drop n block));
              word = c.word;
              room = c.room;
            },
            take-append_le n (take n q) (drop n block) (omega (arith, size))
                ∙ take-length n (take n q) (omega (arith, size))
                ∙ oldest n inside,
          );
        },
      )

  pub release-IsShared :
      (block : List A) (n r : ℕ)
      → s.consumer ≡ Consumer.copied block n r
      → IsShared d (release n r s) written (consumed ++ take n block)
  unfolding release store
  release-IsShared block n r at =
      let (c, same) : IsConsumer written (length consumed) (write_at s.write_seen)
          (Consumer.copied block n r) =
        subst (λ (c : Consumer A). IsConsumer written (length consumed) (write_at s.write_seen) c)
          at consumer in
      let inside : length consumed + n ≤ length written =
        omega (arith, c.room, at-newest writes s.write_seen write_seen) in
      let total : length consumed + n ≡ length (consumed ++ take n block) =
        omega (arith, c.given, length-append consumed (take n block), length-take n block) in
      let (ran, held') = copy_out-Holds d held block n (reach n inside) c.given in
      record {
        write_at = write_at;
        read_at = extend s.read_pos.latest read_at (length (consumed ++ take n block));
        writes = writes;
        reads =
            store-Tracks reads _ (length (consumed ++ take n block)) (omega (arith, total, c.word))
              (omega (arith, total));
        read_seen = omega (arith, read_seen);
        write_seen = write_seen;
        order = omega (arith, total, inside);
        stream =
            ap (λ (t : List A). t ++ take n block) stream
            ∙ ap (λ (t : List A). take (length consumed) written ++ t) same
            ∙ sym (take-add (length consumed) n written)
            ∙ ap (λ k. take k written) total;
        room =
            rw (extend-seen reads s.read_seen (length (consumed ++ take n block)) read_seen) room;
        behind = omega (arith, total, c.room);
        held =
            Content-of-Holds d s.capacity s.buffer (consumed ++ take n block)
              (written ++ filled s.producer) held' total refl
              (drop-drop n (length consumed) (written ++ filled s.producer)
                ∙ ap (λ k. drop k (written ++ filled s.producer)) total);
        producer =
            rw (extend-seen reads s.read_seen (length (consumed ++ take n block)) read_seen)
              producer;
        consumer = tt;
      }
