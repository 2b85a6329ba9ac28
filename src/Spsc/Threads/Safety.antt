-- ===== src/Spsc/Threads/Safety.antt =====
-- The ring buffer between two threads: a stream that loses nothing, copies that are never outside
-- the arrays, and copies that never touch the same cell.
use mathlib.Core.Path.{subst}
use mathlib.Core.Option.{some-injective}
use mathlib.Core.List.{append-nil}
use noise_ai.Base.{
  ℕ, ◌+◌, ◌≤◌, ◌<◌, ◌≡◌, refl, sym, ◌∙◌, some, List, [], ◌++◌, length, take, drop, length-append,
  length-take, length-replicate, arith, u64,
}
use noise_ai.Circular.Holds.{Laps, fresh-Holds}
use noise_ai.Spsc.Runs.{Laps-mono}
use noise_ai.Spsc.Atomic.{initial-Tracks, at-newest}
use noise_ai.Spsc.Threads.{
  Producer, Consumer, System, start, fill, empty_out, Step, enters_write, fills, publishes,
  enters_read, empties, releases, Run, begins, then_step,
}
use noise_ai.Spsc.Threads.Invariant.{claimed, Admits, IsProducer, IsConsumer, IsShared}
use noise_ai.Spsc.Threads.Growth.{Step-Grows, fill-copied, empty_out-copied}
use noise_ai.Spsc.Threads.Produce.{enter_write-IsShared, fill-IsShared, publish-IsShared}
use noise_ai.Spsc.Threads.Consume.{enter_read-IsShared, empty_out-IsShared, release-IsShared}

module _ {A : Type 0} (d : A) where
  pub start-IsShared : (c : ℕ) → 0 < c → c < u64 → IsShared d (start d c) [] []
  unfolding start
  start-IsShared c pos small = record {
    write_at = λ k. 0;
    read_at = λ k. 0;
    writes = initial-Tracks;
    reads = initial-Tracks;
    read_seen = omega arith;
    write_seen = omega arith;
    order = omega arith;
    stream = refl;
    room = omega arith;
    behind = omega arith;
    held = fresh-Holds d c _ pos small (length-replicate c d);
    producer = tt;
    consumer = tt;
  }

  -- The positions up to the end of an admitted write.
  claim :
      (s : System A) {written consumed : List A}
      → IsShared d s written consumed
      → (samples : List A) (n w : ℕ) → s.producer ≡ Producer.admitted samples n w
      → Laps s.capacity (length (written ++ claimed s.producer))
      → Laps s.capacity (length written + n)
  claim s {written} {consumed} v samples n w at laps =
      let p : Admits (length written) (v.read_at s.read_seen + s.capacity) samples n w =
        subst
          (λ (p : Producer A). IsProducer (length written) (v.read_at s.read_seen + s.capacity) p)
          at v.producer in
      let size : length (written ++ take n samples) ≡ length written + n =
        omega (arith, p.given, length-append written (take n samples), length-take n samples) in
      subst (Laps s.capacity) size
        (subst (λ (p : Producer A). Laps s.capacity (length (written ++ claimed p))) at laps)

  silent :
      {u : System A} {wrote got : List A} (written consumed : List A)
      → wrote ≡ []
      → got ≡ []
      → IsShared d u written consumed
      → IsShared d u (written ++ wrote) (consumed ++ got)
  silent {u} written consumed w g v = rw (w, g, append-nil written, append-nil consumed) v

  -- A step keeps the invariant, as long as the positions that the producer was admitted to fill
  -- index the array.
  pub Step-IsShared :
      {s u : System A} {wrote got : List A} (written consumed : List A)
      → Step s wrote got u
      → Laps s.capacity (length (written ++ claimed s.producer))
      → IsShared d s written consumed
      → IsShared d u (written ++ wrote) (consumed ++ got)
  Step-IsShared written consumed (enters_write k samples n at old new given w g e) laps v =
      silent written consumed w g (
        subst (λ (u : System A). IsShared d u written consumed) (sym e)
          (enter_write-IsShared v k samples n at old new given))
  Step-IsShared {s} written consumed (fills samples n w at wr g ran) laps v =
      let (u', ran', kept) = fill-IsShared v samples n w at (claim s v samples n w at laps) in
      silent written consumed wr g (
        subst (λ (u : System A). IsShared d u written consumed)
          (some-injective _ _ (sym ran' ∙ ran)) kept)
  Step-IsShared written consumed (publishes samples n w at wr g e) laps v =
      rw (wr, g, append-nil consumed)
        (subst (λ (u : System A). IsShared d u (written ++ take n samples) consumed) (sym e)
          (publish-IsShared v samples n w at))
  Step-IsShared written consumed (enters_read k block n at old new given w g e) laps v =
      silent written consumed w g (
        subst (λ (u : System A). IsShared d u written consumed) (sym e)
          (enter_read-IsShared v k block n at old new given))
  Step-IsShared written consumed (empties block n r at w g ran) laps v =
      let (u', ran', kept) = empty_out-IsShared v block n r at in
      silent written consumed w g (
        subst (λ (u : System A). IsShared d u written consumed)
          (some-injective _ _ (sym ran' ∙ ran)) kept)
  Step-IsShared written consumed (releases block n r at w g e) laps v =
      rw (w, g, append-nil written)
        (subst (λ (u : System A). IsShared d u written (consumed ++ take n block)) (sym e)
          (release-IsShared v block n r at))

  -- A consumer past the check of `read` goes on to the oldest samples that it has not had.
  pub reads_on :
      {s : System A} {written consumed : List A}
      → IsShared d s written consumed
      → (block : List A) (n r : ℕ) → s.consumer ≡ Consumer.admitted block n r
      → (u : System A) × (out : List A) × (empty_out block n r s ≡ some u)
        × (u.consumer ≡ Consumer.copied out n r)
        × (take n out ≡ take n (drop (length consumed) written))
  reads_on {s} {written} {consumed} v block n r at =
      let (u, ran, kept) = empty_out-IsShared v block n r at in
      let (out, phase) = empty_out-copied block n r s u ran in
      (
        u,
        out,
        ran,
        phase,
        (subst
            (λ (c : Consumer A).
              IsConsumer written (length consumed) (kept.write_at u.write_seen) c)
            phase kept.consumer).1,
      )

  pub Run-IsShared :
      {c : ℕ} {s : System A} {written consumed : List A}
      → Run d c s written consumed
      → 0 < c
      → c < u64
      → Laps c (length (written ++ claimed s.producer))
      → (s.capacity ≡ c) × IsShared d s written consumed
  unfolding start
  Run-IsShared begins pos small laps = (refl, start-IsShared _ pos small)
  Run-IsShared {c} {consumed = all} (then_step {s} {u} {written} {consumed} {wrote} {got} run step)
        pos small laps =
      let (same, more) = Step-Grows step in
      let laps' : Laps c (length (written ++ claimed s.producer)) =
        Laps-mono c _ _
          (omega (
            arith,
            more,
            length-append written (claimed s.producer),
            length-append (written ++ wrote) (claimed u.producer),
            length-append written wrote,
          ))
          laps in
      let (size, v) = Run-IsShared run pos small laps' in
      (
        same ∙ size,
        Step-IsShared written consumed step
            (subst (λ k. Laps k (length (written ++ claimed s.producer))) (sym size) laps') v,
      )

  module _ {c : ℕ} {s : System A} {written consumed : List A} (run : Run d c s written consumed)
      (pos : 0 < c) (small : c < u64) (laps : Laps c (length (written ++ claimed s.producer))) where
    shared : IsShared d s written consumed
    shared = (Run-IsShared run pos small laps).1

    -- In any interleaving of one producer and one consumer, from a new ring buffer whose capacity
    -- is above 0 and below 2^64, and either divides 2^64 or has had no write whose end reaches
    -- position 2^64: the samples of all reads so far are the beginning of the samples of all
    -- writes so far, in order, and at most the capacity behind them.
    pub Run-stream :
        (consumed ≡ take (length consumed) written)
        × (length consumed ≤ length written)
        × (length written ≤ length consumed + c)
    Run-stream =
        let size = (Run-IsShared run pos small laps).0 in
        (
          shared.stream,
          shared.order,
          omega (arith, size, shared.room, at-newest shared.reads s.read_seen shared.read_seen),
        )

    -- In any interleaving of one producer and one consumer, from a new ring buffer whose capacity
    -- is above 0 and below 2^64, and either divides 2^64 or has had no write whose end reaches
    -- position 2^64: a producer that is past the check of `write` can go on, and its copies are
    -- inside the arrays.
    pub Run-fill :
        (samples : List A) (n w : ℕ)
        → s.producer ≡ Producer.admitted samples n w
        → (u : System A) × (fill samples n w s ≡ some u)
          × (u.producer ≡ Producer.copied samples n w)
    Run-fill samples n w at =
        let (u, ran, rest) = fill-IsShared shared samples n w at (
          claim s shared samples n w at (
            subst (λ k. Laps k (length (written ++ claimed s.producer)))
              (sym (Run-IsShared run pos small laps).0) laps)) in
        (u, ran, fill-copied samples n w s u ran)

    -- In any interleaving of one producer and one consumer, from a new ring buffer whose capacity
    -- is above 0 and below 2^64, and either divides 2^64 or has had no write whose end reaches
    -- position 2^64: a consumer that is past the check of `read` can go on, its copies are inside
    -- the arrays, and its block then begins with the oldest samples that were written and not yet
    -- read.
    pub Run-empty_out :
        (block : List A) (n r : ℕ)
        → s.consumer ≡ Consumer.admitted block n r
        → (u : System A) × (out : List A) × (empty_out block n r s ≡ some u)
          × (u.consumer ≡ Consumer.copied out n r)
          × (take n out ≡ take n (drop (length consumed) written))
    Run-empty_out = reads_on shared
