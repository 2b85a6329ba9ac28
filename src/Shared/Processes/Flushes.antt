-- ===== src/Shared/Processes/Flushes.antt =====
-- A flush in between loses only what it discards.
use mathlib.Core.Path.{subst}
use mathlib.Core.List.{append-nil}
use noise_ai.Base.{
  ℕ, ◌+◌, ◌-◌, ◌%◌, ◌≤◌, ◌<◌, ◌≡◌, refl, sym, ap, ◌∙◌, Option, none, some, List, ◌++◌, length, take,
  drop, length-append, length-take, length-drop, take-length, arith, u64, add64, sub64,
}
use noise_ai.Circular.Holds.{Laps}
use noise_ai.Spsc.Runs.{Laps-mono}
use noise_ai.Spsc.Atomic.{store, at-newest}
use noise_ai.Spsc.Threads.{Consumer, System, start, Step, empty_out, release}
use noise_ai.Spsc.Threads.Invariant.{claimed, IsShared, IsConsumer}
use noise_ai.Spsc.Threads.Consume.{release-IsShared}
use noise_ai.Spsc.Threads.Safety.{start-IsShared, Step-IsShared, reads_on}
use noise_ai.Spsc.Threads.Growth.{Step-Grows, Step-words}
use noise_ai.Shared.Processes.{
  enter_flush, snap, Run, begins, steps, enters_flush, steps_beside, snaps,
}

module _ {A : Type 0} {d : A} {s : System A} {written taken : List A}
    (v : IsShared d s written taken) where
  open v use {write_at, read_at, writes, reads}

  -- Loading a newer word of the write position keeps the invariant of a consumer outside of
  -- `read`.
  enter_flush-IsShared :
      (k : ℕ)
      → s.consumer ≡ Consumer.idle
      → s.write_seen ≤ k
      → k ≤ s.write_pos.latest
      → IsShared d (enter_flush k s).0 written taken
  unfolding enter_flush
  enter_flush-IsShared k at old new = record {
    write_at = write_at;
    read_at = read_at;
    writes = writes;
    reads = reads;
    read_seen = v.read_seen;
    write_seen = new;
    order = v.order;
    stream = v.stream;
    room = v.room;
    behind = omega (arith, v.behind, writes.mono s.write_seen k old new);
    held = v.held;
    producer = v.producer;
    consumer =
        subst (λ (c : Consumer A). IsConsumer written (length taken) (write_at k) c) (sym at) tt;
  }

  -- A snap is the end of a read of all samples up to the word that was loaded.
  snap-IsShared :
      s.consumer ≡ Consumer.idle
      → (w : ℕ) → w ≡ s.write_pos.value s.write_seen
      → let n = sub64 w (s.read_pos.value s.read_pos.latest) in
        IsShared d (snap w s) written (taken ++ take n (drop (length taken) written))
  unfolding snap release
  snap-IsShared at w loaded =
      let r = s.read_pos.value s.read_pos.latest in
      let n = sub64 w r in
      let left = drop (length taken) written in
      let word : r ≡ length taken % u64 =
        reads.words s.read_pos.latest (omega arith) ∙ ap (λ t. t % u64) reads.newest in
      let target : w ≡ write_at s.write_seen % u64 =
        loaded ∙ writes.words s.write_seen v.write_seen in
      let below = at-newest writes s.write_seen v.write_seen in
      let near = at-newest reads s.read_seen v.read_seen in
      let count : n ≡ write_at s.write_seen - length taken =
        omega (arith, word, target, v.behind, below, near, v.room, v.held.small) in
      let size : length (take n left) ≡ n =
        omega (arith, length-take n left, length-drop (length taken) written, count, below) in
      let ends : add64 r n ≡ w = omega (arith, word, target, count, v.behind) in
      let full : take n (take n left) ≡ take n left =
        take-length n (take n left) (omega (arith, size)) in
      let reading : IsShared d (record s { consumer = Consumer.copied (take n left) n r }) written
          taken =
        record {
          write_at = write_at;
          read_at = read_at;
          writes = writes;
          reads = reads;
          read_seen = v.read_seen;
          write_seen = v.write_seen;
          order = v.order;
          stream = v.stream;
          room = v.room;
          behind = v.behind;
          held = v.held;
          producer = v.producer;
          consumer = (
            record {
              given = omega (arith, size);
              word = word;
              room = omega (arith, count, v.behind);
            },
            full,
          );
        } in
      let after : ◌≡◌ {A = System A} (release n r s) (snap w s) =
        λ i. record s { read_pos = store (ends i) s.read_pos; consumer = sym at i } in
      subst (λ (u : System A). IsShared d u written (taken ++ take n left)) after
        (subst (λ (t : List A). IsShared d (release n r s) written (taken ++ t)) full
          (release-IsShared reading (take n left) n r refl))

-- What the producer claims only grows.
earlier :
    {A : Type 0} (c : ℕ) (s u : System A) (written wrote : List A) {got : List A}
    → Step s wrote got u
    → Laps c (length ((written ++ wrote) ++ claimed u.producer))
    → Laps c (length (written ++ claimed s.producer))
earlier c s u written wrote step laps =
    Laps-mono c _ _
      (omega (
        arith,
        (Step-Grows step).1,
        length-append written (claimed s.producer),
        length-append (written ++ wrote) (claimed u.producer),
        length-append written wrote,
      ))
      laps

module _ {A : Type 0} (d : A) where
  -- Between steps: while a flush is under way, the consumer is outside of `read`, and the word
  -- that was loaded is that of the newest store that it has seen.
  abbrev pub Flushing : System A → Option ℕ → Type 0
  Flushing s none = Unit {0}
  Flushing s (some w) = (s.consumer ≡ Consumer.idle) × (w ≡ s.write_pos.value s.write_seen)

  Run-IsShared_lem :
      {c : ℕ} {s : System A} {flushing : Option ℕ} {written taken : List A}
      → Run d c s flushing written taken
      → 0 < c
      → c < u64
      → Laps c (length (written ++ claimed s.producer))
      → (s.capacity ≡ c) × IsShared d s written taken × Flushing s flushing
  unfolding start enter_flush snap
  Run-IsShared_lem begins pos small laps = (refl, start-IsShared d _ pos small, tt)
  Run-IsShared_lem {c} (steps {s} {u} {written} {taken} {wrote} run step) pos small laps =
      let (size, v, on) = Run-IsShared_lem run pos small (earlier c s u written wrote step laps) in
      let (same, more) = Step-Grows step in
      (
        same ∙ size,
        Step-IsShared d written taken step
            (subst (λ k. Laps k (length (written ++ claimed s.producer))) (sym size)
              (earlier c s u written wrote step laps))
            v,
        tt,
      )
  Run-IsShared_lem (enters_flush {s} k run at old new) pos small laps =
      let (size, v, on) = Run-IsShared_lem run pos small laps in
      (size, enter_flush-IsShared v k at old new, (at, refl))
  Run-IsShared_lem {c} (steps_beside {s} {u} {written} {taken} {wrote} w run step alone still) pos
        small laps =
      let (size, v, (at, loaded)) =
        Run-IsShared_lem run pos small (earlier c s u written wrote step laps) in
      let (same, more) = Step-Grows step in
      (
        same ∙ size,
        subst (λ (t : List A). IsShared d u (written ++ wrote) t) (append-nil taken)
            (Step-IsShared d written taken step
              (subst (λ k. Laps k (length (written ++ claimed s.producer))) (sym size)
                (earlier c s u written wrote step laps))
              v),
        (
          alone ∙ at,
          loaded ∙ sym (ap u.write_pos.value still ∙ Step-words step s.write_seen v.write_seen),
        ),
      )
  Run-IsShared_lem (snaps {s} w run) pos small laps =
      let (size, v, (at, loaded)) = Run-IsShared_lem run pos small laps in
      (size, snap-IsShared v at w loaded, tt)

  -- In any interleaving of the app's writes and the driver's reads and flushes, from a new
  -- segment whose capacity is above 0 and below 2^64, and either divides 2^64 or has had no write
  -- whose end reaches position 2^64, at every moment at which the driver is past the check of
  -- `read`: what was read or discarded so far is the beginning of what was written, in order, and
  -- at most the capacity behind it; the driver can go on, with its copies inside the arrays, and
  -- its block then begins with the oldest samples that were neither read nor discarded.
  pub Run-reads :
      {c : ℕ} {s : System A} {flushing : Option ℕ} {written taken : List A}
      → Run d c s flushing written taken
      → 0 < c
      → c < u64
      → Laps c (length (written ++ claimed s.producer))
      → (block : List A) (n r : ℕ) → s.consumer ≡ Consumer.admitted block n r
      → (taken ≡ take (length taken) written)
        × (length written ≤ length taken + c)
        × ((u : System A) × (out : List A) × (empty_out block n r s ≡ some u)
            × (u.consumer ≡ Consumer.copied out n r)
            × (take n out ≡ take n (drop (length taken) written)))
  Run-reads {c} {s} {flushing} {written} {taken} run pos small laps block n r at =
      let (size, v, on) = Run-IsShared_lem run pos small laps in
      (
        v.stream,
        omega (arith, size, v.room, at-newest v.reads s.read_seen v.read_seen),
        reads_on d v block n r at,
      )
