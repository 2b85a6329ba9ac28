-- ===== src/Spsc/Threads/Invariant.antt =====
-- What holds between any two steps of the producer and the consumer.
use mathlib.Core.Path.{subst}
use noise_ai.Base.{
  sym, ap₂, ◌∙◌, refl, arith, ◌-◌, ℕ, ◌+◌, ◌%◌, ◌≤◌, ◌≡◌, List, [], ◌++◌, length, take, drop, u64,
}
use noise_ai.Circular.Holds.{Laps, Holds}
use noise_ai.Circular.Copies.{cell}
use noise_ai.Circular.Window.{window}
use noise_ai.Spsc.Atomic.{Tracks}
use noise_ai.Spsc.Threads.{Producer, Consumer, System}

module _ {A : Type 0} where
  -- What the producer has copied in and not yet published, and what it was admitted to copy.
  abbrev pub filled : Producer A → List A
  filled Producer.idle = []
  filled (Producer.admitted samples n w) = []
  filled (Producer.copied samples n w) = take n samples

  abbrev pub claimed : Producer A → List A
  claimed Producer.idle = []
  claimed (Producer.admitted samples n w) = take n samples
  claimed (Producer.copied samples n w) = take n samples

  -- A call of the producer at the position `W`, which may fill the array up to `limit`.
  pub record Admits (W limit : ℕ) (samples : List A) (n w : ℕ) : Type 0 where
    pub given : n ≤ length samples
    pub word : w ≡ W % u64
    pub room : W + n ≤ limit

  abbrev pub IsProducer : ℕ → ℕ → Producer A → Type 0
  IsProducer W limit Producer.idle = Unit {0}
  IsProducer W limit (Producer.admitted samples n w) = Admits W limit samples n w
  IsProducer W limit (Producer.copied samples n w) = Admits W limit samples n w

  -- A call of the consumer at the position `R`, which may read up to `limit`; after the copies
  -- the block has what was written there.
  abbrev pub IsConsumer : List A → ℕ → ℕ → Consumer A → Type 0
  IsConsumer written R limit Consumer.idle = Unit {0}
  IsConsumer written R limit (Consumer.admitted block n r) = Admits R limit block n r
  IsConsumer written R limit (Consumer.copied block n r) =
      Admits R limit block n r × (take n block ≡ take n (drop R written))

  -- The array, when `stream` was copied in, of which the consumer has had `consumed`.
  abbrev pub Content : A → ℕ → List A → List A → List A → Type 0
  Content d c buffer consumed stream =
      Holds d c buffer (length stream % u64) (length consumed % u64) (length consumed)
        (length stream) (drop (length consumed) stream)

  pub Content-of-Holds :
      (d : A) (c : ℕ) (b consumed stream : List A) {w r R W : ℕ} {q : List A}
      → Holds d c b w r R W q
      → R ≡ length consumed
      → W ≡ length stream
      → q ≡ drop (length consumed) stream
      → Content d c b consumed stream
  Content-of-Holds d c b consumed stream h e g same = record {
    room = h.room;
    small = h.small;
    full = h.full;
    write_word = refl;
    read_word = refl;
    order = omega (arith, h.order);
    fits = omega (arith, h.fits);
    laps = subst (Laps c) g h.laps;
    contents = sym same ∙ h.contents ∙ ap₂ (λ a t. window (cell d c b) a (t - a)) e g;
  }

  module _ (d : A) where
    -- All samples `written` so far, and those `consumed`, are the positions of the two threads.
    -- Each thread may have seen an older position of the other, which only makes it more careful.
    pub record IsShared (s : System A) (written consumed : List A) : Type 0 where
      pub write_at : ℕ → ℕ
      pub read_at : ℕ → ℕ
      pub writes : Tracks s.write_pos write_at (length written)
      pub reads : Tracks s.read_pos read_at (length consumed)
      pub read_seen : s.read_seen ≤ s.read_pos.latest
      pub write_seen : s.write_seen ≤ s.write_pos.latest
      pub order : length consumed ≤ length written
      pub stream : consumed ≡ take (length consumed) written
      pub room : length written ≤ read_at s.read_seen + s.capacity
      pub behind : length consumed ≤ write_at s.write_seen
      pub held : Content d s.capacity s.buffer consumed (written ++ filled s.producer)
      pub producer : IsProducer (length written) (read_at s.read_seen + s.capacity) s.producer
      pub consumer : IsConsumer written (length consumed) (write_at s.write_seen) s.consumer
