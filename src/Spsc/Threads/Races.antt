-- ===== src/Spsc/Threads/Races.antt =====
-- Two copies that overlap in time never touch the same cell, so each may count as one step.
use mathlib.Core.Path.{subst}
use native.Mathlib.Nat.{mod-lt, mod-add-mod}
use native.Mathlib.Decide.{dec_lt}
use noise_ai.Base.{
  ℕ, ◌+◌, ◌-◌, ◌%◌, ◌<◌, ◌≡◌, ◌≢◌, refl, sym, ap, ◌∙◌, List, ◌++◌, length, length-append, arith,
  u64,
}
use noise_ai.Circular.Holds.{Laps, index_of_word}
use noise_ai.Circular.Copies.{mod_ahead_in, mod_ahead_out}
use noise_ai.Spsc.Runs.{Laps-mono}
use noise_ai.Spsc.Atomic.{at-newest}
use noise_ai.Spsc.Threads.{Producer, Consumer, System, Run}
use noise_ai.Spsc.Threads.Invariant.{claimed, Admits, IsProducer, IsConsumer}
use noise_ai.Spsc.Threads.Safety.{Run-IsShared}

-- Positions less than a lap apart are in different cells.
apart : (c a b : ℕ) → a < b → b < a + c → a % c ≢ b % c
apart c a b less lap same =
    let there : a + (b - a) ≡ b = omega arith in
    let i = mod-lt a {m = c} (omega arith) in
    elim (dec_lt (a % c + (b - a)) c) [
      | yes inside ↦
          omega (arith, same, ap (λ k. k % c) there, mod_ahead_in c a (a % c) (b - a) refl inside)
      | no outside ↦ omega (
        arith,
        same,
        i,
        ap (λ k. k % c) there,
        mod_ahead_out c a (a % c) (b - a) refl (omega arith) (omega arith),
      )
    ]

-- The cell of an element of a block, from the word of the block's position.
cell_of_word : (c w W i : ℕ) → Laps c W → w ≡ W % u64 → (w % c + i) % c ≡ (W + i) % c
cell_of_word c w W i laps word =
    ap (λ k. (k + i) % c) (ap (λ k. k % c) word ∙ index_of_word c W W laps (omega arith))
    ∙ mod-add-mod W c i

module _ {A : Type 0} (d : A) where
  -- In any interleaving of one producer and one consumer, from a new ring buffer whose capacity
  -- is above 0 and below 2^64, and either divides 2^64 or has had no write whose end reaches
  -- position 2^64, where the producer is past the check of `write` and the consumer past that of
  -- `read`: no cell that the one copies to is a cell that the other copies from.
  pub Run-races :
      {c : ℕ} {s : System A} {written consumed : List A}
      → Run d c s written consumed
      → 0 < c
      → c < u64
      → Laps c (length (written ++ claimed s.producer))
      → (samples block : List A) (n w m r i j : ℕ) → s.producer ≡ Producer.admitted samples n w
      → s.consumer ≡ Consumer.admitted block m r
      → i < n
      → j < m
      → (w % c + i) % c ≢ (r % c + j) % c
  Run-races {c} {s} {written} {consumed} run pos small laps samples block n w m r i j at at' inside
        inside' same =
      let (size, v) = Run-IsShared d run pos small laps in
      let p : Admits (length written) (v.read_at s.read_seen + s.capacity) samples n w =
        subst
          (λ (p : Producer A). IsProducer (length written) (v.read_at s.read_seen + s.capacity) p)
          at v.producer in
      let q : Admits (length consumed) (v.write_at s.write_seen) block m r =
        subst (λ (p : Consumer A). IsConsumer written (length consumed) (v.write_at s.write_seen) p)
          at' v.consumer in
      let laps' =
        Laps-mono c (length written) _ (omega (arith, length-append written (claimed s.producer)))
          laps in
      let laps'' = Laps-mono c (length consumed) _ v.order laps' in
      apart c (length consumed + j) (length written + i)
        (omega (arith, q.room, at-newest v.writes s.write_seen v.write_seen))
        (omega (arith, p.room, size, at-newest v.reads s.read_seen v.read_seen))
        (sym (cell_of_word c r (length consumed) j laps'' q.word)
          ∙ sym same
          ∙ cell_of_word c w (length written) i laps' p.word)
