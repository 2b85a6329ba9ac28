-- ===== src/Spsc/Runs.antt =====
-- Whole histories of calls: no client can tell the ring buffer from the bounded queue.
use noise_ai.Base.{ℕ, ◌+◌, ◌≤◌, ◌≡◌, refl, inl, inr, some, List, [], ◌∷◌, arith, length}
use noise_ai.Queue.{push, pop, Call, writes, reads, resets}
use noise_ai.Queue
use noise_ai.Circular.Holds.{Laps}
use noise_ai.Spsc.{SpscRingBuffer, reset, step, run}
use noise_ai.Spsc.Refine.{IsRing, write_refines, read_refines, reset_refines}

-- The caller's array is as long as the block that the call names.
abbrev pub IsCall : {A : Type 0} → Call A → Type 0
IsCall (writes samples n) = n ≤ length samples
IsCall (reads samples n) = n ≤ length samples
IsCall resets = Unit {0}

abbrev pub AreCalls : {A : Type 0} → List (Call A) → Type 0
AreCalls [] = Unit {0}
AreCalls (c ∷ cs) = IsCall c × AreCalls cs

-- How many samples the calls offer to write.
abbrev pub volume : {A : Type 0} → List (Call A) → ℕ
volume [] = 0
volume (writes samples n ∷ cs) = n + volume cs
volume (reads samples n ∷ cs) = volume cs
volume (resets ∷ cs) = volume cs

pub Laps-mono : (c a b : ℕ) → a ≤ b → Laps c b → Laps c a
Laps-mono c a b h (inl l) = inl (omega arith)
Laps-mono c a b h (inr l) = inr l

module _ {A : Type 0} (d : A) where
  -- As long as the capacity divides 2^64, or the positions that the calls can reach stay below
  -- 2^64, a history of calls whose arrays have the sizes named, on a ring buffer that holds `q`,
  -- has no undefined behaviour and returns what the bounded queue returns from `q`.
  pub run_refines :
      (cs : List (Call A)) {s : SpscRingBuffer A} {W : ℕ} {q : List A}
      → IsRing d s W q
      → AreCalls cs
      → Laps s.capacity (W + volume cs)
      → run s cs ≡ some (Queue.run s.capacity q cs)
  unfolding run step reset Queue.run Queue.step
  run_refines [] h ok laps = refl
  run_refines (writes samples n ∷ cs) {s} {W} h ok laps =
      let (s', ran, same, W', less, h') =
        write_refines d h samples n ok.0 (Laps-mono s.capacity _ _ (omega arith) laps) in
      let laps' = Laps-mono s.capacity (W' + volume cs) _ (omega arith) laps in
      rw (ran, run_refines cs h' ok.1 (rw same laps'), same)
  run_refines (reads samples n ∷ cs) h ok laps =
      let (s', ran, same, h') = read_refines d h samples n ok.0 in
      rw (ran, run_refines cs h' ok.1 (rw same laps), same)
  run_refines (resets ∷ cs) {s} {W} h ok laps =
      rw (run_refines cs (reset_refines d h) ok.1 (Laps-mono s.capacity _ _ (omega arith) laps))
