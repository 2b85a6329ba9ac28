-- ===== src/Queue.antt =====
-- What a ring buffer promises: a queue of at most `capacity` samples, oldest first, that takes a
-- block whole or not at all, and gives a block whole or not at all.
use noise_ai.Base.{
  ℕ, ◌+◌, ◌-◌, leb, if◌then◌else◌, Bool, true, false, List, [], ◌∷◌, ◌++◌, length, take, drop,
}

module _ {ℓ} {A : Type ℓ} where
  unfoldable pub push : ℕ → List A → List A → ℕ → Bool × List A
  push capacity q samples n =
      if leb (length q + n) capacity then (true, q ++ take n samples) else (false, q)

  -- The caller's array, with the block in its first `n` places, and the rest of the queue.
  unfoldable pub pop : List A → List A → ℕ → Bool × List A × List A
  pop q samples n =
      if leb n (length q) then (true, take n q ++ drop n samples, drop n q) else (false, samples, q)

  unfoldable pub free : ℕ → List A → ℕ
  free capacity q = capacity - length q

-- The calls of a client, and what it sees of each.
pub data Call (A : Type 0) : Type 0 where
  writes : List A → ℕ → Call A
  reads : List A → ℕ → Call A
  resets : Call A

pub data Reply (A : Type 0) : Type 0 where
  wrote : Bool → Reply A
  got : Bool → List A → Reply A
  done : Reply A

module _ {A : Type 0} where
  unfoldable pub step : ℕ → List A → Call A → Reply A × List A
  unfolding push pop
  step capacity q (writes samples n) = let (ok, q') = push capacity q samples n in (wrote ok, q')
  step capacity q (reads samples n) = let (ok, out, q') = pop q samples n in (got ok out, q')
  step capacity q resets = (done, [])

  unfoldable pub run : ℕ → List A → List (Call A) → List (Reply A)
  run capacity q [] = []
  run capacity q (c ∷ cs) = let (reply, q') = step capacity q c in reply ∷ run capacity q' cs
