-- ===== src/Spsc/Atomic.antt =====
-- A `std::atomic<size_t>` that one thread stores to, with release and acquire: the words stored,
-- in their order. A load may return an older word than the newest, but none older than the thread
-- has seen before.
use noise_ai.Base.{ℕ, ◌+◌, ◌%◌, ◌==◌, ◌≤◌, ◌≡◌, refl, if◌then◌else◌, arith, u64}

-- `value k` is the word of the `k`th store, and `value 0` the word at the start.
pub record Location : Type 0 where
  pub value : ℕ → ℕ
  pub latest : ℕ

abbrev pub initial : Location
initial = record { value = λ k. 0; latest = 0 }

unfoldable pub store : ℕ → Location → Location
store v l = record {
  value = λ k. if k == l.latest + 1 then v else l.value k;
  latest = l.latest + 1;
}

-- The words stand for the positions `at k`, which never go down; the newest is `top`.
pub record Tracks (l : Location) (at : ℕ → ℕ) (top : ℕ) : Type 0 where
  pub words : (k : ℕ) → k ≤ l.latest → l.value k ≡ at k % u64
  pub mono : (j k : ℕ) → j ≤ k → k ≤ l.latest → at j ≤ at k
  pub newest : at l.latest ≡ top

pub initial-Tracks : Tracks initial (λ k. 0) 0
initial-Tracks = record { words = λ k h. omega arith; mono = λ j k h g. omega arith; newest = refl }

-- The positions after a store.
abbrev pub extend : ℕ → (ℕ → ℕ) → ℕ → ℕ → ℕ
extend latest at top k = if k == latest + 1 then top else at k

module _ {l : Location} {at : ℕ → ℕ} {top : ℕ} (t : Tracks l at top) where
  pub extend-seen : (k top' : ℕ) → k ≤ l.latest → extend l.latest at top' k ≡ at k
  extend-seen k top' h = ground arith

  pub store-Tracks :
      (v top' : ℕ) → v ≡ top' % u64 → top ≤ top' → Tracks (store v l) (extend l.latest at top') top'
  unfolding store
  store-Tracks v top' word more = record {
    words = λ k h. ground (arith, t.words k);
    mono = λ j k h g. ground (arith, t.mono j k, t.mono j l.latest, t.newest);
    newest = ground arith;
  }

  -- What a load returns.
  pub at-newest : (k : ℕ) → k ≤ l.latest → at k ≤ top
  at-newest k h = omega (arith, t.mono k l.latest, t.newest)
