-- ===== src/Float.antt =====
-- All that the code does with a `float`: literals, arithmetic, two comparisons, and the functions
-- of the C++ library that are defined by those comparisons. Nothing is assumed of the arithmetic.
pub mod Order
pub mod Fixed
use noise_ai.Base.{ℕ, if◌then◌else◌, Bool}

pub record Float (F : Type 0) : Type 0 where
  -- The literal with the decimal value n / 10^k.
  pub lit : ℕ → ℕ → F
  pub neg : F → F
  pub add : F → F → F
  pub sub : F → F → F
  pub mul : F → F → F
  pub div : F → F → F
  pub lt : F → F → Bool
  pub le : F → F → Bool
  -- `static_cast<float>` of a `uint32_t`.
  pub of_uint : ℕ → F

module _ {F : Type 0} ⦃f : Float F⦄ where
  abbrev pub nought : F
  nought = f.lit 0 0

  abbrev pub one : F
  one = f.lit 1 0

  -- `std::min`, `std::max` and `std::clamp`.
  pub std_min : F → F → F
  std_min a b = if f.lt b a then b else a

  pub std_max : F → F → F
  std_max a b = if f.lt a b then b else a

  pub std_clamp : F → F → F → F
  std_clamp v lo hi = if f.lt v lo then lo else if f.lt hi v then hi else v

  -- `std::max(-1.0f, std::min(1.0f, sample))`.
  pub clip : F → F
  unfolding std_min std_max
  clip sample = std_max (f.neg one) (std_min one sample)
