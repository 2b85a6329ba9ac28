-- ===== src/Delay.antt =====
-- What the engine promises of its output: a queue of denoised samples that starts to give samples
-- once enough of them are queued, and from then on gives as many as are asked for, if it has
-- them.
use noise_ai.Base.{
  ℕ, leb, if◌then◌else◌, Bool, false, ◌&&◌, ◌||◌, Option, none, some, List, [], ◌++◌, length, take,
  drop,
}

pub record Line (F : Type 0) : Type 0 where
  pub started : Bool
  pub queue : List F

abbrev pub empty : {F : Type 0} → Line F
empty = record { started = false; queue = [] }

-- `fresh` samples join the queue, and `n` are asked for: the samples given (`none` is silence),
-- and what is queued after.
unfoldable pub step : {F : Type 0} → ℕ → List F → ℕ → Line F → Option (List F) × Line F
step prefill fresh n line =
    let pool = line.queue ++ fresh in
    let started = line.started || leb prefill (length pool) in
    if started && leb n (length pool)
    then (some (take n pool), record { started = started; queue = drop n pool })
    else (none, record { started = started; queue = pool })
