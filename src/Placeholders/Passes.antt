-- ===== src/Placeholders/Passes.antt =====
-- What `InferenceEngine` and `Resampler` do now: they pass samples on as they are.
use noise_ai.Base.{
  ℕ, ◌≤◌, ◌≡◌, refl, ap, ◌∙◌, true, false, some, List, ◌++◌, ◌>>=◌, arith, length, length-take,
  take, drop, memcpy, memcpy-some, overwrite_start,
}
use noise_ai.DeepFilter.{FilePath}
use noise_ai.Placeholders.{InferenceEngine, load_model, run, Resampler, process}

module _ {F : Type 0} (input output : List F) (n : ℕ) (given : n ≤ length input)
    (room : n ≤ length output) where
  copied : memcpy output 0 input 0 n ≡ some (take n input ++ drop n output)
  copied =
      let size : length (take n input) ≡ n = omega (arith, length-take n input) in
      memcpy-some output 0 input 0 n (omega arith) (omega arith)
      ∙ ap some (
          overwrite_start (take n input) output (omega (arith, size))
          ∙ ap (λ k. take n input ++ drop k output) size)

  -- For samples within both arrays: `run` returns false and leaves the array until a model is
  -- loaded, and once `load_model` was called with any path it copies the samples, as the
  -- resampler does at any rates.
  pub run-load_model :
      (path : FilePath) (e : InferenceEngine) (r : Resampler)
      → (run input output n (record { loaded = false }) ≡ some (false, output))
        × (run input output n (load_model path e).1 ≡ some (true, take n input ++ drop n output))
        × (process r input n output ≡ some (n, take n input ++ drop n output))
  unfolding run load_model process
  run-load_model path e r = (
    refl,
    ap (λ w. do out ← w; some (true, out)) copied,
    ap (λ w. do out ← w; some (n, out)) copied,
  )
