-- ===== src/Engine/Choice.antt =====
-- Which model file `find_model_path` (engine/src/engine.cpp) chooses.
use noise_ai.Base.{◌≡◌, Bool, true, false, Bool-cases, inl, inr, Option, List, [], ◌∷◌}
use noise_ai.DeepFilter.{FilePath}
use noise_ai.Engine.ModelPath.{exe_dir, candidates, first_existing, find_model_path}

-- The first path of a list that opens, or the empty path if none does.
pub data Chooses (exists : FilePath → Bool) : List FilePath → FilePath → Type 0 where
  nowhere : Chooses exists [] []
  here :
      (path : FilePath) (paths : List FilePath)
      → exists path ≡ true
      → Chooses exists (path ∷ paths) path
  later :
      (path chosen : FilePath) (paths : List FilePath)
      → exists path ≡ false
      → Chooses exists paths chosen
      → Chooses exists (path ∷ paths) chosen

first_existing-Chooses :
    (exists : FilePath → Bool) (paths : List FilePath)
    → Chooses exists paths (first_existing exists paths)
unfolding first_existing
first_existing-Chooses exists [] = nowhere
first_existing-Chooses exists (path ∷ paths) = elim (Bool-cases (exists path)) [
  | inl opens ↦ rw opens (here path paths opens)
  | inr fails ↦ rw fails (later path _ paths fails (first_existing-Chooses exists paths))
]

-- Whatever the executable's path and the files that open, the path chosen is the first candidate
-- that opens, or empty if none does.
pub find_model_path-Chooses :
    (exe : Option FilePath) (exists : FilePath → Bool)
    → Chooses exists (candidates (exe_dir exe)) (find_model_path exe exists)
unfolding find_model_path
find_model_path-Chooses exe exists = first_existing-Chooses exists (candidates (exe_dir exe))
