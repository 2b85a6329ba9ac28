-- ===== src/Engine/ModelPath.antt =====
-- Where the engine looks for its model: `find_model_path` (engine/src/engine.cpp).
use Prim.Native.String.{String}
use Prim.Native.Char.{code}
use noise_ai.Base.{ℕ, ◌==◌, Bool, if◌then◌else◌, Option, none, some, List, [], ◌∷◌, ◌++◌}
use noise_ai.DeepFilter.{FilePath}

-- The bytes of an ASCII literal.
abbrev pub codes : String → List ℕ
codes String.[] = []
codes (String.◌∷◌ c s) = code c ∷ codes s

-- `full.substr(0, full.rfind('/'))`; `none` where there is no slash.
unfoldable pub before_last_slash : FilePath → Option FilePath
before_last_slash [] = none
before_last_slash (c ∷ path) = elim (before_last_slash path) [
  | some dir ↦ some (c ∷ dir)
  | none ↦ if c == b'/' then some [] else none
]

-- The executable's directory. `exe` is what `_NSGetExecutablePath` gives: `none` off Apple
-- systems, and where the path does not fit its buffer.
unfoldable pub exe_dir : Option FilePath → FilePath
unfolding before_last_slash
exe_dir none = []
exe_dir (some full) = elim (before_last_slash full) [ some dir ↦ dir | none ↦ [] ]

unfoldable pub candidates : FilePath → List FilePath
candidates [] = codes "./models/deepfilternet.onnx" ∷ []
candidates (c ∷ dir) =
    ((c ∷ dir) ++ codes "/../Resources/Models/deepfilternet.onnx")
    ∷ ((c ∷ dir) ++ codes "/../models/deepfilternet.onnx")
    ∷ ((c ∷ dir) ++ codes "/models/deepfilternet.onnx")
    ∷ codes "./models/deepfilternet.onnx"
    ∷ []

-- The first that opens; the empty path if none does.
unfoldable pub first_existing : (FilePath → Bool) → List FilePath → FilePath
first_existing exists [] = []
first_existing exists (path ∷ paths) = if exists path then path else first_existing exists paths

unfoldable pub find_model_path : Option FilePath → (FilePath → Bool) → FilePath
unfolding exe_dir candidates first_existing
find_model_path exe exists = first_existing exists (candidates (exe_dir exe))
