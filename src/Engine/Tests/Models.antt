-- ===== src/Engine/Tests/Models.antt =====
-- A model, loaded and run, and the conversions of frames, at concrete inputs.
use noise_ai.Base.{ℕ, ◌≡◌, refl, true, some, List, [], ◌∷◌, ◌++◌, arith, length, map, Bool}
use noise_ai.Float.{clip}
use noise_ai.Float.Fixed.{ℤ, pos, fixed}
use noise_ai.Frames.{frame_size, zeros, length-zeros}
use noise_ai.DeepFilter.{DeepFilter, Ort, state_size}
use noise_ai.DeepFilter
use noise_ai.DeepFilter.Laws.{IsModel, Enhances, make-IsModel, Loads, load-Loads, process_frame_lem}
use noise_ai.Engine.Process.{to_mono, from_mono}
use noise_ai.Engine.Interleave.{means, spread, to_mono-means, from_mono-spread}
use noise_ai.Engine.Tests.{silent, silent-HasShapes}

to_mono-means_example :
    to_mono 2 (pos 10 ∷ pos 20 ∷ pos 30 ∷ pos 50 ∷ []) 2 0
    ≡ some (means 2 (pos 10 ∷ pos 20 ∷ pos 30 ∷ pos 50 ∷ []) 2)
to_mono-means_example =
    to_mono-means 2 (pos 10 ∷ pos 20 ∷ pos 30 ∷ pos 50 ∷ []) 2 0 (omega arith) (omega arith)

from_mono-spread_example :
    from_mono 2 (pos 10 ∷ pos 200 ∷ pos 30 ∷ []) 1 2 0 (pos 1 ∷ pos 2 ∷ pos 3 ∷ pos 4 ∷ pos 5 ∷ [])
    ≡ some (spread 2 (map clip (pos 200 ∷ pos 30 ∷ [])) ++ pos 5 ∷ [])
from_mono-spread_example =
    from_mono-spread 2 (pos 10 ∷ pos 200 ∷ pos 30 ∷ []) 1 2 0 []
      (pos 1 ∷ pos 2 ∷ pos 3 ∷ pos 4 ∷ []) (pos 5 ∷ []) (omega arith) refl refl (omega arith)

abbrev model : DeepFilter ℤ ℕ ℕ
model = record {
  session = some 1;
  states = zeros state_size;
  atten_lim_db = pos 0;
  input_names = 0 ∷ 1 ∷ 2 ∷ [];
  output_names = 0 ∷ 1 ∷ [];
  loaded = true;
}

model-IsModel : IsModel model
model-IsModel = record {
  session_of_loaded = λ on. (1, refl);
  states_size = length-zeros ℤ state_size;
}

load-Loads_example : Loads (DeepFilter.load silent (109 ∷ 46 ∷ []) DeepFilter.make)
load-Loads_example = load-Loads silent (109 ∷ 46 ∷ []) make-IsModel

process_frame_lem_example :
    (ok : Bool) × (out : List ℤ) × (d' : DeepFilter ℤ ℕ ℕ) × (DeepFilter.process_frame silent model
        (zeros frame_size)
      ≡ some (ok, some out, d'))
    × (length out ≡ frame_size)
    × ((s : ℕ) × (model.session ≡ some s) × Enhances silent s model (zeros frame_size) ok out d')
    × (d'.loaded ≡ true)
    × IsModel d'
process_frame_lem_example =
    process_frame_lem silent (zeros frame_size) silent-HasShapes model-IsModel refl
      (length-zeros ℤ frame_size)
