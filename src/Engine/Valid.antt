-- ===== src/Engine/Valid.antt =====
-- The engine's invariant, and what is assumed of the two libraries.
use noise_ai.Base.{◌≤◌, ◌<◌, ◌≡◌, true, Option, none, some, List, length}
use noise_ai.Frames.{frame_size}
use noise_ai.DeepFilter.Laws.{IsModel}
use noise_ai.Engine.{Engine, RnNoise, is_running, is_set}
use noise_ai.Engine.Chunk.{overload_cooldown_frames}

-- A property of what a pointer points to, where it is set.
abbrev pub Each : {A : Type 0} → (A → Type 0) → Option A → Type 0
Each P none = Unit
Each P (some a) = P a

-- RNNoise returns a whole frame for a whole frame.
abbrev pub KeepsFrames : {F R : Type 0} → RnNoise F R → Type 0
KeepsFrames {F} {R} rn =
    (r : R) (xs : List F) → length xs ≡ frame_size → length (rn.denoise r xs).0 ≡ frame_size

module _ {F R S N : Type 0} where
  -- Between calls: the read position is inside the output, less than a frame is waiting, a
  -- running engine has an RNNoise state, a loaded model has a session, and a passthrough is not
  -- longer than the cooldown.
  pub record IsValid (e : Engine F R S N) : Type 0 where
    pub position : e.output_read_pos ≤ length e.output_buffer
    pub waiting : length e.input_buffer < frame_size
    pub denoiser : is_running e.status ≡ true → is_set e.rnnoise_state ≡ true
    pub model : Each IsModel e.deepfilter
    pub cooldown : e.overload_cooldown ≤ overload_cooldown_frames
