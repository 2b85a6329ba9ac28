-- ===== src/DeepFilter.antt =====
-- `DeepFilterEngine` (engine/include/noise/deepfilter.h, engine/src/deepfilter.cpp): a model
-- loaded into an ONNX Runtime session, with recurrent states carried from frame to frame. The
-- runtime is not this repository's: it is the parameter `Ort`.
pub mod Laws
use noise_ai.Base.{
  ℕ, zero, suc, ◌+◌, Bool, true, false, if◌then◌else◌, Option, none, some, List, [], ◌∷◌, length,
  ◌>>=◌,
}
use noise_ai.Float.{Float, nought}
use noise_ai.Frames.{frame_size, read_block, zeros}

-- `STATE_SIZE`.
unfoldable pub state_size : ℕ
state_size = 45304

-- A path is its bytes.
abbrev pub FilePath : Type 0
FilePath = List ℕ

-- Calls into ONNX Runtime; `none` is an `Ort::Exception`. `S` stands for the sessions, and `N`
-- for the names of inputs and outputs. `describe_input` is the calls that query a name and, for
-- the log, its type and shape.
pub record Ort (F S N : Type 0) : Type 0 where
  pub open_session : FilePath → Option S
  pub input_count : S → Option ℕ
  pub describe_input : S → ℕ → Option N
  pub output_count : S → Option ℕ
  pub describe_output : S → ℕ → Option N
  -- `Run`: input names, input tensors and output names, to output tensors.
  pub run_session : S → List N → List (List F) → List N → Option (List (List F))

-- `DeepFilterEngine::Impl`. The names are kept once: the arrays of `const char*` point into the
-- arrays of strings, and are emptied and filled with them.
pub record DeepFilter (F S N : Type 0) : Type 0 where
  pub session : Option S
  pub states : List F
  pub atten_lim_db : F
  pub input_names : List N
  pub output_names : List N
  pub loaded : Bool

-- The loop over indices `i`, `i + 1`, and so on, `n` of them, that collects names.
pub query_names : {N : Type 0} → (ℕ → Option N) → ℕ → ℕ → Option (List N)
query_names describe zero i = some []
query_names describe (suc n) i = do
  name ← describe i
  names ← query_names describe n (i + 1)
  some (name ∷ names)

module _ {F S N : Type 0} ⦃f : Float F⦄ where
  pub make : DeepFilter F S N
  make = record {
    session = none;
    states = zeros state_size;
    atten_lim_db = nought;
    input_names = [];
    output_names = [];
    loaded = false;
  }

  -- `std::fill` over the states.
  pub reset_state : DeepFilter F S N → DeepFilter F S N
  reset_state d = record d { states = zeros (length d.states) }

  pub set_attenuation_limit : F → DeepFilter F S N → DeepFilter F S N
  set_attenuation_limit db d = record d { atten_lim_db = db }

  -- `try { ... } catch (const Ort::Exception&)` of `load`: an exception leaves `d` as it is by
  -- then, not loaded.
  abbrev catch_load :
      {X : Type 0}
      → DeepFilter F S N
      → Option X
      → (X → Bool × DeepFilter F S N)
      → Bool × DeepFilter F S N
  catch_load d none k = (false, record d { loaded = false })
  catch_load d (some x) k = k x

  module _ (ort : Ort F S N) where
    pub load : FilePath → DeepFilter F S N → Bool × DeepFilter F S N
    unfolding query_names reset_state
    load model_path d = catch_load d (ort.open_session model_path) λ s.
        let opened : DeepFilter F S N = record d { session = some s } in
        catch_load opened (ort.input_count s) λ num_inputs.
          let no_inputs : DeepFilter F S N = record opened { input_names = [] } in
          catch_load no_inputs (query_names (ort.describe_input s) num_inputs 0) λ inputs.
            catch_load no_inputs (ort.output_count s) λ num_outputs.
              let no_outputs : DeepFilter F S N = record no_inputs { output_names = [] } in
              catch_load no_outputs (query_names (ort.describe_output s) num_outputs 0) λ outputs. (
                true,
                record (reset_state no_outputs) {
                  input_names = inputs;
                  output_names = outputs;
                  loaded = true;
                },
              )

    -- The frame that the session returns, and the next states; the inner `none` is an exception.
    pub infer : S → DeepFilter F S N → List F → Option (Option (List F × List F))
    infer s d input =
        elim (ort.run_session s d.input_names (input ∷ d.states ∷ (d.atten_lim_db ∷ []) ∷ [])
          d.output_names) [
            | some (enhanced ∷ new_states ∷ _) ↦ do
              out ← read_block frame_size enhanced
              next ← read_block state_size new_states
              some (some (out, next))
            | none ↦ some none
            | _ ↦ none
          ]

    -- The result, what is written to `output` (`none` where nothing is), and the next state. The
    -- outer `none` is a read past the end of an array: of the caller's input, or of a tensor that
    -- the session returns.
    pub process_frame :
        DeepFilter F S N → List F → Option (Bool × Option (List F) × DeepFilter F S N)
    unfolding infer
    process_frame d input =
        if d.loaded
        then elim d.session [
          | none ↦ some (false, none, d)
          | some s ↦ do
            input_copy ← read_block frame_size input
            result ← infer s d input_copy
            elim result [
              | some (out, next) ↦ some (true, some out, record d { states = next })
              | none ↦ some (false, some (zeros frame_size), d)
            ]
        ]
        else some (false, none, d)
