-- ===== src/DeepFilter/Laws.antt =====
-- The model's state: what each operation keeps of it, and what a frame returns.
use noise_ai.Base.{
  ◌≤◌, ◌≡◌, refl, ap, ◌∙◌, Bool, true, false, inl, inr, Option-cases, Option, none, some, List, [],
  ◌∷◌, arith, length, take, length-take, take-length,
}
use noise_ai.Float.{Float}
use noise_ai.Frames.{frame_size, zeros, length-zeros, read_block, read_block-some}
use noise_ai.DeepFilter.{
  DeepFilter, Ort, FilePath, state_size, query_names, make, reset_state, set_attenuation_limit,
  load, infer, process_frame, catch_load,
}

module _ {F S N : Type 0} where
  -- A loaded model has a session; the states are as many as the model takes.
  pub record IsModel (d : DeepFilter F S N) : Type 0 where
    pub session_of_loaded : d.loaded ≡ true → (s : S) × (d.session ≡ some s)
    pub states_size : length d.states ≡ state_size

  -- What a session returns has an enhanced frame and the next states first, of the sizes that the
  -- model declares.
  abbrev pub HasShapes : Ort F S N → Type 0
  HasShapes ort =
      (s : S) (inputs : List N) (tensors : List (List F)) (outputs : List N) (ts : List (List F))
      → ort.run_session s inputs tensors outputs ≡ some ts
      → (a : List F) × (b : List F) × (rest : List (List F)) × (ts ≡ a ∷ b ∷ rest)
        × (frame_size ≤ length a)
        × (state_size ≤ length b)

module _ {F S N : Type 0} ⦃f : Float F⦄ (ort : Ort F S N) where
  -- What a frame becomes in session `s`, called with the frame, the states and the attenuation
  -- limit: the head of the first tensor that the session returns, and the second tensor is the
  -- next states; or silence, if the session throws, with the states as they were.
  pub data Enhances (s : S) (d : DeepFilter F S N) (input : List F)
      : Bool → List F → DeepFilter F S N → Type 0 where
    threw :
        ort.run_session s d.input_names
            (input ∷ d.states ∷ (d.atten_lim_db ∷ []) ∷ [])
            d.output_names
          ≡ none
        → Enhances s d input false (zeros frame_size) d
    ran :
        {enhanced new_states : List F} {rest : List (List F)}
        → ort.run_session s d.input_names
            (input ∷ d.states ∷ (d.atten_lim_db ∷ []) ∷ [])
            d.output_names
          ≡ some (enhanced ∷ new_states ∷ rest)
        → Enhances s d input true
            (take frame_size enhanced)
            (record d { states = take state_size new_states })

module _ {F S N : Type 0} ⦃f : Float F⦄ where
  pub make-IsModel : IsModel (make {F = F} {S = S} {N = N})
  unfolding make
  make-IsModel = record { session_of_loaded = λ e. cc; states_size = length-zeros F state_size }

  module _ {d : DeepFilter F S N} (m : IsModel d) where
    pub reset_state-IsModel : IsModel (reset_state d)
    unfolding reset_state
    reset_state-IsModel = record {
      session_of_loaded = m.session_of_loaded;
      states_size = length-zeros F (length d.states) ∙ m.states_size;
    }

    pub set_attenuation_limit-IsModel : (db : F) → IsModel (set_attenuation_limit db d)
    unfolding set_attenuation_limit
    set_attenuation_limit-IsModel db = record {
      session_of_loaded = m.session_of_loaded;
      states_size = m.states_size;
    }

    unloaded : IsModel (record d { loaded = false })
    unloaded = record { session_of_loaded = λ e. cc; states_size = m.states_size }

  -- The result says whether the model is loaded, and the state is well-formed.
  pub record Loads (r : Bool × DeepFilter F S N) : Type 0 where
    pub reports : r.1.loaded ≡ r.0
    pub model : IsModel r.1

  catch_load-Loads :
      {X : Type 0} {d : DeepFilter F S N} (o : Option X) (k : X → Bool × DeepFilter F S N)
      → IsModel d
      → ((x : X) → Loads (k x))
      → Loads (catch_load d o k)
  catch_load-Loads none k m goes = record { reports = refl; model = unloaded m }
  catch_load-Loads (some x) k m goes = goes x

  -- On a well-formed model, `load` returns whether the model is then loaded, and leaves it
  -- well-formed, whichever call of the runtime throws.
  pub load-Loads :
      (ort : Ort F S N) (path : FilePath) {d : DeepFilter F S N}
      → IsModel d
      → Loads (load ort path d)
  unfolding load
  load-Loads ort path {d} m = catch_load-Loads (ort.open_session path) _ m λ s.
      let opened : IsModel (record d { session = some s }) = record {
        session_of_loaded = λ e. (s, refl);
        states_size = m.states_size;
      } in
      let no_inputs : IsModel (record d { session = some s; input_names = [] }) = record {
        session_of_loaded = λ e. (s, refl);
        states_size = m.states_size;
      } in
      let no_outputs : IsModel
          (record d { session = some s; input_names = []; output_names = [] }) =
        record { session_of_loaded = λ e. (s, refl); states_size = m.states_size } in
      catch_load-Loads (ort.input_count s) _ opened λ n.
        catch_load-Loads (query_names (ort.describe_input s) n 0) _ no_inputs λ inputs.
          catch_load-Loads (ort.output_count s) _ no_inputs λ k.
            catch_load-Loads (query_names (ort.describe_output s) k 0) _ no_outputs λ outputs.
              record {
                reports = refl;
                model = record {
                  session_of_loaded = λ e. (s, refl);
                  states_size = length-zeros F (length d.states) ∙ m.states_size;
                };
              }

  -- With a session that returns tensors of the model's sizes: a loaded, well-formed model reads
  -- nothing out of bounds. If the session, called with the frame, the states and the attenuation
  -- limit, returns tensors, the result is true, the frame is the head of the first of them, and
  -- the head of the second is the next states; if it throws, the result is false, the frame is
  -- silence, and the model stays as it was. The frame is a whole one, and the model stays loaded
  -- and well-formed.
  pub process_frame_lem :
      (ort : Ort F S N) {d : DeepFilter F S N} (input : List F)
      → HasShapes ort
      → IsModel d
      → d.loaded ≡ true
      → length input ≡ frame_size
      → (ok : Bool) × (out : List F) × (d' : DeepFilter F S N) × (process_frame ort d input
          ≡ some (ok, some out, d'))
        × (length out ≡ frame_size)
        × ((s : S) × (d.session ≡ some s) × Enhances ort s d input ok out d')
        × (d'.loaded ≡ true)
        × IsModel d'
  unfolding process_frame
  process_frame_lem ort {d} input shapes m on size =
      let (s, is_open) = m.session_of_loaded on in
      let given : read_block frame_size input ≡ some input =
        read_block-some frame_size input (omega arith)
        ∙ ap some (take-length frame_size input (omega arith)) in
      let call =
        ort.run_session s d.input_names (input ∷ d.states ∷ (d.atten_lim_db ∷ []) ∷ [])
          d.output_names in
      elim (Option-cases call) [
        | inl called ↦
            let threw_it : process_frame ort d input ≡ some (false, some (zeros frame_size), d) =
              rw (on, is_open, given, infer, called)
                (λ i. some (
                  false,
                  some (zeros frame_size),
                  record d { session = is_open i; loaded = on i },
                )) in
            (
              false,
              zeros frame_size,
              d,
              threw_it,
              length-zeros F frame_size,
              (s, is_open, threw called),
              on,
              m,
            )
        | inr (ts, called) ↦
            let (a, b, rest, e, la, lb) = shapes s _ _ _ ts called in
            let returned : process_frame ort d input
                ≡ some (true, some (take frame_size a), record d { states = take state_size b }) =
              rw
                (
                  on,
                  is_open,
                  given,
                  infer,
                  called,
                  e,
                  read_block-some frame_size a la,
                  read_block-some state_size b lb,
                )
                (λ i. some (
                  true,
                  some (take frame_size a),
                  record d { session = is_open i; states = take state_size b; loaded = on i },
                )) in
            (
              true,
              take frame_size a,
              record d { states = take state_size b },
              returned,
              omega (arith, length-take frame_size a),
              (s, is_open, ran (called ∙ ap some e)),
              on,
              record {
                session_of_loaded = m.session_of_loaded;
                states_size = omega (arith, length-take state_size b);
              },
            )
      ]
