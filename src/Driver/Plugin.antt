-- ===== src/Driver/Plugin.antt =====
-- The plug-in hands out one driver, and the format of its stream is the one that the handler
-- reads.
use noise_ai.Base.{
  ℕ, ◌*◌, ◌≤◌, ◌<◌, ◌≡◌, refl, ap, Bool, true, false, if◌then◌else◌, Option, none, some, List, [],
  ◌∷◌, map, arith, length, u32,
}
use noise_ai.Float.{Float}
use noise_ai.Shared.{Buffer}
use noise_ai.Driver.{IoHandler, on_read_client_input, is_connected}
use noise_ai.Driver.Connect.{IsOpened, IsHandler, Plays}
use noise_ai.Driver.Plays.{on_read_client_input-Plays}
use noise_ai.Driver.Device.{
  Aspl, DriverComponents, stream_params, new_handler, create_driver, noise_ai_create,
}

module _ {F World Context Device Handler Plugin Driver Reference : Type 0}
    (a : Aspl F World Context Device Handler Plugin Driver Reference) where
  -- What calls of the entry point return, for the types that they ask for. Between calls the
  -- objects may change, as `changes` says of each call.
  abbrev pub references :
      (World → World)
      → List Bool
      → Option (DriverComponents Context Device Plugin Driver)
      → World
      → List (Option Reference)
  references changes [] components w = []
  references changes (is_plugin ∷ calls) components w =
      let (reference, components', w') = noise_ai_create a is_plugin components w in
      reference ∷ references changes calls components' (changes w')

  -- One reference for all calls that ask for a plug-in, a null pointer for the others.
  abbrev pub one_driver : Reference → List Bool → List (Option Reference)
  one_driver reference = map (λ is_plugin. if is_plugin then some reference else none)

  references_same :
      (changes : World → World) (calls : List Bool)
      (components : DriverComponents Context Device Plugin Driver) (w : World)
      → references changes calls (some components) w
        ≡ one_driver (a.get_reference components.driver) calls
  unfolding noise_ai_create
  references_same changes [] components w = refl
  references_same changes (true ∷ calls) components w =
      ap (◌∷◌ (some (a.get_reference components.driver)))
        (references_same changes calls components (changes w))
  references_same changes (false ∷ calls) components w =
      ap (◌∷◌ none) (references_same changes calls components (changes w))

  -- Whatever is called in between: all calls of the entry point that ask for an audio server
  -- plug-in return the reference of one driver, and all other calls a null pointer.
  pub noise_ai_create-one_driver :
      (changes : World → World) (calls : List Bool) (w : World)
      → (reference : Reference) × (references changes calls none w ≡ one_driver reference calls)
  unfolding noise_ai_create
  noise_ai_create-one_driver changes [] w = (a.get_reference (create_driver a w).0.driver, refl)
  noise_ai_create-one_driver changes (true ∷ calls) w =
      let made = (create_driver a w).0 in
      (
        a.get_reference made.driver,
        ap (◌∷◌ (some (a.get_reference made.driver)))
            (references_same changes calls made (changes (create_driver a w).1)),
      )
  noise_ai_create-one_driver changes (false ∷ calls) w =
      let (reference, same) = noise_ai_create-one_driver changes calls (changes w) in
      (reference, ap (◌∷◌ none) same)

module _ {F : Type 0} ⦃f : Float F⦄ where
  pub new_handler-IsHandler : IsHandler (new_handler {F = F})
  unfolding new_handler is_connected
  new_handler-IsHandler = record {
    mapped = tt;
    connected = λ off. refl;
    stale = omega arith;
    countdown = omega arith;
  }

  -- On a well-formed handler, as the plug-in's new one is, a callback for whole frames of the
  -- device's stream, of less than 2^32 bytes and within the caller's array, has no undefined
  -- behaviour, and fills all channels of these frames with the oldest samples of the segment, or
  -- with silence.
  pub stream_params-Plays :
      (frames : ℕ) (output : List F) (opened : Buffer F) {h : IoHandler F}
      → frames * stream_params.format.bytes_per_frame < u32
      → frames * stream_params.format.channels_per_frame ≤ length output
      → IsOpened opened
      → IsHandler h
      → IsHandler (new_handler {F = F})
        × Plays h.shared_buffer opened
            (frames * stream_params.format.channels_per_frame)
            output
            (on_read_client_input (frames * stream_params.format.bytes_per_frame) output opened h)
  unfolding stream_params
  stream_params-Plays frames output opened small room o v = (
    new_handler-IsHandler,
    on_read_client_input-Plays (frames * 8) (frames * 2) output (omega arith) (omega arith) room
        small opened o v,
  )
