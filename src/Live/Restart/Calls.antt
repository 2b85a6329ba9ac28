-- ===== src/Live/Restart/Calls.antt =====
-- The calls of a restart, one by one (bridge/src/noise_bridge.cpp): what they leave in the
-- system.
use mathlib.Core.Option.{some-injective}
use mathlib.Core.Path.{subst}
use noise_ai.Base.{
  ℕ, ◌/◌, ◌≤◌, ◌≡◌, inl, inr, sym, ap, ◌∙◌, true, Option, none, some, List, [], ◌∷◌, ◌>>=◌, mul32,
}
use noise_ai.Float.{Float, nought}
use noise_ai.DeepFilter.{Ort}
use noise_ai.DeepFilter.Laws.{HasShapes}
use noise_ai.Engine
use noise_ai.Engine.{Engine, RnNoise}
use noise_ai.Engine.Valid.{KeepsFrames}
use noise_ai.Shared.{Segment}
use noise_ai.Shared.Lifetime.{not_both, Maps}
use noise_ai.Shared.Posix.{Posix, IsPosix}
use noise_ai.Shared.Handle.{Handle}
use noise_ai.Shared.Sharing.{destroy_creator}
use noise_ai.Shared.Willing.{IsWilling, create-IsMapping}
use noise_ai.Bridge.{to_int}
use noise_ai.Bridge.Segment.{
  audio_name, is_mapped, shm_create_in, shm_destroy_in, engine_destroy_in,
}
use noise_ai.Bridge.Segment.Shares.{made}
use noise_ai.Live.Driver.{LiveHandler, on_read_client_input_in}
use noise_ai.Live.System.{Both, Event, quits, creates, plays, perform, performs, IsEvent}
use noise_ai.Live.Sound.{IsOwnerOrNull, IsSound}
use noise_ai.Live.Sound.Steps.{perform-Performs}

module _ {F World Fd Map O : Type 0} ⦃f : Float F⦄ {p : Posix F World Fd Map}
    (L : IsPosix O p) where
  open L use {named, contents, of_map}

  -- What the app's mapping holds.
  owned :
      (handed : List F) (sb : Option (Handle Fd Map)) (w : World) (a : Handle Fd Map) (map : Map)
      → IsOwnerOrNull L handed sb w
      → sb ≡ some a
      → a.shm_ptr ≡ some map
      → (t : Segment F) × (contents (of_map map) w ≡ some t)
        × (a.is_creator ≡ true)
        × (a.shm_name ≡ audio_name)
  owned handed none w a map owner at mapped = absurd (not_both (sym at))
  owned handed (some a') w a map owner at mapped =
      let own = subst (λ sb. IsOwnerOrNull L handed sb w) at owner in
      let (t, bytes) : (t : Segment F) × (contents (of_map map) w ≡ some t) = elim own.state [
        | inl (null, closed) ↦ absurd (not_both (sym mapped ∙ null))
        | inr (map', mapped', owns) ↦ (
          owns.segment,
          ap (λ m. contents (of_map m) w) (some-injective _ _ (sym mapped ∙ mapped')) ∙ owns.bytes,
        )
      ] in
      (t, bytes, own.creator, own.name)

  module _ {R S N : Type 0} (decide : Discrete O) (rn : RnNoise F R) (ort : Ort F S N)
      (frames : KeepsFrames rn) (shapes : HasShapes ort) where
    pub quits_lem :
        (s : Both F R S N World Fd Map) (a : Handle Fd Map) (map : Map)
        → IsSound L s
        → s.app_buffer ≡ some a
        → a.shm_ptr ≡ some map
        → (w : World) × (t : Segment F) × (perform p rn ort quits s
            ≡ some (record s { engine = Engine.make; app_buffer = none; world = w }))
          × (contents (of_map map) w ≡ some (record t { active = 0 }))
    unfolding perform engine_destroy_in shm_destroy_in
    quits_lem s a map sound at mapped =
        let (t, bytes, creator, name) =
          owned s.handed s.app_buffer s.world a map sound.owner at mapped in
        let (w, ran, gone, off) = destroy_creator L a map t s.world creator mapped bytes in
        let resets : Option World → Option (Option (Option (Handle Fd Map)) × World) =
          λ r. (do v ← r; some (some none, v)) in
        let frees : Option World → Option World = λ r. (do (rest, after) ← resets r; some after) in
        let ends : Option World → Option (Both F R S N World Fd Map) = λ r. (do
          w' ← r
          some (record s { engine = Engine.make; app_buffer = none; world = w' })) in
        (
          w,
          t,
          ap (λ b. ends (engine_destroy_in p (some b) s.world)) at ∙ ap (λ r. ends (frees r)) ran,
          off,
        )

    module _ (willing : IsWilling L) (sample_rate channels : ℕ)
        (some_room : 10 ≤ mul32 sample_rate channels) where
      pub creates_lem :
          (s : Both F R S N World Fd Map)
          → s.app_buffer ≡ none
          → (h : Handle Fd Map) × (w : World) × (perform p rn ort (creates sample_rate channels) s
              ≡ some (record s { app_buffer = some h; world = w }))
            × Maps nought L audio_name (mul32 sample_rate channels / 10) h w
            × ((o : O) (t : Segment F) → contents o s.world ≡ some t → contents o w ≡ some t)
      unfolding perform shm_create_in
      creates_lem s null =
          let m = made nought L sample_rate channels some_room s.world in
          let (map, mapped) =
            create-IsMapping L willing audio_name (mul32 sample_rate channels / 10) channels
              sample_rate s.world m.handle m.world m.ran in
          let maps : Maps nought L audio_name (mul32 sample_rate channels / 10) m.handle m.world =
            elim m.outcome [
              | inl fails ↦ absurd (not_both (sym mapped ∙ fails.unmapped))
              | inr maps ↦ maps
            ] in
          let ends : Option (ℕ × Option (Option (Handle Fd Map)) × World)
              → Option (Both F R S N World Fd Map) =
            λ r. (do
              (result, handle, w) ← r
              b ← handle
              some (record s { app_buffer = b; world = w })) in
          (
            m.handle,
            m.world,
            ap (λ b. ends (shm_create_in p sample_rate channels (some b) s.world)) null
                ∙ ap
                    (λ r.
                      ends (do
                        (h, created) ← r
                        some (to_int (is_mapped p h), some (some h), created)))
                    m.ran,
            maps,
            m.kept,
          )

    pub still :
        (e : Event F R) (s t : Both F R S N World Fd Map)
        → IsSound L s
        → IsEvent e s
        → perform p rn ort e s ≡ some t
        → IsSound L t
    still e s t sound ok ran =
        let q = perform-Performs L decide rn ort frames shapes e s sound ok in
        subst (IsSound L) (some-injective _ _ (sym q.ran ∙ ran)) q.sound

    pub two :
        (e e' : Event F R) (s s' s'' : Both F R S N World Fd Map)
        → perform p rn ort e s ≡ some s'
        → perform p rn ort e' s' ≡ some s''
        → performs p rn ort (e ∷ e' ∷ []) s ≡ some s''
    two e e' s s' s'' ran ran' =
        ap (λ r. do v ← r; performs p rn ort (e' ∷ []) v) ran ∙ ap (λ r. do v ← r; some v) ran'

    pub played :
        (bytes_count : ℕ) (output : List F) (s : Both F R S N World Fd Map) (out : List F)
        (d : LiveHandler Fd Map) (w : World)
        → on_read_client_input_in p bytes_count output s.driver s.world ≡ some (out, d, w)
        → perform p rn ort (plays bytes_count output) s ≡ some (record s { driver = d; world = w })
    unfolding perform
    played bytes_count output s out d w ran =
        ap (λ r. do (out, d, w) ← r; some (record s { driver = d; world = w })) ran
