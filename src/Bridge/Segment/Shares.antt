-- ===== src/Bridge/Segment/Shares.antt =====
-- What the driver finds after a first `noise_shm_create` (bridge/src/noise_bridge.cpp).
use mathlib.Core.Option.{some-injective}
use noise_ai.Base.{
  ℕ, ◌/◌, ◌≤◌, ◌≡◌, ◌⊎◌, inl, inr, refl, sym, ap, ◌∙◌, true, Option, none, some, ◌>>=◌, [], arith,
  take, mul32,
}
use noise_ai.Bridge.{to_int}
use noise_ai.Shared.{Segment}
use noise_ai.Shared.Refine.{IsSegment}
use noise_ai.Shared.Posix.{Posix, IsPosix}
use noise_ai.Shared.Handle.{Handle, construct, buffer}
use noise_ai.Shared.Lifetime.{not_both, Fails, Maps, Creates, construct-Creates}
use noise_ai.Shared.Sharing.{HasHeader, construct-Opens}
use noise_ai.Bridge.Segment.{audio_name, is_pointer, is_mapped, shm_create_in, driver_open}

module _ {F World Fd Map O : Type 0} (d : F) {p : Posix F World Fd Map} (L : IsPosix O p) where
  open L use {named, contents, of_map}

  short_name : take 255 audio_name ≡ audio_name
  short_name = refl

  module _ (sample_rate channels : ℕ) (some_room : 10 ≤ mul32 sample_rate channels)
      (w : World) where
    pub made :
        Creates d L audio_name
          (mul32 sample_rate channels / 10)
          w
          (construct p audio_name (mul32 sample_rate channels / 10) channels sample_rate true w)
    made =
        construct-Creates d L audio_name (mul32 sample_rate channels / 10) channels sample_rate
          (omega arith) (omega arith) w

    -- With no buffer before, `noise_shm_create` has no undefined behaviour, and returns 1 if the
    -- name then refers to an empty, active segment of a tenth of a second, and 0 if nothing has
    -- the name.
    pub shm_create_in_lem :
        (new : Handle Fd Map) × (after : World) × ((shm_create_in p sample_rate channels
                (some none)
                w
              ≡ some (1, some (some new), after))
            × Maps d L audio_name (mul32 sample_rate channels / 10) new after
          ⊎ (shm_create_in p sample_rate channels (some none) w ≡ some (0, some (some new), after))
            × Fails d L audio_name w new after)
    unfolding shm_create_in
    shm_create_in_lem =
        let returns : Option Map → Option (ℕ × Option (Option (Handle Fd Map)) × World) =
          λ q. some (to_int (is_pointer p q), some (some made.handle), made.world) in
        let ran : shm_create_in p sample_rate channels (some none) w ≡ returns made.handle.shm_ptr =
          ap (λ r. do (new, created) ← r; some (to_int (is_mapped p new), some (some new), created))
            made.ran in
        elim made.outcome [
          | inl fails ↦ (made.handle, made.world, inr (ran ∙ ap returns fails.unmapped, fails))
          | inr maps ↦ (made.handle, made.world, inl (ran ∙ ap returns maps.mapped, maps))
        ]

    -- What the driver and the bridge then have: nothing for the driver, or one segment for both.
    pub record Meets (returned : ℕ) (new : Handle Fd Map) (after : World) : Type 0 where
      pub reader : Handle Fd Map
      pub later : World
      pub opened : driver_open p after ≡ some (reader, later)
      pub outcome :
          (reader.shm_ptr ≡ none)
          ⊎ ((s : Segment F) × (returned ≡ 1)
              × (buffer p new later ≡ some s)
              × (buffer p reader later ≡ some s)
              × (s.capacity ≡ mul32 sample_rate channels / 10)
              × (s.active ≡ 1)
              × IsSegment d s 0 [])

    sees :
        (h : Handle Fd Map) (map : Map) (s : Segment F) (v : World)
        → h.shm_ptr ≡ some map
        → contents (of_map map) v ≡ some s
        → buffer p h v ≡ some s
    unfolding buffer
    sees h map s v mapped bytes = rw mapped (L.load_lem map v ∙ bytes)

    Maps-Meets :
        (new : Handle Fd Map) (after : World)
        → Maps d L audio_name (mul32 sample_rate channels / 10) new after
        → Meets 1 new after
    unfolding driver_open
    Maps-Meets new after maps =
        let there : HasHeader L audio_name after = λ o known. (
          maps.segment,
          ap (λ o. contents o after) (some-injective _ _ (sym known ∙ maps.known)) ∙ maps.bytes,
        ) in
        let o = construct-Opens L audio_name 0 2 48000 after there in
        record {
          reader = o.handle;
          later = o.world;
          opened = o.ran;
          outcome = elim o.outcome [
            | inl (unmapped, closed) ↦ inl unmapped
            | inr (map, mapped, known) ↦
                let same : of_map map ≡ of_map maps.map =
                  some-injective _ _ (sym known ∙ maps.known) in
                let bytes : contents (of_map maps.map) o.world ≡ some maps.segment =
                  o.bytes (of_map maps.map) ∙ maps.bytes in
                inr (
                  maps.segment,
                  refl,
                  sees new maps.map maps.segment o.world maps.mapped bytes,
                  sees o.handle map maps.segment o.world mapped
                      (ap (λ o'. contents o' o.world) same ∙ bytes),
                  maps.capacity_lem,
                  maps.active,
                  maps.empty,
                )
          ];
        }

    -- With a product of sample rate and channels that is at least 10 modulo 2^32, and no buffer
    -- before: `noise_shm_create` and then the driver's attempt to connect have no undefined
    -- behaviour. The driver is left without a segment, or `noise_shm_create` returned 1 and both
    -- have the same segment: empty, active, and with room for a tenth of the product, so reduced.
    pub driver_open-shm_create_in :
        (returned : ℕ) × (new : Handle Fd Map) × (after : World) × (shm_create_in p sample_rate
            channels
            (some none)
            w
          ≡ some (returned, some (some new), after))
        × Meets returned new after
    unfolding driver_open
    driver_open-shm_create_in =
        let (new, after, outcome) = shm_create_in_lem in
        elim outcome [
          | inl (ran, maps) ↦ (1, new, after, ran, Maps-Meets new after maps)
          | inr (ran, fails) ↦
              let o =
                construct-Opens L audio_name 0 2 48000 after
                  (λ o known. absurd (not_both (sym known ∙ fails.gone))) in
              let none_there : o.handle.shm_ptr ≡ none = elim o.outcome [
                | inl (unmapped, closed) ↦ unmapped
                | inr (map, mapped, known) ↦ absurd (not_both (sym known ∙ fails.gone))
              ] in
              (
                0,
                new,
                after,
                ran,
                record {
                  reader = o.handle;
                  later = o.world;
                  opened = o.ran;
                  outcome = inl none_there;
                },
              )
        ]
