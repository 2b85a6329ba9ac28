-- ===== src/Bridge/Segment/Cleans.antt =====
-- What `noise_shm_create` and `noise_engine_destroy` (bridge/src/noise_bridge.cpp) leave of older
-- segments.
use noise_ai.Base.{ℕ, ◌≤◌, ◌≡◌, inl, inr, sym, ap, ◌∙◌, true, Option, none, some, ◌>>=◌, mul32}
use noise_ai.Bridge.{to_int}
use noise_ai.Shared.{Segment}
use noise_ai.Shared.Posix.{Posix, IsPosix}
use noise_ai.Shared.Handle.{Handle, destroy}
use noise_ai.Shared.Sharing.{destroy_creator, destroy_failed}
use noise_ai.Bridge.Segment.{
  audio_name, is_mapped, shm_create_in, shm_destroy_in, engine_destroy_in,
}
use noise_ai.Bridge.Segment.Shares.{made}

module _ {F World Fd Map O : Type 0} (d : F) {p : Posix F World Fd Map} (L : IsPosix O p) where
  open L use {named, contents, of_map}

  module _ (sample_rate channels : ℕ) (some_room : 10 ≤ mul32 sample_rate channels)
      (w : World) where
    -- With a product of sample rate and channels that is at least 10 modulo 2^32, on a context
    -- whose buffer is a producer's, mapped to a segment, with the segment's name:
    -- `noise_shm_create` has no undefined behaviour, and destroys the old buffer after it made
    -- the new one. It returns whether the new one is mapped; but whatever it returns, nothing has
    -- the name then, and the old segment is inactive.
    pub shm_create_in-again :
        (old : Handle Fd Map)
        → (map : Map) → (s : Segment F) → old.is_creator ≡ true
        → old.shm_name ≡ audio_name
        → old.shm_ptr ≡ some map
        → contents (of_map map) w ≡ some s
        → (new : Handle Fd Map) × (after : World) × (shm_create_in p sample_rate channels
              (some (some old))
              w
            ≡ some (to_int (is_mapped p new), some (some new), after))
          × (named audio_name after ≡ none)
          × (contents (of_map map) after ≡ some (record s { active = 0 }))
    unfolding shm_create_in
    shm_create_in-again old map s creator name mapped bytes =
        let m = made d L sample_rate channels some_room w in
        let (after, ran, gone, inactive) =
          destroy_creator L old map s m.world creator mapped (m.kept (of_map map) s bytes) in
        (
          m.handle,
          after,
          ap
                (λ r. do
                  (new, created) ← r
                  later ← destroy p old created
                  some (to_int (is_mapped p new), some (some new), later))
                m.ran
              ∙ ap
                  (λ r. do
                    later ← r
                    some (to_int (is_mapped p m.handle), some (some m.handle), later))
                  ran,
          ap (λ n. named n after) (sym name) ∙ gone,
          inactive,
        )

    -- With a product of sample rate and channels that is at least 10 modulo 2^32, on a context
    -- without a buffer, `noise_shm_create`, whatever it returns, and then `noise_engine_destroy`:
    -- neither has undefined behaviour, and nothing has the name of the segment then.
    pub engine_destroy_in-shm_create_in :
        (returned : ℕ) × (new : Handle Fd Map) × (after : World) × (last : World) × (shm_create_in p
            sample_rate channels
            (some none)
            w
          ≡ some (returned, some (some new), after))
        × (engine_destroy_in p (some (some new)) after ≡ some last)
        × (named audio_name last ≡ none)
    unfolding engine_destroy_in shm_create_in shm_destroy_in
    engine_destroy_in-shm_create_in =
        let m = made d L sample_rate channels some_room w in
        let ran =
          ap (λ r. do (new, created) ← r; some (to_int (is_mapped p new), some (some new), created))
            m.ran in
        let reset : Option World → Option (Option (Option (Handle Fd Map)) × World) =
          λ r. (do after ← r; some (some none, after)) in
        let freed : Option World → Option World = λ r. (do (rest, after) ← reset r; some after) in
        elim m.outcome [
          | inl fails ↦
              let (last, gone, free) =
                destroy_failed L m.handle m.world m.creator fails.unmapped fails.closed in
              (
                _,
                m.handle,
                m.world,
                last,
                ran,
                ap freed gone,
                ap (λ n. named n last) (sym m.stored_name) ∙ free,
              )
          | inr maps ↦
              let (last, gone, free, inactive) =
                destroy_creator L m.handle maps.map maps.segment m.world m.creator maps.mapped
                  maps.bytes in
              (
                _,
                m.handle,
                m.world,
                last,
                ran,
                ap freed gone,
                ap (λ n. named n last) (sym m.stored_name) ∙ free,
              )
        ]
