-- ===== src/Live/Sound/Writes.antt =====
-- `noise_shm_write` and `noise_engine_process_and_write` (bridge/src/noise_bridge.cpp): what they
-- hand on.
use noise_ai.Base.{
  ℕ, ◌+◌, ◌*◌, mul32, not, Bool-cases, ◌>>=◌, u32, ◌≤◌, ◌<◌, ◌≡◌, inl, inr, refl, ap, ◌∙◌, Bool,
  true, false, if-true, if-false, Option, none, some, List, arith, length, u64,
}
use noise_ai.Float.{Float}
use noise_ai.Shared.Posix.{Posix, IsPosix, Name}
use noise_ai.Shared.Handle.{Handle}
use noise_ai.Live.Sound.{IsOwnerOrNull}
use noise_ai.Live.App.{shm_write_in, process_and_write_in, write_processed_in}
use noise_ai.Bridge.{to_int, grown}
use noise_ai.Bridge.Writes.{process_frame-Renders}
use noise_ai.Bridge.Segment.{is_pointer}
use noise_ai.DeepFilter.{Ort}
use noise_ai.DeepFilter.Laws.{HasShapes}
use noise_ai.Engine.{Engine, RnNoise, is_running}
use noise_ai.Engine.Preserve.{process_frame_idle}
use noise_ai.Engine.Valid.{IsValid, KeepsFrames}
use noise_ai.Live.Sound.Stays.{Stays}
use noise_ai.Live.Sound.Hands.{handed_after, write_in-Hands}

module _ {F World Fd Map O : Type 0} ⦃f : Float F⦄ {p : Posix F World Fd Map}
    (L : IsPosix O p) where
  open L use {named, contents, of_map}

  pub record Wrote (handed block : List F) (n : ℕ) (sb : Option (Handle Fd Map)) (before : World)
      (r : Option (ℕ × World)) : Type 0 where
    pub ok : Bool
    pub world : World
    pub ran : r ≡ some (to_int ok, world)
    pub stays : Stays L handed (handed_after L handed block n ok) before world
    pub owner : IsOwnerOrNull L (handed_after L handed block n ok) sb world
    pub names : (m : Name) → named m world ≡ named m before

  module _ (decide : Discrete O) {handed : List F} (n : ℕ) where
    pub shm_write_in-Wrote :
        (block : List F) (sb : Option (Handle Fd Map)) (w : World)
        → IsOwnerOrNull L handed sb w
        → n ≤ length block
        → length handed + n < u64
        → Wrote handed block n sb w (shm_write_in p block n sb w)
    unfolding shm_write_in
    shm_write_in-Wrote block none w owner given small = record {
      ok = false;
      world = w;
      ran = refl;
      stays = λ o c. c;
      owner = tt;
      names = λ m. refl;
    }
    shm_write_in-Wrote block (some b) w owner given small = elim owner.state [
      | inl (null, closed) ↦ record {
        ok = false;
        world = w;
        ran = if-true _ _ _ (ap (λ m. not (is_pointer p m)) null);
        stays = λ o c. c;
        owner = owner;
        names = λ m. refl;
      }
      | inr (map, mapped, own) ↦
          let h = write_in-Hands L decide block n b map w mapped own given small in
          record {
            ok = h.ok;
            world = h.world;
            ran =
                if-false _ _ _ (ap (λ m. not (is_pointer p m)) mapped)
                ∙ ap (λ r. do (ok, w') ← r; some (to_int ok, w')) h.ran;
            stays = h.stays;
            owner = record {
              creator = owner.creator;
              name = owner.name;
              state = inr (map, mapped, h.owns);
            };
            names = h.names;
          }
    ]

  pub record Processed {R S N : Type 0} (handed : List F) (n : ℕ) (sb : Option (Handle Fd Map))
      (before : World) (r : Option (ℕ × List F × Engine F R S N × World)) : Type 0 where
    pub ok : Bool
    pub out : List F
    pub engine : Engine F R S N
    pub world : World
    pub ran : r ≡ some (to_int ok, out, engine, world)
    pub valid : IsValid engine
    pub stays : Stays L handed (handed_after L handed out n ok) before world
    pub owner : IsOwnerOrNull L (handed_after L handed out n ok) sb world
    pub names : (m : Name) → named m world ≡ named m before

  module _ {R S N : Type 0} (rn : RnNoise F R) (ort : Ort F S N) (frames : KeepsFrames rn)
      (shapes : HasShapes ort) (decide : Discrete O) {handed : List F} (elapsed : ℕ → F)
      (input output_buf : List F) (n : ℕ) (e : Engine F R S N) (v : IsValid e) where
    pub process_and_write_in-Processed :
        (sb : Option (Handle Fd Map)) (w : World)
        → IsOwnerOrNull L handed sb w
        → (is_running e.status ≡ true → e.channels ≡ 2)
        → n * 2 ≤ length input
        → length input < u32
        → length output_buf < u32
        → length handed + n * 2 < u64
        → Processed handed
            (n * 2)
            sb
            w
            (process_and_write_in p ort rn elapsed input n output_buf e sb w)
    unfolding process_and_write_in write_processed_in
    process_and_write_in-Processed none w owner two given small small' few = record {
      ok = false;
      out = output_buf;
      engine = e;
      world = w;
      ran = refl;
      valid = v;
      stays = λ o c. c;
      owner = tt;
      names = λ m. refl;
    }
    process_and_write_in-Processed (some b) w owner two given small small' few = elim owner.state [
      | inl (null, closed) ↦ record {
        ok = false;
        out = output_buf;
        engine = e;
        world = w;
        ran = if-true _ _ _ (ap (λ m. not (is_pointer p m)) null);
        valid = v;
        stays = λ o c. c;
        owner = owner;
        names = λ m. refl;
      }
      | inr (map, mapped, own) ↦
          let total : mul32 n 2 ≡ n * 2 = omega arith in
          let on = if-false _ _ _ (ap (λ m. not (is_pointer p m)) mapped) in
          elim (Bool-cases (is_running e.status)) [
            | inr idle ↦ record {
              ok = false;
              out = grown output_buf (n * 2);
              engine = e;
              world = w;
              ran =
                  on
                  ∙ rw
                      (
                        total,
                        process_frame_idle rn ort elapsed input (grown output_buf (n * 2)) n e idle,
                      )
                      refl;
              valid = v;
              stays = λ o c. c;
              owner = owner;
              names = λ m. refl;
            }
            | inl run ↦
                let a =
                  process_frame-Renders rn ort frames shapes elapsed input output_buf n {e = e} v
                    run (two run) given small small' in
                let h = write_in-Hands L decide a.out (n * 2) b map w mapped own a.size few in
                record {
                  ok = h.ok;
                  out = a.out;
                  engine = a.next;
                  world = h.world;
                  ran = on ∙ rw (total, a.ran, h.ran) refl;
                  valid = a.valid;
                  stays = h.stays;
                  owner = record {
                    creator = owner.creator;
                    name = owner.name;
                    state = inr (map, mapped, h.owns);
                  };
                  names = h.names;
                }
          ]
    ]
