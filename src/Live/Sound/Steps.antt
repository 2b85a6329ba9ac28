-- ===== src/Live/Sound/Steps.antt =====
-- Every call of the app and of the driver, in any order: none has undefined behaviour.
use mathlib.Core.Path.{subst}
use noise_ai.Base.{◌*◌, ◌==◌, ◌≡◌, inl, refl, ◌∙◌, Bool, true, false, Option, none, some}
use noise_ai.Float.{Float, nought}
use noise_ai.DeepFilter.{Ort}
use noise_ai.DeepFilter.Laws.{HasShapes}
use noise_ai.Engine
use noise_ai.Engine.{Engine, RnNoise, is_running}
use noise_ai.Engine.Preserve.{make-IsValid}
use noise_ai.Engine.Reachable.{apply-IsValid}
use noise_ai.Engine.Valid.{KeepsFrames}
use noise_ai.Shared.Posix.{Posix, IsPosix}
use noise_ai.Shared.Handle.{Handle}
use noise_ai.Bridge.{to_int}
use noise_ai.Bridge.Segment.{engine_destroy_in, audio_name}
use noise_ai.Live.System.{
  Both, Event, calls, creates, destroys, quits, writes, processes, dies, plays, starts, stops,
  perform, IsEvent, released,
}
use noise_ai.Live.Guests.{IsGuest}
use noise_ai.Live.Sound.{IsSound}
use noise_ai.Live.Sound.Stays.{kept-Stays}
use noise_ai.Live.Sound.Hands.{handed_after}
use noise_ai.Live.Sound.Writes.{shm_write_in-Wrote, process_and_write_in-Processed}
use noise_ai.Live.Sound.Dims.{Dims-Stays}
use noise_ai.Live.Sound.Opens.{shm_destroy_in-Closed, shm_create_in-Created, released-Same}
use noise_ai.Live.Sound.Parts.{app_step, driver_step, named_still, IsPublic-IsPublished}
use noise_ai.Live.Follows.{on_read_client_input_in-Follows}
use noise_ai.Live.Starts.{on_start_io_in-StartsIo, on_stop_io_in-StopsIo, on_stop_io-IsHandler}
use noise_ai.Shared.Lifetime.{not_both}
use noise_ai.Driver.Connect.{IsHandler}
use noise_ai.Live.Driver.{view}
use noise_ai.Live.Keeps.{Keeps-Same}

module _ {F World Fd Map O : Type 0} ⦃f : Float F⦄ {p : Posix F World Fd Map} (L : IsPosix O p)
    (decide : Discrete O) where
  open L use {named, contents, of_map}

  null-IsGuest : (sb : Option (Handle Fd Map)) → sb ≡ none → IsGuest sb
  null-IsGuest none null = tt
  null-IsGuest (some b) null = absurd (not_both null)

  to_int_one : (b : Bool) → (to_int b == 1) ≡ b
  to_int_one true = refl
  to_int_one false = refl

  module _ {R S N : Type 0} (rn : RnNoise F R) (ort : Ort F S N) (frames : KeepsFrames rn)
      (shapes : HasShapes ort) where
    -- A call that is defined and leaves a sound system.
    pub record Performs (r : Option (Both F R S N World Fd Map)) : Type 0 where
      pub next : Both F R S N World Fd Map
      pub ran : r ≡ some next
      pub sound : IsSound L next

    -- With libraries that return whole frames, and objects that are told apart: in a system in
    -- which the engine is well-formed, the app's buffer failed or maps its own segment, and this
    -- segment, what the segment's name refers to and what the driver maps hold runs of the
    -- samples that the app has handed on, each call of the app and of the driver, and the end of
    -- the app's process, with arguments as the calls ask for them, has no undefined behaviour,
    -- whichever of its calls of POSIX fail, and leaves such a system.
    pub perform-Performs :
        (e : Event F R) (s : Both F R S N World Fd Map)
        → IsSound L s
        → IsEvent e s
        → Performs (perform p rn ort e s)
    unfolding perform engine_destroy_in
    perform-Performs (calls c) s sound ok =
        let (e, ran, valid) = apply-IsValid rn ort frames shapes c sound.engine ok in
        rw ran (record {
          next = record s { engine = e };
          ran = refl;
          sound =
              app_step L s sound e s.app_buffer s.world s.handed valid (λ o c. c) sound.public
                sound.owner;
        })
    perform-Performs (creates sample_rate channels) s sound ok =
        let c =
          shm_create_in-Created L decide s.handed sample_rate channels ok s.world s.app_buffer
            sound.owner in
        rw c.ran (record {
          next = record s { app_buffer = some c.handle; world = c.world };
          ran = refl;
          sound =
              app_step L s sound s.engine (some c.handle) c.world s.handed sound.engine
                (Dims-Stays L c.dims) c.public c.owner;
        })
    perform-Performs destroys s sound ok =
        let c = shm_destroy_in-Closed L decide s.app_buffer s.world sound.public sound.owner in
        rw c.ran (record {
          next = record s { app_buffer = none; world = c.world };
          ran = refl;
          sound =
              app_step L s sound s.engine none c.world s.handed sound.engine (Dims-Stays L c.dims)
                c.public tt;
        })
    perform-Performs quits s sound ok =
        let c = shm_destroy_in-Closed L decide s.app_buffer s.world sound.public sound.owner in
        rw c.ran (record {
          next = record s { engine = Engine.make; app_buffer = none; world = c.world };
          ran = refl;
          sound =
              app_step L s sound Engine.make none c.world s.handed make-IsValid
                (Dims-Stays L c.dims) c.public tt;
        })
    perform-Performs (writes samples n) s sound (given, small) =
        let w =
          shm_write_in-Wrote L decide n samples s.app_buffer s.world sound.owner given small in
        rw (w.ran, to_int_one w.ok)
          (record {
            next = record s { world = w.world; handed = handed_after L s.handed samples n w.ok };
            ran = refl;
            sound =
                app_step L s sound s.engine s.app_buffer w.world
                  (handed_after L s.handed samples n w.ok) sound.engine w.stays
                  (named_still L s sound w.stays (w.names audio_name)) w.owner;
          })
    perform-Performs (processes elapsed input n output_buf) s sound
          (two, given, small, small', few) =
        let w =
          process_and_write_in-Processed L rn ort frames shapes decide elapsed input output_buf n
            s.engine sound.engine s.app_buffer s.world sound.owner two given small small' few in
        rw (w.ran, to_int_one w.ok)
          (record {
            next = record s {
              engine = w.engine;
              world = w.world;
              handed = handed_after L s.handed w.out (n * 2) w.ok;
            };
            ran = refl;
            sound =
                app_step L s sound w.engine s.app_buffer w.world
                  (handed_after L s.handed w.out (n * 2) w.ok) w.valid w.stays
                  (named_still L s sound w.stays (w.names audio_name)) w.owner;
          })
    perform-Performs dies s sound ok =
        let same = released-Same L s.app_buffer s.world in
        let stays = kept-Stays L (λ o t bytes. same.bytes o ∙ bytes) in
        record {
          next = record s {
            engine = Engine.make;
            app_buffer = none;
            world = released p s.app_buffer s.world;
          };
          ran = refl;
          sound =
              app_step L s sound Engine.make none (released p s.app_buffer s.world) s.handed
                make-IsValid stays (named_still L s sound stays (same.names audio_name)) tt;
        }
    perform-Performs (plays bytes_count output) s sound (n, bytes, even, room, small) =
        let d =
          on_read_client_input_in-Follows L bytes_count n output bytes even room small decide
            s.world s.driver (IsPublic-IsPublished L sound.public) sound.guest sound.handler in
        rw d.sim.ran (record {
          next = record s { driver = d.sim.next; world = d.sim.world };
          ran = refl;
          sound =
              driver_step L s sound d.sim.next d.sim.world d.sim.keeps d.sim.names d.sim.guest
                d.handler d.sim.origin;
        })
    perform-Performs starts s sound ok =
        let d =
          on_start_io_in-StartsIo L decide s.world s.driver (IsPublic-IsPublished L sound.public)
            sound.guest in
        rw d.sim.ran (record {
          next = record s { driver = d.sim.next; world = d.sim.world };
          ran = refl;
          sound =
              driver_step L s sound d.sim.next d.sim.world d.sim.keeps d.sim.names d.sim.guest
                d.handler d.sim.origin;
        })
    perform-Performs stops s sound ok =
        let d = on_stop_io_in-StopsIo L s.world s.driver sound.guest in
        rw d.ran (record {
          next = record s { driver = d.next; world = d.world };
          ran = refl;
          sound =
              driver_step L s sound d.next d.world (Keeps-Same nought L d.unchanged)
                d.unchanged.names (null-IsGuest d.next.shared_buffer d.null)
                (subst IsHandler d.same (on_stop_io-IsHandler (view p s.world s.driver)))
                (inl d.null);
        })
