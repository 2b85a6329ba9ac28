-- ===== src/Live/Restart/Rejoins.antt =====
-- The app ends its engine and creates a segment again; two callbacks later, the driver reads it.
use noise_ai.Base.{
  ℕ, ◌*◌, ◌==◌, ◌%◌, ◌≤◌, ◌<◌, ◌≡◌, refl, ap, ◌∙◌, not, none, some, List, [], ◌∷◌, ◌++◌, length,
  drop, mul32, u32,
}
use noise_ai.Float.{Float}
use noise_ai.Frames.{zeros}
use noise_ai.DeepFilter.{Ort}
use noise_ai.DeepFilter.Laws.{HasShapes}
use noise_ai.Engine
use noise_ai.Engine.{Engine, RnNoise}
use noise_ai.Engine.Valid.{KeepsFrames}
use noise_ai.Shared.{is_active}
use noise_ai.Shared.Posix.{Posix, IsPosix}
use noise_ai.Shared.Handle.{Handle}
use noise_ai.Shared.Willing.{IsWilling}
use noise_ai.Bridge.Segment.{audio_name}
use noise_ai.Bridge.Segment.Shares.{made}
use noise_ai.Live.Driver.{LiveHandler, seen, on_read_client_input_in}
use noise_ai.Live.Guests.{sees}
use noise_ai.Live.System.{Both, quits, creates, plays, perform, performs, IsEvent}
use noise_ai.Live.Sound.{IsSound}
use noise_ai.Live.Sound.Parts.{IsPublic-IsPublished}
use noise_ai.Live.Restart.{inactive-LetsGo, known-Connects}
use noise_ai.Live.Restart.Calls.{quits_lem, creates_lem, still, two, played}

module _ {F World Fd Map O : Type 0} ⦃f : Float F⦄ {p : Posix F World Fd Map}
    (L : IsPosix O p) where
  open L use {named, contents, of_map}

  module _ {R S N : Type 0} (decide : Discrete O) (rn : RnNoise F R) (ort : Ort F S N)
      (frames : KeepsFrames rn) (shapes : HasShapes ort) where
    -- The calls between which the driver lets go, and after which app and driver have one
    -- segment.
    pub record Restarts (sample_rate channels bytes_count n : ℕ) (output : List F)
        (s : Both F R S N World Fd Map) : Type 0 where
      pub between : Both F R S N World Fd Map
      pub last : Both F R S N World Fd Map
      pub let_go : LiveHandler Fd Map
      pub world : World
      pub app : Handle Fd Map
      pub app_map : Map
      pub reader : Handle Fd Map
      pub reader_map : Map
      pub ran : performs p rn ort (quits ∷ creates sample_rate channels ∷ []) s ≡ some between
      pub silent :
          on_read_client_input_in p bytes_count output between.driver between.world
          ≡ some (zeros n ++ drop n output, let_go, world)
      pub ran_on :
          performs p rn ort (plays bytes_count output ∷ plays bytes_count output ∷ []) between
          ≡ some last
      pub app_at : last.app_buffer ≡ some app
      pub app_mapped : app.shm_ptr ≡ some app_map
      pub reader_at : last.driver.shared_buffer ≡ some reader
      pub reader_mapped : reader.shm_ptr ≡ some reader_map
      pub one : of_map reader_map ≡ of_map app_map
      pub known : named audio_name last.world ≡ some (of_map app_map)
      pub sound : IsSound L last

    module _ (willing : IsWilling L) (sample_rate channels : ℕ)
        (some_room : 10 ≤ mul32 sample_rate channels) (bytes_count n : ℕ) (output : List F)
        (bytes : bytes_count ≡ n * 4) (even : n % 2 ≡ 0) (room : n ≤ length output)
        (small : bytes_count < u32) where
      -- With libraries that return whole frames, objects that are told apart, and calls of POSIX
      -- that do not fail where they create, open and map: in a system as calls leave it, whose
      -- driver maps the app's segment and has no calls left to wait, `noise_engine_destroy` and
      -- then `noise_shm_create`, for at least one sample, have no undefined behaviour. The
      -- driver's next callback, for whole stereo frames within the array and below 2^32 bytes,
      -- plays silence; and after one more such callback the driver maps the app's new segment,
      -- which has the name, and the system is again as calls leave it.
      pub restart-Restarts :
          (s : Both F R S N World Fd Map) (a b : Handle Fd Map) (app_map driver_map : Map)
          → IsSound L s
          → s.app_buffer ≡ some a
          → a.shm_ptr ≡ some app_map
          → s.driver.shared_buffer ≡ some b
          → b.shm_ptr ≡ some driver_map
          → of_map driver_map ≡ of_map app_map
          → s.driver.reconnect_countdown ≡ 0
          → Restarts sample_rate channels bytes_count n output s
      unfolding perform is_active
      restart-Restarts s a b app_map driver_map sound at mapped driver_at driver_mapped one ready =
          let (w1, t, quit, off) =
            quits_lem L decide rn ort frames shapes s a app_map sound at mapped in
          let s1 : Both F R S N World Fd Map = record s {
            engine = Engine.make;
            app_buffer = none;
            world = w1;
          } in
          let sound1 = still L decide rn ort frames shapes quits s s1 sound tt quit in
          let (h, w2, made, maps, kept) =
            creates_lem L decide rn ort frames shapes willing sample_rate channels some_room s1
              refl in
          let s2 : Both F R S N World Fd Map = record s1 { app_buffer = some h; world = w2 } in
          let sound2 =
            still L decide rn ort frames shapes (creates sample_rate channels) s1 s2 sound1
              some_room made in
          let old : contents (of_map driver_map) w2 ≡ some (record t { active = 0 }) =
            kept (of_map driver_map) (record t { active = 0 })
              (ap (λ o. contents o w1) one ∙ off) in
          let first =
            inactive-LetsGo L decide bytes_count n output bytes even room small s.driver w2
              (record t { active = 0 }) (IsPublic-IsPublished L sound2.public) sound2.guest
              sound2.handler
              (ap (λ sb. seen p sb w2) driver_at
                ∙ ap some (sees L b driver_map (record t { active = 0 }) w2 driver_mapped old))
              refl in
          let s3 : Both F R S N World Fd Map = record s2 {
            driver = first.next;
            world = first.world;
          } in
          let event : IsEvent (plays bytes_count output) s2 = (n, bytes, even, room, small) in
          let played1 : perform p rn ort (plays bytes_count output) s2 ≡ some s3 =
            played L decide rn ort frames shapes bytes_count output s2 _ first.next first.world
              first.ran in
          let sound3 =
            still L decide rn ort frames shapes (plays bytes_count output) s2 s3 sound2 event
              played1 in
          let left = first.keeps (of_map maps.map) maps.segment 0 [] maps.bytes maps.empty in
          let second =
            known-Connects L decide bytes_count n output bytes even room small willing first.next
              first.world (of_map maps.map) left.segment (IsPublic-IsPublished L sound3.public)
              sound3.guest sound3.handler first.gone (first.countdown ∙ ready) first.stale
              (first.names audio_name ∙ maps.known) left.bytes
              (ap (λ a. not (a == 0)) (left.shrinks.active ∙ maps.active)) in
          let s4 : Both F R S N World Fd Map = record s3 {
            driver = second.next;
            world = second.world;
          } in
          let played2 : perform p rn ort (plays bytes_count output) s3 ≡ some s4 =
            played L decide rn ort frames shapes bytes_count output s3 second.out second.next
              second.world second.ran in
          record {
            between = s2;
            last = s4;
            let_go = first.next;
            world = first.world;
            app = h;
            app_map = maps.map;
            reader = second.reader;
            reader_map = second.map;
            ran =
                two L decide rn ort frames shapes quits (creates sample_rate channels) s s1 s2 quit
                  made;
            silent = first.ran;
            ran_on =
                two L decide rn ort frames shapes (plays bytes_count output)
                  (plays bytes_count output) s2 s3 s4 played1 played2;
            app_at = refl;
            app_mapped = maps.mapped;
            reader_at = second.at;
            reader_mapped = second.mapped;
            one = second.same;
            known = second.names audio_name ∙ first.names audio_name ∙ maps.known;
            sound =
                still L decide rn ort frames shapes (plays bytes_count output) s3 s4 sound3 event
                  played2;
          }
