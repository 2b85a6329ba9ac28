-- ===== src/Live/Restart.antt =====
-- The app starts again while the driver runs: `noise_engine_destroy` and `noise_shm_create`
-- (bridge/src/noise_bridge.cpp), and two callbacks of the driver (driver/src/io_handler.cpp).
pub mod Calls
pub mod Rejoins
use mathlib.Core.Option.{some-injective}
use mathlib.Core.Path.{subst}
use noise_ai.Base.{
  ℕ, ◌/◌, ◌*◌, ◌%◌, ◌≤◌, ◌<◌, ◌≡◌, ◌⊎◌, inl, inr, refl, sym, ap, ◌∙◌, true, false, Option, none,
  some, List, [], ◌∷◌, ◌++◌, ◌>>=◌, length, drop, mul32, u32,
}
use noise_ai.Float.{Float, nought}
use noise_ai.Frames.{zeros}
use noise_ai.DeepFilter.{Ort}
use noise_ai.Engine
use noise_ai.Engine.{Engine, RnNoise}
use noise_ai.Shared.{Segment, Buffer, is_active}
use noise_ai.Shared.Refine.{IsSegment}
use noise_ai.Shared.Lifetime.{not_both, Maps, Creates}
use noise_ai.Shared.Posix.{Posix, IsPosix, Name}
use noise_ai.Shared.Handle.{Handle, buffer}
use noise_ai.Shared.Sharing.{destroy_creator}
use noise_ai.Shared.Willing.{IsWilling, create-IsMapping, open-IsMapping}
use noise_ai.Bridge.{to_int}
use noise_ai.Bridge.Segment.{
  audio_name, is_mapped, shm_create_in, shm_destroy_in, engine_destroy_in, driver_open,
}
use noise_ai.Bridge.Segment.Shares.{made}
use noise_ai.Driver.Restart.{inactive-Leaves, active-Rejoins}
use noise_ai.Driver.{IoHandler, on_read_client_input}
use noise_ai.Driver.Connect.{IsHandler}
use noise_ai.Live.Driver.{LiveHandler, seen, view, on_read_client_input_in}
use noise_ai.Live.Guests.{IsGuest, sees}
use noise_ai.Live.Keeps.{Keeps}
use noise_ai.Live.Connects.{IsPublished, IsTried}
use noise_ai.Live.Follows.{on_read_client_input_in-Follows}

module _ {F World Fd Map O : Type 0} ⦃f : Float F⦄ {p : Posix F World Fd Map} (L : IsPosix O p)
    (decide : Discrete O) where
  open L use {named, contents, of_map}

  unseen : (sb : Option (Handle Fd Map)) (w : World) → seen p sb w ≡ none → sb ≡ none
  unseen none w e = refl
  unseen (some b) w e = absurd (not_both e)

  module _ (bytes_count n : ℕ) (output : List F) (bytes : bytes_count ≡ n * 4) (even : n % 2 ≡ 0)
      (room : n ≤ length output) (small : bytes_count < u32) where
    -- A callback that finds its segment inactive.
    pub record LetsGo (h : LiveHandler Fd Map) (w : World) : Type 0 where
      pub next : LiveHandler Fd Map
      pub world : World
      pub ran :
          on_read_client_input_in p bytes_count output h w
          ≡ some (zeros n ++ drop n output, next, world)
      pub gone : next.shared_buffer ≡ none
      pub countdown : next.reconnect_countdown ≡ h.reconnect_countdown
      pub stale : next.stale_count ≡ 0
      pub handler : IsHandler (view p world next)
      pub names : (m : Name) → named m world ≡ named m w
      pub keeps : Keeps nought L w world

    inactive-LetsGo :
        (h : LiveHandler Fd Map) (w : World) (s : Segment F)
        → IsPublished L w
        → IsGuest h.shared_buffer
        → IsHandler (view p w h)
        → seen p h.shared_buffer w ≡ some (some s)
        → is_active (some s) ≡ false
        → LetsGo h w
    inactive-LetsGo h w s published guest valid at off =
        let d =
          on_read_client_input_in-Follows L bytes_count n output bytes even room small decide w h
            published guest valid in
        let l =
          inactive-Leaves bytes_count n output bytes even room small d.opened (view p w h) s at
            off in
        let same = some-injective _ _ (sym d.sim.same ∙ l.ran) in
        let after : view p d.sim.world d.sim.next ≡ l.next =
          ap (λ (r : List F × IoHandler F). r.1) same in
        record {
          next = d.sim.next;
          world = d.sim.world;
          ran =
              d.sim.ran
              ∙ ap (λ (r : List F × IoHandler F). some (r.0, d.sim.next, d.sim.world)) same;
          gone =
              unseen d.sim.next.shared_buffer d.sim.world
                (ap (λ (g : IoHandler F). g.shared_buffer) after ∙ l.gone);
          countdown = ap (λ (g : IoHandler F). g.reconnect_countdown) after ∙ l.countdown;
          stale = ap (λ (g : IoHandler F). g.stale_count) after ∙ l.stale;
          handler = d.handler;
          names = d.sim.names;
          keeps = d.sim.keeps;
        }

    -- A callback that opens what the name refers to.
    pub record Connects (o : O) (h : LiveHandler Fd Map) (w : World) : Type 0 where
      pub out : List F
      pub next : LiveHandler Fd Map
      pub world : World
      pub reader : Handle Fd Map
      pub map : Map
      pub ran : on_read_client_input_in p bytes_count output h w ≡ some (out, next, world)
      pub at : next.shared_buffer ≡ some reader
      pub mapped : reader.shm_ptr ≡ some map
      pub same : of_map map ≡ o
      pub names : (m : Name) → named m world ≡ named m w

    known-Connects :
        IsWilling L
        → (h : LiveHandler Fd Map) (w : World) (o : O) (s : Segment F) → IsPublished L w
        → IsGuest h.shared_buffer
        → IsHandler (view p w h)
        → h.shared_buffer ≡ none
        → h.reconnect_countdown ≡ 0
        → h.stale_count ≡ 0
        → named audio_name w ≡ some o
        → contents o w ≡ some s
        → is_active (some s) ≡ true
        → Connects o h w
    unfolding driver_open
    known-Connects willing h w o s published guest valid null ready fresh known there active =
        let d =
          on_read_client_input_in-Follows L bytes_count n output bytes even room small decide w h
            published guest valid in
        let opened : d.opened ≡ some s = elim d.found [
          | inl nothing ↦
              let (reader, later, ran, unmapped) = d.tried null ready nothing in
              let (map, mapped) =
                open-IsMapping L willing audio_name 0 2 48000 w o known reader later ran in
              absurd (not_both (sym mapped ∙ unmapped))
          | inr (o', known', there') ↦
              sym there' ∙ ap (λ x. contents x w) (some-injective _ _ (sym known' ∙ known)) ∙ there
        ] in
        let (t, at, W, q, held) = published o known in
        let held' : IsSegment nought s W q =
          subst (λ x. IsSegment nought x W q) (some-injective _ _ (sym at ∙ there)) held in
        let r =
          active-Rejoins bytes_count n output bytes even room small s (view p w h) held' active
            (ap (λ sb. seen p sb w) null) ready fresh in
        let same = some-injective _ _ (
          sym d.sim.same
          ∙ ap (λ x. on_read_client_input bytes_count output x (view p w h)) opened
          ∙ r.ran) in
        let kept : seen p d.sim.next.shared_buffer d.sim.world ≡ some (some r.segment) =
          ap (λ (x : List F × IoHandler F). x.1.shared_buffer) same ∙ r.kept in
        elim d.sim.origin [
          | inl gone ↦ absurd (not_both (sym kept ∙ ap (λ sb. seen p sb d.sim.world) gone))
          | inr (b, at, inl old) ↦ absurd (not_both (sym old ∙ null))
          | inr (b, at, inr (map, mapped, known')) ↦ record {
            out = d.sim.value;
            next = d.sim.next;
            world = d.sim.world;
            reader = b;
            map = map;
            ran = d.sim.ran;
            at = at;
            mapped = mapped;
            same = some-injective _ _ (sym known' ∙ known);
            names = d.sim.names;
          }
        ]
