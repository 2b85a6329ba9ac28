-- ===== src/Live/Sound/Parts.antt =====
-- The invariant after a step of the app, and after a step of the driver.
use mathlib.Core.Option.{some-injective}
use noise_ai.Base.{◌≡◌, inl, inr, refl, sym, ap, ◌∙◌, true, false, Option, none, some, List}
use noise_ai.Float.{Float, nought}
use noise_ai.Shared.{is_valid}
use noise_ai.Shared.Lifetime.{not_both}
use noise_ai.Shared.Posix.{Posix, IsPosix, Name}
use noise_ai.Shared.Handle.{Handle}
use noise_ai.Bridge.Segment.{audio_name}
use noise_ai.Engine.{Engine}
use noise_ai.Engine.Valid.{IsValid}
use noise_ai.Driver.{is_connected}
use noise_ai.Driver.Connect.{IsHandler, IsMappedOrNull}
use noise_ai.Live.Driver.{LiveHandler, seen, view}
use noise_ai.Live.Guests.{IsGuest, sees}
use noise_ai.Live.Keeps.{Keeps}
use noise_ai.Live.Sims.{Comes}
use noise_ai.Live.Connects.{mapped_lem, IsPublished}
use noise_ai.Live.System.{Both}
use noise_ai.Live.Sound.{IsOwnerOrNull, IsPublic, IsHeard, IsSound}
use noise_ai.Live.Sound.Stays.{Stays, Keeps-Stays, Keeps-Owns}

module _ {F World Fd Map O : Type 0} ⦃f : Float F⦄ {p : Posix F World Fd Map}
    (L : IsPosix O p) where
  open L use {named, contents, of_map}

  sees_on :
      {handed : List F} (sb : Option (Handle Fd Map)) (w w' : World)
      → IsMappedOrNull (seen p sb w)
      → IsHeard L handed sb w'
      → IsMappedOrNull (seen p sb w')
        × (is_connected (seen p sb w') ≡ false → is_connected (seen p sb w) ≡ false)
  unfolding is_connected is_valid
  sees_on none w w' m heard = (tt, λ off. off)
  sees_on (some b) w w' m heard =
      let (map, mapped, old) = mapped_lem L b w m in
      let c = heard b map refl mapped in
      let at = sees L b map c.segment w' mapped c.bytes in
      (
        (c.segment, at, c.total, c.queue, c.held),
        λ off. absurd (bool_clash (sym (ap is_valid at) ∙ off)),
      )
    where
      bool_clash : ¬ (true ≡ false)
      bool_clash e = cc

  sees_on-IsHandler :
      {handed : List F} (h : LiveHandler Fd Map) (w w' : World)
      → IsHandler (view p w h)
      → IsHeard L handed h.shared_buffer w'
      → IsHandler (view p w' h)
  sees_on-IsHandler h w w' v heard =
      let (m, off) = sees_on h.shared_buffer w w' v.mapped heard in
      record {
        mapped = m;
        connected = λ e. v.connected (off e);
        stale = v.stale;
        countdown = v.countdown;
      }

  pub IsPublic-IsPublished : {handed : List F} {w : World} → IsPublic L handed w → IsPublished L w
  IsPublic-IsPublished public o known =
      let c = public o known in (c.segment, c.bytes, c.total, c.queue, c.held)

  module _ {R S N : Type 0} (s : Both F R S N World Fd Map) (sound : IsSound L s) where
    pub app_step :
        (e : Engine F R S N) (b : Option (Handle Fd Map)) (w : World) (handed : List F)
        → IsValid e
        → Stays L s.handed handed s.world w
        → IsPublic L handed w
        → IsOwnerOrNull L handed b w
        → IsSound L (record s { engine = e; app_buffer = b; world = w; handed = handed })
    app_step e b w handed valid stays public owner =
        let heard : IsHeard L handed s.driver.shared_buffer w =
          λ b' map at mapped. stays (of_map map) (sound.heard b' map at mapped) in
        record {
          engine = valid;
          public = public;
          owner = owner;
          guest = sound.guest;
          handler = sees_on-IsHandler s.driver s.world w sound.handler heard;
          heard = heard;
        }

    -- Where the segment's name refers to what it did.
    pub named_still :
        {handed : List F} {w : World}
        → Stays L s.handed handed s.world w
        → (named audio_name w ≡ named audio_name s.world)
        → IsPublic L handed w
    named_still stays same o known = stays o (sound.public o (sym same ∙ known))

    Keeps-IsOwnerOrNull :
        {w : World} (sb : Option (Handle Fd Map))
        → Keeps nought L s.world w
        → IsOwnerOrNull L s.handed sb s.world
        → IsOwnerOrNull L s.handed sb w
    Keeps-IsOwnerOrNull none keeps owner = tt
    Keeps-IsOwnerOrNull (some b) keeps owner = record {
      creator = owner.creator;
      name = owner.name;
      state = elim owner.state [
        | inl failed ↦ inl failed
        | inr (map, mapped, owns) ↦ inr (map, mapped, Keeps-Owns L keeps owns)
      ];
    }

    pub driver_step :
        (h : LiveHandler Fd Map) (w : World)
        → Keeps nought L s.world w
        → ((n : Name) → named n w ≡ named n s.world)
        → IsGuest h.shared_buffer
        → IsHandler (view p w h)
        → Comes L s.world s.driver.shared_buffer h.shared_buffer
        → IsSound L (record s { driver = h; world = w })
    driver_step h w keeps names guest handler origin = record {
      engine = sound.engine;
      public = named_still (Keeps-Stays L keeps) (names audio_name);
      owner = Keeps-IsOwnerOrNull s.app_buffer keeps sound.owner;
      guest = guest;
      handler = handler;
      heard = λ b map at mapped. Keeps-Stays L keeps (of_map map) (elim origin [
        | inl null ↦ absurd (not_both (sym at ∙ null))
        | inr (b', at', inl old) ↦
            let same : b' ≡ b = some-injective _ _ (sym at' ∙ at) in
            sound.heard b map (old ∙ ap some same) mapped
        | inr (b', at', inr (map', mapped', known)) ↦
            let same : b' ≡ b = some-injective _ _ (sym at' ∙ at) in
            let one : map' ≡ map =
              some-injective _ _
                (sym mapped' ∙ ap (λ (x : Handle Fd Map). x.shm_ptr) same ∙ mapped) in
            sound.public (of_map map) (known ∙ ap (λ m. some (of_map m)) one)
      ]);
    }
