-- ===== src/Live/Connects/Attempts.antt =====
-- What `ensureConnected` (driver/src/io_handler.cpp) does on the calls of POSIX: it tries, and
-- waits or joins.
use noise_ai.Base.{
  ◌-◌, ◌≡◌, inl, inr, refl, sym, ap, ◌∙◌, true, false, Bool-cases, ltb, le→ltb, arith, not, if-true,
  if◌then◌else◌, Option, none, some, [],
}
use noise_ai.Shared.{Segment, is_valid, flush}
use noise_ai.Shared.Refine.{flush-IsSegment}
use noise_ai.Shared.Lifetime.{not_both}
use noise_ai.Shared.Posix.{Posix, IsPosix}
use noise_ai.Shared.Handle.{Handle, buffer}
use noise_ai.Shared.Sharing.{HasHeader, construct-Opens}
use noise_ai.Float.{Float, nought}
use noise_ai.Bridge.Segment.{audio_name, is_pointer, is_mapped, driver_open}
use noise_ai.Driver.{is_connected, try_open, ensure_connected}
use noise_ai.Driver.Connect.{IsMapped, IsMappedOrNull}
use noise_ai.Live.Buffers.{reset}
use noise_ai.Live.Driver.{LiveHandler, seen, view, try_open_in, ensure_connected_in}
use noise_ai.Live.Guests.{IsGuest, Same-refl, Same-trans, Same, destroy_guest, sees, flush_in-lem}
use noise_ai.Live.Keeps.{Keeps-Same, Keeps-trans, Keeps-store, flush-Takes}
use noise_ai.Live.Connects.{IsPublished, mapped_lem, Joins, Tries}

module _ {F World Fd Map O : Type 0} ⦃f : Float F⦄ {p : Posix F World Fd Map}
    (L : IsPosix O p) where
  open L use {named, contents, of_map}

  clash : ¬ (true ≡ false)
  clash e = cc

  module _ (decide : Discrete O) (w : World) (published : IsPublished L w) where
    try_open-Tries :
        (h : LiveHandler Fd Map)
        → let g : LiveHandler Fd Map = record h { shared_buffer = none } in
          Tries L w none 0 (try_open_in p g w) (λ opened. try_open opened (view p w g))
    unfolding try_open_in driver_open reset try_open is_valid flush
    try_open-Tries h =
        let headed : HasHeader L audio_name w =
          λ o known. (let (s, bytes, W, q, held) = published o known in (s, bytes)) in
        let o = construct-Opens L audio_name 0 2 48000 w headed in
        let opens : Same L w o.world = record { names = o.names; bytes = o.bytes } in
        elim o.outcome [
          | inl (null, closed) ↦
              let (w', gone, same) = destroy_guest L o.handle o.world o.guest in
              record {
                opened = none;
                valid = tt;
                found = inl refl;
                tried = λ empty ready nothing. (o.handle, o.world, o.ran, null);
                outcome = inl (
                    let off : not (is_mapped p o.handle) ≡ true =
                      ap (λ m. not (is_pointer p m)) null in
                    rw (o.ran, off, gone)
                      (record {
                        next = record h {
                          shared_buffer = none;
                          reconnect_countdown = if h.was_ever_connected then 47 else 5;
                        };
                        world = w';
                        ran = refl;
                        same = refl;
                        null = refl;
                        guest = tt;
                        names = (Same-trans L opens same).names;
                        keeps = Keeps-Same nought L (Same-trans L opens same);
                      }));
              }
          | inr (map, mapped, known) ↦
              let (s, bytes, W, q, held) = published (of_map map) known in
              let there : contents (of_map map) o.world ≡ some s = o.bytes (of_map map) ∙ bytes in
              let flushed : Segment F = record s { read_pos = s.write_pos } in
              record {
                opened = some s;
                valid = (W, q, held);
                found = inr (of_map map, known, bytes);
                tried = λ empty ready nothing. absurd (not_both nothing);
                outcome = inr (
                    let on : not (is_mapped p o.handle) ≡ false =
                      ap (λ m. not (is_pointer p m)) mapped in
                    rw (o.ran, on, flush_in-lem L o.handle map s o.world mapped there)
                      (record {
                        next = record h {
                          shared_buffer = none;
                          reconnect_countdown = 0;
                          was_ever_connected = true;
                        };
                        reader = o.handle;
                        world = p.store map flushed o.world;
                        map = map;
                        segment = flushed;
                        total = W;
                        queue = [];
                        ran = refl;
                        same = refl;
                        guest = o.guest;
                        origin = inr known;
                        mapped = mapped;
                        there = L.load-store map flushed o.world;
                        held = (flush-IsSegment nought held).1;
                        names = λ n. L.named-store n map flushed o.world ∙ o.names n;
                        keeps = Keeps-trans nought L (Keeps-Same nought L opens) (
                            Keeps-store nought L decide map s flushed o.world there
                              (flush-Takes nought s));
                      }));
              }
        ]

    -- Still connected, or not to a buffer that is null: nothing is opened.
    joined :
        (h : LiveHandler Fd Map) (b : Handle Fd Map)
        → b.is_creator ≡ false
        → IsMapped (buffer p b w)
        → let g : LiveHandler Fd Map = record h { shared_buffer = some b } in
          Joins L w (some b) (ensure_connected_in p g w) (ensure_connected none (view p w g))
    unfolding ensure_connected_in ensure_connected is_connected is_valid
    joined h b guest m =
        let (map, mapped, (s, bytes, W, q, held)) = mapped_lem L b w m in
        let at : buffer p b w ≡ some s = sees L b map s w mapped bytes in
        record {
          next = record h { shared_buffer = some b };
          reader = b;
          world = w;
          map = map;
          segment = s;
          total = W;
          queue = q;
          ran = if-true _ _ _ (ap (is_pointer p) mapped);
          same = if-true _ _ _ (ap is_valid at) ∙ (λ i. (
            true,
            record (view p w (record h { shared_buffer = some b })) { shared_buffer = some (at i) },
          ));
          guest = guest;
          origin = inl refl;
          mapped = mapped;
          there = bytes;
          held = held;
          names = λ n. refl;
          keeps = Keeps-Same nought L (Same-refl L w);
        }

    tried_now :
        (h : LiveHandler Fd Map)
        → let g : LiveHandler Fd Map = record h { shared_buffer = none } in
          Tries L w none h.reconnect_countdown
            (try_open_in p g w)
            (λ opened. try_open opened (view p w g))
    tried_now h =
        let t = try_open-Tries h in
        record {
          opened = t.opened;
          valid = t.valid;
          found = t.found;
          tried = λ empty ready. t.tried refl refl;
          outcome = t.outcome;
        }

    ensured :
        (h : LiveHandler Fd Map) (sb : Option (Handle Fd Map))
        → IsGuest sb
        → IsMappedOrNull (seen p sb w)
        → let g : LiveHandler Fd Map = record h { shared_buffer = sb } in
          Tries L w sb h.reconnect_countdown
            (ensure_connected_in p g w)
            (λ opened. ensure_connected opened (view p w g))
    unfolding ensure_connected_in ensure_connected is_connected
    ensured h (some b) guest m = record {
      opened = none;
      valid = tt;
      found = inl refl;
      tried = λ empty ready nothing. absurd (not_both empty);
      outcome = inr (joined h b guest m);
    }
    ensured h none guest m = elim (Bool-cases (ltb 0 h.reconnect_countdown)) [
      | inl wait ↦ record {
        opened = none;
        valid = tt;
        found = inl refl;
        tried = λ empty ready nothing.
            absurd (clash (sym wait ∙ le→ltb 0 h.reconnect_countdown (omega (arith, ready))));
        outcome = inl (record {
          next = record h { shared_buffer = none; reconnect_countdown = h.reconnect_countdown - 1 };
          world = w;
          ran = if-true _ _ _ wait;
          same = if-true _ _ _ wait;
          null = refl;
          guest = tt;
          names = λ n. refl;
          keeps = Keeps-Same nought L (Same-refl L w);
        });
      }
      | inr expired ↦ rw expired (tried_now h)
    ]

    pub ensure_connected-Tries :
        (h : LiveHandler Fd Map)
        → IsGuest h.shared_buffer
        → IsMappedOrNull (seen p h.shared_buffer w)
        → Tries L w h.shared_buffer h.reconnect_countdown
            (ensure_connected_in p h w)
            (λ opened. ensure_connected opened (view p w h))
    ensure_connected-Tries h guest m = ensured h h.shared_buffer guest m
