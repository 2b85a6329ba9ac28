-- ===== src/Live/Serves.antt =====
-- A callback on a mapped segment, against the same callback on the segment's contents.
use native.Mathlib.Decide.{dec_le}
use noise_ai.Base.{
  ℕ, ◌+◌, ◌*◌, ◌%◌, ◌==◌, ◌≤◌, ◌<◌, ◌≡◌, inl, inr, refl, sym, lt→ltb, leb, not, Bool, true, false,
  if◌then◌else◌, Option, none, some, List, arith, length, take, drop, ◌++◌, u32,
}
use noise_ai.Float.{Float, nought}
use noise_ai.Frames.{zeros}
use noise_ai.Circular.Holds.{words-length}
use noise_ai.Shared
use noise_ai.Shared.{Segment, Buffer, read_segment, is_active, get_heartbeat}
use noise_ai.Shared.Refine.{IsSegment}
use noise_ai.Shared.Posix.{Posix, IsPosix}
use noise_ai.Shared.Handle.{Handle, buffer}
use noise_ai.Driver.{IoHandler, stale_threshold, play, give_up, check_heartbeat, serve}
use noise_ai.Driver.Blocks.{memset_lem, silence_lem, total_lem, read_enough}
use noise_ai.Live.Driver.{LiveHandler, view, play_in, give_up_in, check_heartbeat_in, serve_in}
use noise_ai.Live.Keeps.{Keeps-Same, Keeps-store, read-Takes}
use noise_ai.Live.Guests.{IsGuest, Same-refl, reset_guest, loads, read_in-lem, sees, sees-store}
use noise_ai.Live.Sims.{Sim, if-Sim}

module _ {F World Fd Map O : Type 0} {p : Posix F World Fd Map} (L : IsPosix O p) where
  open L use {named, contents, of_map}

  looks :
      (out : List F) (b : Handle Fd Map) (h : LiveHandler Fd Map) (w : World) {s : Segment F}
      → buffer p b w ≡ some s
      → let g : LiveHandler Fd Map = record h { shared_buffer = some b } in
        ◌≡◌ {A = Option (List F × IoHandler F)}
          (some (out, record (view p w g) { shared_buffer = some (some s) }))
          (some (out, view p w g))
  looks out b h w at =
      let g : LiveHandler Fd Map = record h { shared_buffer = some b } in
      λ i. some (out, record (view p w g) { shared_buffer = some (sym at i) })

  module _ ⦃f : Float F⦄ where
    -- A read that does not find enough leaves the segment alone.
    short :
        {s : Segment F} {W : ℕ} {q : List F}
        → IsSegment nought s W q
        → (block : List F) (n : ℕ) → length q < n
        → read_segment s block n ≡ some (false, block, s)
    unfolding read_segment
    short {q = q} held block n few =
        rw (words-length nought held.holds, lt→ltb (length q) n few) refl

    module _ (bytes_count n : ℕ) (output : List F) (bytes : bytes_count ≡ n * 4) (even : n % 2 ≡ 0)
        (room : n ≤ length output) (small : bytes_count < u32) where
      give_up-Sim :
          {old : Option (Handle Fd Map)} (h : LiveHandler Fd Map) (w : World)
          → IsGuest h.shared_buffer
          → Sim L w old
              (give_up_in p bytes_count output h w)
              (give_up bytes_count output (view p w h))
      unfolding give_up_in give_up
      give_up-Sim h w guest =
          let (w', ran, same) = reset_guest L h.shared_buffer w guest in
          rw (ran, silence_lem bytes_count n output bytes even room small)
            (record {
              value = _;
              next = record h {
                shared_buffer = none;
                was_connected = false;
                last_heartbeat = 0;
                stale_count = 0;
              };
              world = w';
              ran = refl;
              same = refl;
              guest = tt;
              origin = inl refl;
              names = same.names;
              keeps = Keeps-Same nought L same;
            })

      module _ (b : Handle Fd Map) (guest : b.is_creator ≡ false) (map : Map) (s : Segment F)
          (w : World) (mapped : b.shm_ptr ≡ some map) (there : contents (of_map map) w ≡ some s)
          (decide : Discrete O) {W : ℕ} {q : List F} (held : IsSegment nought s W q) where
        play-Sim :
            (h : LiveHandler Fd Map)
            → let g : LiveHandler Fd Map = record h { shared_buffer = some b } in
              Sim L w
                (some b)
                (play_in p bytes_count output b g w)
                (play bytes_count output (some s) (view p w g))
        unfolding play_in play Shared.read
        play-Sim h =
            let total = total_lem bytes_count n output bytes even room small in
            elim (dec_le n (length q)) [
              | yes enough ↦
                  let c = read_enough bytes_count n output bytes even room small held enough in
                  rw
                    (
                      total,
                      read_in-lem L b map s w mapped there output _ n true c.next c.ran,
                      c.ran,
                    )
                    (record {
                      value = _;
                      next = record h { shared_buffer = some b; was_underrun = false };
                      world = p.store map c.next w;
                      ran = refl;
                      same =
                          looks (take n q ++ drop n output) b (record h { was_underrun = false })
                            (p.store map c.next w) (sees-store L b map s w mapped there c.next);
                      guest = guest;
                      origin = inr (b, refl, inl refl);
                      names = λ m. L.named-store m map c.next w;
                      keeps =
                          Keeps-store nought L decide map s c.next w there
                            (read-Takes nought output n room c.ran);
                    })
              | no few ↦
                  let missed = short held output n (omega arith) in
                  rw
                    (
                      total,
                      read_in-lem L b map s w mapped there output _ n false s missed,
                      missed,
                      memset_lem bytes_count n output bytes even room small,
                    )
                    (record {
                      value = _;
                      next = record h { shared_buffer = some b; was_underrun = true };
                      world = w;
                      ran = refl;
                      same =
                          looks (zeros n ++ drop n output) b (record h { was_underrun = true }) w
                            (sees L b map s w mapped there);
                      guest = guest;
                      origin = inr (b, refl, inl refl);
                      names = λ m. refl;
                      keeps = Keeps-Same nought L (Same-refl L w);
                    })
            ]

        check_heartbeat-Sim :
            (h : LiveHandler Fd Map)
            → let g : LiveHandler Fd Map = record h { shared_buffer = some b } in
              Sim L w
                (some b)
                (check_heartbeat_in p bytes_count output b g w)
                (check_heartbeat bytes_count output (some s) (view p w g))
        unfolding check_heartbeat_in check_heartbeat stale_threshold
        check_heartbeat-Sim h = rw (loads L b map s w mapped there) (
            if-Sim L (get_heartbeat (some s) == h.last_heartbeat)
              (if-Sim L (leb 50 (h.stale_count + 1))
                (give_up-Sim (record h { shared_buffer = some b; stale_count = h.stale_count + 1 })
                  w guest)
                (play-Sim (record h { stale_count = h.stale_count + 1 })))
              (play-Sim (record h { last_heartbeat = get_heartbeat (some s); stale_count = 0 })))

        joined-Sim :
            (h : LiveHandler Fd Map)
            → let g : LiveHandler Fd Map = record h { shared_buffer = some b } in
              Sim L w
                (some b)
                (if not (is_active (some s))
                  then give_up_in p bytes_count output g w
                  else check_heartbeat_in p bytes_count output b g w)
                (if not (is_active (some s))
                  then give_up bytes_count output (view p w g)
                  else check_heartbeat bytes_count output (some s) (view p w g))
        joined-Sim h =
            if-Sim L (not (is_active (some s)))
              (give_up-Sim (record h { shared_buffer = some b }) w guest) (check_heartbeat-Sim h)

        pub serve-Sim :
            (h : LiveHandler Fd Map) (was : Bool)
            → let g : LiveHandler Fd Map = record h {
              shared_buffer = some b;
              was_connected = was;
            } in
              Sim L w
                (some b)
                (serve_in p bytes_count output b g w)
                (serve bytes_count output (some s) (view p w g))
        unfolding serve_in serve
        serve-Sim h true =
            rw (loads L b map s w mapped there) (joined-Sim (record h { was_connected = true }))
        serve-Sim h false =
            rw (loads L b map s w mapped there)
              (joined-Sim (record h { was_connected = true; was_underrun = false }))
