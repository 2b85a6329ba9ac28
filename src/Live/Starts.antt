-- ===== src/Live/Starts.antt =====
-- `OnStartIO` and `OnStopIO` (driver/src/io_handler.cpp) on the calls of POSIX: what they do is
-- what the handler does that is told what opening returns.
use noise_ai.Base.{◌≡◌, inl, inr, refl, sym, ap, ◌∙◌, Bool, false, Option, none, some, [], arith}
use noise_ai.Float.{Float, nought}
use noise_ai.Shared.{Buffer, is_valid, flush}
use noise_ai.Shared.Refine.{flush-IsSegment}
use noise_ai.Shared.Lifetime.{not_both}
use noise_ai.Shared.Posix.{Posix, IsPosix}
use noise_ai.Bridge.Segment.{audio_name}
use noise_ai.Driver.{IoHandler, is_connected, try_open, ensure_connected, on_start_io, on_stop_io}
use noise_ai.Driver.Connect.{IsOpened, IsHandler}
use noise_ai.Live.Driver.{LiveHandler, view, on_start_io_in, on_stop_io_in}
use noise_ai.Live.Guests.{IsGuest, Same, reset_guest, sees}
use noise_ai.Live.Keeps.{Keeps-Same, Keeps-trans}
use noise_ai.Live.Sims.{Sim, Sim-IsHandler}
use noise_ai.Live.Connects.Attempts.{ensure_connected-Tries}
use noise_ai.Live.Connects.{IsPublished, IsFound, Waits, Joins}

module _ {F : Type 0} ⦃f : Float F⦄ where
  pub on_start_io-IsHandler :
      (opened : Buffer F) (h : IoHandler F) → IsOpened opened → IsHandler (on_start_io opened h)
  unfolding on_start_io ensure_connected try_open is_connected is_valid flush
  on_start_io-IsHandler none h o = record {
    mapped = tt;
    connected = λ e. refl;
    stale = omega arith;
    countdown = omega arith;
  }
  on_start_io-IsHandler (some s) h (W, q, held) = record {
    mapped = (record s { read_pos = s.write_pos }, refl, W, [], (flush-IsSegment nought held).1);
    connected = λ e. refl;
    stale = omega arith;
    countdown = omega arith;
  }

  pub on_stop_io-IsHandler : (h : IoHandler F) → IsHandler (on_stop_io h)
  unfolding on_stop_io is_connected
  on_stop_io-IsHandler h = record {
    mapped = tt;
    connected = λ e. refl;
    stale = omega arith;
    countdown = omega arith;
  }

module _ {F World Fd Map O : Type 0} ⦃f : Float F⦄ {p : Posix F World Fd Map}
    (L : IsPosix O p) where
  open L use {named, contents, of_map}

  abbrev fresh : LiveHandler Fd Map
  fresh = record {
    shared_buffer = none;
    reconnect_countdown = 0;
    was_connected = false;
    was_underrun = false;
    was_ever_connected = false;
    last_heartbeat = 0;
    stale_count = 0;
  }

  module _ (h : LiveHandler Fd Map) (w w1 : World) (opened : Buffer F) where
    module _ {live : Option (Bool × LiveHandler Fd Map × World)} where
      waits :
          (t : Waits L w1 live (ensure_connected opened (view p w1 fresh)))
          → on_start_io opened (view p w h) ≡ view p t.world t.next
      unfolding on_start_io
      waits t = ap (λ (r : Bool × IoHandler F). r.1) t.same

      joins :
          (t : Joins L w1 none live (ensure_connected opened (view p w1 fresh)))
          → on_start_io opened (view p w h)
            ≡ view p t.world (record t.next { shared_buffer = some t.reader })
      unfolding on_start_io
      joins t =
          let g : LiveHandler Fd Map = record t.next { shared_buffer = some t.reader } in
          ap (λ (r : Bool × IoHandler F). r.1) t.same ∙ λ i. record (view p t.world g) {
            shared_buffer = some (sym (sees L t.reader t.map t.segment t.world t.mapped t.there) i);
          }

  -- What `OnStartIO` leaves.
  pub record StartsIo (h : LiveHandler Fd Map) (w : World) : Type 0 where
    pub opened : Buffer F
    pub found : IsFound L opened w
    pub sim :
        Sim L w h.shared_buffer (on_start_io_in p h w) (some (0, on_start_io opened (view p w h)))
    pub handler : IsHandler (view p sim.world sim.next)

  -- Where what the segment's name refers to, if anything, holds a queue, objects are told apart,
  -- and the driver's buffer, if it has one, is a consumer's: `OnStartIO`, with all its calls of
  -- POSIX, has no undefined behaviour, returns 0, and leaves the handler that the handler of
  -- Driver leaves for some outcome of opening: nothing, or the contents of the object under the
  -- name. The handler is well-formed then; names stay, and every segment that holds a queue loses
  -- at most the front of it.
  pub on_start_io_in-StartsIo :
      Discrete O
      → (w : World) (h : LiveHandler Fd Map) → IsPublished L w
      → IsGuest h.shared_buffer
      → StartsIo h w
  unfolding on_start_io_in
  on_start_io_in-StartsIo decide w h published guest =
      let (w1, ran, same) = reset_guest L h.shared_buffer w guest in
      let published' : IsPublished L w1 = λ o known.
        (let (s, bytes, W, q, held) = published o (sym (same.names audio_name) ∙ known) in
          (s, same.bytes o ∙ bytes, W, q, held)) in
      let t = ensure_connected-Tries L decide w1 published' fresh tt tt in
      let found : IsFound L t.opened w = elim t.found [
        | inl nothing ↦ inl nothing
        | inr (o, known, bytes) ↦
            inr (o, sym (same.names audio_name) ∙ known, sym (same.bytes o) ∙ bytes)
      ] in
      let sim : Sim L w h.shared_buffer (on_start_io_in p h w)
          (some (0, on_start_io t.opened (view p w h))) =
        elim t.outcome [
          | inl wait ↦
              rw (ran, wait.ran, waits h w w1 t.opened wait)
                (record {
                  value = 0;
                  next = wait.next;
                  world = wait.world;
                  ran = refl;
                  same = refl;
                  guest = wait.guest;
                  origin = inl wait.null;
                  names = λ n. wait.names n ∙ same.names n;
                  keeps = Keeps-trans nought L (Keeps-Same nought L same) wait.keeps;
                })
          | inr j ↦
              rw (ran, j.ran, joins h w w1 t.opened j)
                (record {
                  value = 0;
                  next = record j.next { shared_buffer = some j.reader };
                  world = j.world;
                  ran = refl;
                  same = refl;
                  guest = j.guest;
                  origin = inr (
                    j.reader,
                    refl,
                    elim j.origin [
                      | inl old ↦ absurd (not_both (sym old))
                      | inr known ↦ inr (j.map, j.mapped, sym (same.names audio_name) ∙ known)
                    ],
                  );
                  names = λ n. j.names n ∙ same.names n;
                  keeps = Keeps-trans nought L (Keeps-Same nought L same) j.keeps;
                })
        ] in
      record {
        opened = t.opened;
        found = found;
        sim = sim;
        handler = Sim-IsHandler L sim refl (on_start_io-IsHandler t.opened (view p w h) t.valid);
      }

  -- What `OnStopIO` leaves: no buffer, and the segments as they are.
  pub record StopsIo (h : LiveHandler Fd Map) (w : World) : Type 0 where
    pub next : LiveHandler Fd Map
    pub world : World
    pub ran : on_stop_io_in p h w ≡ some (next, world)
    pub same : on_stop_io (view p w h) ≡ view p world next
    pub null : next.shared_buffer ≡ none
    pub unchanged : Same L w world

  pub on_stop_io_in-StopsIo :
      (w : World) (h : LiveHandler Fd Map) → IsGuest h.shared_buffer → StopsIo h w
  unfolding on_stop_io_in on_stop_io
  on_stop_io_in-StopsIo w h guest =
      let (w1, ran, same) = reset_guest L h.shared_buffer w guest in
      record {
        next = record h {
          shared_buffer = none;
          reconnect_countdown = 0;
          was_connected = false;
          was_underrun = false;
          last_heartbeat = 0;
          stale_count = 0;
        };
        world = w1;
        ran = rw ran refl;
        same = refl;
        null = refl;
        unchanged = same;
      }
