-- ===== src/Live/Follows.antt =====
-- The driver's callback (driver/src/io_handler.cpp) on the calls of POSIX does what the handler
-- does that is told what opening returns.
use mathlib.Core.Path.{subst}
use noise_ai.Base.{
  ℕ, ◌*◌, ◌%◌, ◌≤◌, ◌<◌, ◌≡◌, inl, inr, refl, sym, ◌∙◌, false, Option, some, List, ◌++◌, length,
  drop, u32,
}
use noise_ai.Bridge.Segment.{audio_name}
use noise_ai.Float.{Float, nought}
use noise_ai.Frames.{zeros}
use noise_ai.Shared.{Buffer}
use noise_ai.Shared.Posix.{Posix, IsPosix, Name}
use noise_ai.Shared.Handle.{Handle}
use noise_ai.Driver.{IoHandler, ensure_connected, serve, on_read_client_input}
use noise_ai.Driver.Blocks.{silence_lem}
use noise_ai.Driver.Connect.{IsHandler, Plays}
use noise_ai.Driver.Plays.{on_read_client_input-Plays}
use noise_ai.Live.Driver.{
  LiveHandler, seen, view, ensure_connected_in, serve_in, on_read_client_input_in,
}
use noise_ai.Live.Guests.{IsGuest, sees}
use noise_ai.Live.Keeps.{Keeps, Keeps-trans}
use noise_ai.Live.Serves.{serve-Sim}
use noise_ai.Live.Sims.{Comes, Sim, Sim-IsHandler}
use noise_ai.Live.Connects.Attempts.{ensure_connected-Tries}
use noise_ai.Live.Connects.{IsPublished, IsFound, IsTried, Waits, Joins}

module _ {F World Fd Map O : Type 0} ⦃f : Float F⦄ {p : Posix F World Fd Map}
    (L : IsPosix O p) where
  open L use {named, contents, of_map}

  Comes-trans :
      {a b : World} {old new newest : Option (Handle Fd Map)}
      → ((n : Name) → named n b ≡ named n a)
      → Comes L a old new
      → Comes L b new newest
      → Comes L a old newest
  Comes-trans names first (inl gone) = inl gone
  Comes-trans {newest = newest} names first (inr (b, at, inr (map, mapped, known))) =
      inr (b, at, inr (map, mapped, sym (names audio_name) ∙ known))
  Comes-trans {a = a} {old = old} names first (inr (b, at, inl same)) =
      subst (Comes L a old) (same ∙ sym at) first

  Sim-after :
      {A : Type 0} {a b : World} {old new : Option (Handle Fd Map)}
      {live : Option (A × LiveHandler Fd Map × World)} {other : Option (A × IoHandler F)}
      → ((n : Name) → named n b ≡ named n a)
      → Keeps nought L a b
      → Comes L a old new
      → Sim L b new live other
      → Sim L a old live other
  Sim-after names keeps from s = record {
    value = s.value;
    next = s.next;
    world = s.world;
    ran = s.ran;
    same = s.same;
    guest = s.guest;
    origin = Comes-trans names from s.origin;
    names = λ n. s.names n ∙ names n;
    keeps = Keeps-trans nought L keeps s.keeps;
  }

  -- For some outcome of opening, which is nothing or what the segment's name refers to, the
  -- process runs as the handler does, and plays what it plays.
  pub record Follows (before : World) (old : Option (Handle Fd Map)) (countdown : ℕ) (n : ℕ)
      (output : List F) (live : Option (List F × LiveHandler Fd Map × World))
      (other : Buffer F → Option (List F × IoHandler F)) : Type 0 where
    pub opened : Buffer F
    pub found : IsFound L opened before
    pub tried : IsTried L opened old countdown before
    pub sim : Sim L before old live (other opened)
    pub plays : Plays (seen p old before) opened n output (other opened)
    pub handler : IsHandler (view p sim.world sim.next)

  module _ (bytes_count n : ℕ) (output : List F) (bytes : bytes_count ≡ n * 4) (even : n % 2 ≡ 0)
      (room : n ≤ length output) (small : bytes_count < u32) where
    waits :
        (h : LiveHandler Fd Map) (w : World) (opened : Buffer F)
        → Waits L w (ensure_connected_in p h w) (ensure_connected opened (view p w h))
        → Sim L w h.shared_buffer
            (on_read_client_input_in p bytes_count output h w)
            (on_read_client_input bytes_count output opened (view p w h))
    unfolding on_read_client_input_in on_read_client_input
    waits h w opened wait =
        rw (wait.ran, wait.same, silence_lem bytes_count n output bytes even room small)
          (record {
            value = zeros n ++ drop n output;
            next = record wait.next { was_connected = false };
            world = wait.world;
            ran = refl;
            same = refl;
            guest = wait.guest;
            origin = inl wait.null;
            names = wait.names;
            keeps = wait.keeps;
          })

    joins :
        Discrete O
        → (h : LiveHandler Fd Map) (w : World) (opened : Buffer F)
        → Joins L w h.shared_buffer
            (ensure_connected_in p h w)
            (ensure_connected opened (view p w h))
        → Sim L w h.shared_buffer
            (on_read_client_input_in p bytes_count output h w)
            (on_read_client_input bytes_count output opened (view p w h))
    unfolding on_read_client_input_in on_read_client_input
    joins decide h w opened j =
        let from : Comes L w h.shared_buffer (some j.reader) = inr (
          j.reader,
          refl,
          elim j.origin [ inl same ↦ inl same | inr known ↦ inr (j.map, j.mapped, known) ],
        ) in
        let tried : LiveHandler Fd Map = record j.next { shared_buffer = some j.reader } in
        rw (j.ran, j.same)
          (Sim-after j.names j.keeps from (
            subst
              (λ b.
                Sim L j.world (some j.reader) (serve_in p bytes_count output j.reader tried j.world)
                  (serve bytes_count output (some j.segment)
                    (record (view p j.world tried) { shared_buffer = some b })))
              (sees L j.reader j.map j.segment j.world j.mapped j.there)
              (serve-Sim L bytes_count n output bytes even room small j.reader j.guest j.map
                j.segment j.world j.mapped j.there decide j.held j.next j.next.was_connected)))

    -- Where what the segment's name refers to, if anything, holds a queue, objects are told
    -- apart, the handler is well-formed, and its buffer, if it has one, is a consumer's: a
    -- callback for whole stereo frames within the caller's array and below 2^32 bytes, with all
    -- its calls of POSIX, has no undefined behaviour. For some outcome of opening (nothing, or
    -- the contents of the object under the name; nothing only if the calls fail, where the driver
    -- has no buffer and no calls left to wait) it returns the block and the handler that the
    -- handler of Driver returns for that outcome. Names stay, every segment that holds a queue
    -- loses at most the front of it, and the handler stays well-formed.
    pub on_read_client_input_in-Follows :
        Discrete O
        → (w : World) (h : LiveHandler Fd Map) → IsPublished L w
        → IsGuest h.shared_buffer
        → IsHandler (view p w h)
        → Follows w h.shared_buffer h.reconnect_countdown n output
            (on_read_client_input_in p bytes_count output h w)
            (λ opened. on_read_client_input bytes_count output opened (view p w h))
    on_read_client_input_in-Follows decide w h published guest v =
        let t = ensure_connected-Tries L decide w published h guest v.mapped in
        let plays =
          on_read_client_input-Plays bytes_count n output bytes even room small t.opened
            {h = view p w h} t.valid v in
        let sim : Sim L w h.shared_buffer (on_read_client_input_in p bytes_count output h w)
            (on_read_client_input bytes_count output t.opened (view p w h)) =
          elim t.outcome [
            | inl wait ↦ waits h w t.opened wait
            | inr j ↦ joins decide h w t.opened j
          ] in
        record {
          opened = t.opened;
          found = t.found;
          tried = t.tried;
          sim = sim;
          plays = plays;
          handler = Sim-IsHandler L sim plays.ran plays.handler;
        }
