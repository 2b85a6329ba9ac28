-- ===== src/Driver/Plays.antt =====
-- What a callback of the driver plays, and that it keeps the handler well-formed.
use native.Mathlib.Decide.{dec_le}
use mathlib.Core.Path.{subst}
use noise_ai.Base.{
  ℕ, ◌+◌, ◌*◌, ◌%◌, ◌==◌, ◌≤◌, ◌<◌, ◌≡◌, ◌⊎◌, inl, inr, refl, sym, true, false, not, leb, if-both,
  if◌then◌else◌, Option, some, List, ◌++◌, ◌>>=◌, arith, length, take, drop, u32,
}
use noise_ai.Float.{Float, nought}
use noise_ai.Frames.{zeros}
use noise_ai.Shared.{Segment, Buffer, read, flush, is_valid, is_active, get_heartbeat}
use noise_ai.Shared.Refine.{IsSegment}
use noise_ai.Driver.{
  IoHandler, stale_threshold, is_connected, disconnect, play, give_up, check_heartbeat, serve,
  on_read_client_input,
}
use noise_ai.Driver.Connect.{IsOpened, IsHandler, Plays, if-Plays, ensure_connected-Ensures}
use noise_ai.Driver.Blocks.{memset_lem, silence_lem, total_lem, read_enough, read_short}

module _ {F : Type 0} ⦃f : Float F⦄ where
  module _ (bytes_count n : ℕ) (output : List F) (bytes : bytes_count ≡ n * 4) (even : n % 2 ≡ 0)
      (room : n ≤ length output) (small : bytes_count < u32) where
    module _ {before : Option (Buffer F)} {opened : Buffer F} where
      give_up-Plays :
          (h : IoHandler F)
          → h.reconnect_countdown ≤ 47
          → Plays before opened n output (give_up bytes_count output h)
      unfolding give_up is_connected
      give_up-Plays h few = rw (silence_lem bytes_count n output bytes even room small) (record {
        out = zeros n ++ drop n output;
        next = disconnect h;
        ran = refl;
        heard = inl refl;
        handler = record {
          mapped = tt;
          connected = λ e. refl;
          stale = omega arith;
          countdown = few;
        };
      })

      play-Plays :
          (s : Segment F) (W : ℕ) (q : List F) (h : IoHandler F)
          → IsSegment nought s W q
          → (before ≡ some (some s)) ⊎ (flush opened ≡ some s)
          → h.stale_count < 50
          → h.reconnect_countdown ≤ 47
          → Plays before opened n output (play bytes_count output (some s) h)
      unfolding play read is_connected is_valid
      play-Plays s W q h held source fresh few =
          rw (total_lem bytes_count n output bytes even room small) (elim (dec_le n (length q)) [
            | yes enough ↦
                let c = read_enough bytes_count n output bytes even room small held enough in
                rw c.ran (record {
                  out = take n q ++ drop n output;
                  next = record h { shared_buffer = some (some c.next); was_underrun = false };
                  ran = refl;
                  heard = inr (record {
                    segment = s;
                    rest = c.next;
                    total = W;
                    queue = q;
                    source = source;
                    held = held;
                    left = c.segment;
                    kept = refl;
                    enough = enough;
                    samples = refl;
                  });
                  handler = record {
                    mapped = (c.next, refl, W, drop n q, c.segment);
                    connected = λ e. cc;
                    stale = fresh;
                    countdown = few;
                  };
                })
            | no short ↦
                let c = read_short bytes_count n output bytes even room small held (omega arith) in
                rw (c.ran, memset_lem bytes_count n output bytes even room small)
                  (record {
                    out = zeros n ++ drop n output;
                    next = record h { shared_buffer = some (some c.next); was_underrun = true };
                    ran = refl;
                    heard = inl refl;
                    handler = record {
                      mapped = (c.next, refl, W, q, c.segment);
                      connected = λ e. cc;
                      stale = fresh;
                      countdown = few;
                    };
                  })
          ])

      check_heartbeat-Plays :
          (s : Segment F) (W : ℕ) (q : List F) (h : IoHandler F)
          → IsSegment nought s W q
          → (before ≡ some (some s)) ⊎ (flush opened ≡ some s)
          → h.stale_count < 50
          → h.reconnect_countdown ≤ 47
          → Plays before opened n output (check_heartbeat bytes_count output (some s) h)
      unfolding check_heartbeat stale_threshold
      check_heartbeat-Plays s W q h held source fresh few =
          if-Plays (get_heartbeat (some s) == h.last_heartbeat)
            (λ same.
              if-Plays (leb 50 (h.stale_count + 1))
                (λ old. give_up-Plays (record h { stale_count = h.stale_count + 1 }) few)
                (λ young.
                  play-Plays s W q (record h { stale_count = h.stale_count + 1 }) held source
                    (ground arith) few))
            (λ moved.
              play-Plays s W q
                (record h { last_heartbeat = get_heartbeat (some s); stale_count = 0 }) held source
                (omega arith) few)

      serve-Plays :
          (s : Segment F) (W : ℕ) (q : List F) (h : IoHandler F)
          → IsSegment nought s W q
          → (before ≡ some (some s)) ⊎ (flush opened ≡ some s)
          → h.stale_count < 50
          → h.reconnect_countdown ≤ 47
          → Plays before opened n output (serve bytes_count output (some s) h)
      unfolding serve
      serve-Plays s W q h held source fresh few =
          let joined : IoHandler F =
            if h.was_connected
            then h
            else record h { was_connected = true; was_underrun = false } in
          let (fresh', few') =
            if-both (λ (g : IoHandler F). (g.stale_count < 50) × (g.reconnect_countdown ≤ 47))
              h.was_connected {x = h} {y = record h { was_connected = true; was_underrun = false }}
              (fresh, few) (fresh, few) in
          if-Plays (not (is_active (some s))) (λ off. give_up-Plays joined few')
            (λ on. check_heartbeat-Plays s W q joined held source fresh' few')

    -- Provided that what an attempt to open the segment gives is no mapping or a segment that
    -- holds a queue, so one of a capacity above 0, a callback on a well-formed handler, for a
    -- whole number of stereo frames within the caller's array, of less than 2^32 bytes: it has no
    -- undefined behaviour; it fills the block with the oldest samples of the segment that the
    -- handler had or that it opened and flushed, which leave the segment's queue, or with
    -- silence, never with a part of each; and it leaves a well-formed handler.
    pub on_read_client_input-Plays :
        (opened : Buffer F) {h : IoHandler F}
        → IsOpened opened
        → IsHandler h
        → Plays h.shared_buffer opened n output (on_read_client_input bytes_count output opened h)
    unfolding on_read_client_input
    on_read_client_input-Plays opened {h} o v = elim (ensure_connected-Ensures opened o v) [
      | inl (tried, ran, valid) ↦
          rw (ran, silence_lem bytes_count n output bytes even room small)
            (record {
              out = zeros n ++ drop n output;
              next = record tried { was_connected = false };
              ran = refl;
              heard = inl refl;
              handler = valid;
            })
      | inr (tried, s, W, q, ran, at, held, source, fresh, few) ↦ rw ran (
          subst
            (λ (p : Option (Buffer F)).
              Plays h.shared_buffer opened n output (p >>= λ b. serve bytes_count output b tried))
            (sym at) (serve-Plays s W q tried held source fresh few))
    ]
