-- ===== src/Driver/Restart.antt =====
-- A producer that starts again (`ensureConnected` and `OnReadClientInput` of
-- driver/src/io_handler.cpp): the driver lets go of an inactive segment, and connects to a new
-- one.
use native.Mathlib.Decide.{dec_le}
use noise_ai.Base.{
  ℕ, ◌+◌, ◌*◌, ◌%◌, ◌==◌, ◌≤◌, ◌<◌, ◌≡◌, refl, ap, ◌∙◌, Bool, true, false, not, ltb, lt→leb, le→ltb,
  if-both, if-true, if◌then◌else◌, Option, none, some, List, ◌++◌, ◌>>=◌, arith, length, take, drop,
  u32,
}
use noise_ai.Float.{Float, nought}
use noise_ai.Frames.{zeros}
use noise_ai.Shared.{Segment, Buffer, read, flush, is_valid, is_active, get_heartbeat}
use noise_ai.Shared.Refine.{IsSegment, flush-IsSegment}
use noise_ai.Driver.{
  IoHandler, stale_threshold, is_connected, try_open, ensure_connected, play, give_up, disconnect,
  check_heartbeat, serve, on_read_client_input,
}
use noise_ai.Driver.Blocks.{silence_lem, memset_lem, total_lem, read_enough, read_short}

module _ {F : Type 0} ⦃f : Float F⦄ where
  -- Silence, and no segment.
  pub record Leaves (n : ℕ) (output : List F) (h : IoHandler F) (r : Option (List F × IoHandler F))
      : Type 0 where
    pub next : IoHandler F
    pub ran : r ≡ some (zeros n ++ drop n output, next)
    pub gone : next.shared_buffer ≡ none
    pub countdown : next.reconnect_countdown ≡ h.reconnect_countdown
    pub stale : next.stale_count ≡ 0

  -- A connection to a mapped segment.
  pub record Rejoins (r : Option (List F × IoHandler F)) : Type 0 where
    pub out : List F
    pub next : IoHandler F
    pub segment : Segment F
    pub ran : r ≡ some (out, next)
    pub kept : next.shared_buffer ≡ some (some segment)

  if-Rejoins :
      (b : Bool) {x y : Option (List F × IoHandler F)}
      → Rejoins x
      → Rejoins y
      → Rejoins (if b then x else y)
  if-Rejoins true p q = p
  if-Rejoins false p q = q

  module _ (bytes_count n : ℕ) (output : List F) (bytes : bytes_count ≡ n * 4) (even : n % 2 ≡ 0)
      (room : n ≤ length output) (small : bytes_count < u32) where
    gives_up :
        (h : IoHandler F) (s : Segment F)
        → is_active (some s) ≡ false
        → Leaves n output h (serve bytes_count output (some s) h)
    unfolding serve give_up
    gives_up h s off =
        let joined : IoHandler F =
          if h.was_connected then h else record h { was_connected = true; was_underrun = false } in
        record {
          next = disconnect joined;
          ran =
              if-true _ _ _ (ap not off)
              ∙ ap (λ o. o >>= λ silent. some (silent, disconnect joined))
                  (silence_lem bytes_count n output bytes even room small);
          gone = refl;
          countdown =
              if-both (λ (g : IoHandler F). g.reconnect_countdown ≡ h.reconnect_countdown)
                h.was_connected refl refl;
          stale = refl;
        }

    ensured :
        (opened : Buffer F) (h : IoHandler F) (s : Segment F)
        → h.shared_buffer ≡ some (some s)
        → ensure_connected opened h ≡ (true, h)
    unfolding ensure_connected is_connected is_valid
    ensured opened h s at = if-true _ _ _ (ap is_connected at)

    -- A callback on an inactive segment.
    pub inactive-Leaves :
        (opened : Buffer F) (h : IoHandler F) (s : Segment F)
        → h.shared_buffer ≡ some (some s)
        → is_active (some s) ≡ false
        → Leaves n output h (on_read_client_input bytes_count output opened h)
    unfolding on_read_client_input
    inactive-Leaves opened h s at off =
        let l = gives_up h s off in
        record {
          next = l.next;
          ran =
              rw (ensured opened h s at) (ap (λ p. p >>= λ b. serve bytes_count output b h) at)
              ∙ l.ran;
          gone = l.gone;
          countdown = l.countdown;
          stale = l.stale;
        }

    plays_on :
        (s : Segment F) {W : ℕ} {q : List F} (h : IoHandler F)
        → IsSegment nought s W q
        → Rejoins (play bytes_count output (some s) h)
    unfolding play read
    plays_on s {q = q} h held =
        rw (total_lem bytes_count n output bytes even room small) (elim (dec_le n (length q)) [
          | yes enough ↦
              let c = read_enough bytes_count n output bytes even room small held enough in
              rw c.ran (record {
                out = take n q ++ drop n output;
                next = record h { shared_buffer = some (some c.next); was_underrun = false };
                segment = c.next;
                ran = refl;
                kept = refl;
              })
          | no short ↦
              let c = read_short bytes_count n output bytes even room small held (omega arith) in
              rw (c.ran, memset_lem bytes_count n output bytes even room small)
                (record {
                  out = zeros n ++ drop n output;
                  next = record h { shared_buffer = some (some c.next); was_underrun = true };
                  segment = c.next;
                  ran = refl;
                  kept = refl;
                })
        ])

    young :
        (s : Segment F) {W : ℕ} {q : List F} (h : IoHandler F)
        → IsSegment nought s W q
        → h.stale_count ≡ 0
        → Rejoins (check_heartbeat bytes_count output (some s) h)
    unfolding check_heartbeat stale_threshold
    young s h held fresh =
        let old = lt→leb 50 (h.stale_count + 1) (omega (arith, fresh)) in
        if-Rejoins (get_heartbeat (some s) == h.last_heartbeat)
          (rw old (plays_on s (record h { stale_count = h.stale_count + 1 }) held))
          (plays_on s (record h { last_heartbeat = get_heartbeat (some s); stale_count = 0 }) held)

    joins :
        (s : Segment F) {W : ℕ} {q : List F} (h : IoHandler F)
        → IsSegment nought s W q
        → is_active (some s) ≡ true
        → h.stale_count ≡ 0
        → Rejoins (serve bytes_count output (some s) h)
    unfolding serve
    joins s h held active fresh =
        let on : not (is_active (some s)) ≡ false = ap not active in
        let joined : IoHandler F =
          if h.was_connected then h else record h { was_connected = true; was_underrun = false } in
        rw on (
          young s joined held
            (if-both (λ (g : IoHandler F). g.stale_count ≡ 0) h.was_connected fresh fresh))

    -- A callback without a segment and with nothing left to wait for, that opens an active one.
    pub active-Rejoins :
        (s : Segment F) {W : ℕ} {q : List F} (h : IoHandler F)
        → IsSegment nought s W q
        → is_active (some s) ≡ true
        → h.shared_buffer ≡ none
        → h.reconnect_countdown ≡ 0
        → h.stale_count ≡ 0
        → Rejoins (on_read_client_input bytes_count output (some s) h)
    unfolding on_read_client_input ensure_connected try_open is_connected is_valid flush is_active
    active-Rejoins s h held active null ready fresh =
        let off : is_connected h.shared_buffer ≡ false = ap is_connected null in
        let now : ltb 0 h.reconnect_countdown ≡ false =
          le→ltb 0 h.reconnect_countdown (omega (arith, ready)) in
        rw (off, now)
          (joins (record s { read_pos = s.write_pos })
            (record h {
              shared_buffer = some (some (record s { read_pos = s.write_pos }));
              reconnect_countdown = 0;
              was_ever_connected = true;
            })
            (flush-IsSegment nought held).1 active fresh)
