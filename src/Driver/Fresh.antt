-- ===== src/Driver/Fresh.antt =====
-- A callback of a connected driver whose producer has written since the last callback.
use noise_ai.Base.{
  ℕ, ◌*◌, ◌%◌, ◌==◌, ◌≤◌, ◌<◌, ◌≡◌, refl, true, false, Bool-cases, inl, inr, Option, some, List,
  ◌++◌, length, take, drop, u32, u64, add64, arith,
}
use noise_ai.Float.{Float, nought}
use noise_ai.Shared.{Segment, Buffer, read, is_valid, is_active, get_heartbeat}
use noise_ai.Shared.Refine.{IsSegment}
use noise_ai.Driver.{
  IoHandler, is_connected, ensure_connected, play, check_heartbeat, serve, on_read_client_input,
}
use noise_ai.Driver.Blocks.{total_lem, read_enough}

-- The heartbeat of a write is new to a driver that saw the one before.
pub beats : (hb last : ℕ) → hb < u64 → last ≡ hb → (add64 hb 1 == last) ≡ false
beats hb last small seen = ground (arith, seen)

module _ {F : Type 0} ⦃f : Float F⦄ where
  module _ (bytes_count n : ℕ) (output : List F) (bytes : bytes_count ≡ n * 4) (even : n % 2 ≡ 0)
      (room : n ≤ length output) (small : bytes_count < u32) where
    -- The callback played `n` samples of the queue `q`, and the handler keeps the segment with
    -- the rest.
    pub record Played (W : ℕ) (q : List F) (r : Option (List F × IoHandler F)) : Type 0 where
      pub next : IoHandler F
      pub rest : Segment F
      pub ran : r ≡ some (take n q ++ drop n output, next)
      pub kept : next.shared_buffer ≡ some (some rest)
      pub left : IsSegment nought rest W (drop n q)
      pub fresh : next.stale_count ≡ 0

    play-Played :
        (s : Segment F) (W : ℕ) (q : List F) (h : IoHandler F)
        → IsSegment nought s W q
        → n ≤ length q
        → h.stale_count ≡ 0
        → Played W q (play bytes_count output (some s) h)
    unfolding play read
    play-Played s W q h held enough fresh =
        let c = read_enough bytes_count n output bytes even room small held enough in
        rw (total_lem bytes_count n output bytes even room small, c.ran)
          (record {
            next = record h { shared_buffer = some (some c.next); was_underrun = false };
            rest = c.next;
            ran = refl;
            kept = refl;
            left = c.segment;
            fresh = fresh;
          })

    serve-Played :
        (s : Segment F) (W : ℕ) (q : List F) (h : IoHandler F)
        → IsSegment nought s W q
        → n ≤ length q
        → is_active (some s) ≡ true
        → (s.heartbeat == h.last_heartbeat) ≡ false
        → Played W q (serve bytes_count output (some s) h)
    unfolding serve check_heartbeat get_heartbeat
    serve-Played s W q h held enough active moved = elim (Bool-cases h.was_connected) [
      | inl on ↦
          rw (on, active, moved)
            (play-Played s W q
              (record h { was_connected = true; last_heartbeat = s.heartbeat; stale_count = 0 })
              held enough refl)
      | inr off ↦
          rw (off, active, moved)
            (play-Played s W q
              (record h {
                was_connected = true;
                was_underrun = false;
                last_heartbeat = s.heartbeat;
                stale_count = 0;
              })
              held enough refl)
    ]

    pub on_read_client_input-Played :
        (opened : Buffer F) (s : Segment F) (W : ℕ) (q : List F) (h : IoHandler F)
        → h.shared_buffer ≡ some (some s)
        → IsSegment nought s W q
        → n ≤ length q
        → is_active (some s) ≡ true
        → (s.heartbeat == h.last_heartbeat) ≡ false
        → Played W q (on_read_client_input bytes_count output opened h)
    unfolding on_read_client_input ensure_connected is_connected is_valid
    on_read_client_input-Played opened s W q h at held enough active moved =
        rw at
          (serve-Played s W q (record h { shared_buffer = some (some s) }) held enough active moved)
