-- ===== src/Driver/Stale.antt =====
-- A producer that died: its heartbeat stands still, and the driver lets go of the segment.
use native.Mathlib.Decide.{dec_le}
use mathlib.Core.Path.{subst}
use noise_ai.Base.{
  ℕ, zero, suc, ◌+◌, ◌*◌, ◌%◌, ◌==◌, ◌≤◌, ◌<◌, ◌≡◌, refl, sym, ap, ◌∙◌, true, false, not, le→leb,
  lt→leb, if-both, if-true, if-false, Option, none, some, List, ◌++◌, ◌>>=◌, arith, length, take,
  drop, u32,
}
use noise_ai.Float.{Float, nought}
use noise_ai.Frames.{zeros}
use noise_ai.Shared.{Segment, read, is_valid, is_active, get_heartbeat}
use noise_ai.Shared.Refine.{IsSegment}
use noise_ai.Driver.{
  IoHandler, stale_threshold, is_connected, ensure_connected, play, give_up, disconnect,
  check_heartbeat, serve, on_read_client_input,
}
use noise_ai.Driver.Blocks.{silence_lem, memset_lem, total_lem, read_enough, read_short}

module _ {F : Type 0} ⦃f : Float F⦄ where
  -- Connected to an active segment whose heartbeat is the one last seen, `k` callbacks ago.
  pub record IsStale (k : ℕ) (h : IoHandler F) : Type 0 where
    pub segment : Segment F
    pub total : ℕ
    pub queue : List F
    pub mapped : h.shared_buffer ≡ some (some segment)
    pub held : IsSegment nought segment total queue
    pub active : is_active (some segment) ≡ true
    pub heartbeat : (segment.heartbeat == h.last_heartbeat) ≡ true
    pub count : h.stale_count ≡ k

  -- `k` callbacks, each with a block of the same contents, and no segment to be opened.
  pub callbacks : ℕ → List F → ℕ → IoHandler F → Option (IoHandler F)
  callbacks bytes_count output zero h = some h
  callbacks bytes_count output (suc k) h =
      on_read_client_input bytes_count output none h >>= λ (out, h').
      callbacks bytes_count output k h'

  -- The handler has let go of the segment, and played silence of `n` samples.
  pub LetsGo : ℕ → List F → Option (List F × IoHandler F) → Type 0
  LetsGo n output r =
      (next : IoHandler F) × (r ≡ some (zeros n ++ drop n output, next))
      × (next.shared_buffer ≡ none)
      × (next.was_connected ≡ false)
      × (next.stale_count ≡ 0)

  module _ (bytes_count n : ℕ) (output : List F) (bytes : bytes_count ≡ n * 4) (even : n % 2 ≡ 0)
      (room : n ≤ length output) (small : bytes_count < u32) where
    play-IsStale :
        (s : Segment F) (W : ℕ) (q : List F) (h : IoHandler F)
        → IsSegment nought s W q
        → is_active (some s) ≡ true
        → (s.heartbeat == h.last_heartbeat) ≡ true
        → (out : List F) × (next : IoHandler F) × (play bytes_count output (some s) h
            ≡ some (out, next))
          × IsStale h.stale_count next
    unfolding play read is_active
    play-IsStale s W q h held active beat =
        rw (total_lem bytes_count n output bytes even room small) (elim (dec_le n (length q)) [
          | yes enough ↦
              let c = read_enough bytes_count n output bytes even room small held enough in
              rw c.ran (
                take n q ++ drop n output,
                record h { shared_buffer = some (some c.next); was_underrun = false },
                refl,
                record {
                  segment = c.next;
                  total = W;
                  queue = drop n q;
                  mapped = refl;
                  held = c.segment;
                  active = rw c.active active;
                  heartbeat = rw c.heartbeat beat;
                  count = refl;
                },
              )
          | no short ↦
              let c = read_short bytes_count n output bytes even room small held (omega arith) in
              rw (c.ran, memset_lem bytes_count n output bytes even room small)
                (
                  zeros n ++ drop n output,
                  record h { shared_buffer = some (some c.next); was_underrun = true },
                  refl,
                  record {
                    segment = c.next;
                    total = W;
                    queue = q;
                    mapped = refl;
                    held = c.segment;
                    active = rw c.active active;
                    heartbeat = rw c.heartbeat beat;
                    count = refl;
                  },
                )
        ])

    -- One callback later the count is one more, as long as it is below the threshold.
    Counts : ℕ → Option (List F × IoHandler F) → Type 0
    Counts k r =
        (out : List F) × (next : IoHandler F) × (r ≡ some (out, next)) × IsStale (suc k) next

    counted :
        (s : Segment F) (W : ℕ) (q : List F) (h : IoHandler F)
        → IsSegment nought s W q
        → is_active (some s) ≡ true
        → (s.heartbeat == h.last_heartbeat) ≡ true
        → h.stale_count + 1 < 50
        → Counts h.stale_count (check_heartbeat bytes_count output (some s) h)
    unfolding check_heartbeat stale_threshold get_heartbeat Counts
    counted s W q h held active beat few =
        let (out, next, ran, stale) =
          play-IsStale s W q (record h { stale_count = h.stale_count + 1 }) held active beat in
        let word : h.stale_count + 1 ≡ suc h.stale_count = omega arith in
        (
          out,
          next,
          if-true _ _ _ beat ∙ if-false _ _ _ (lt→leb 50 (h.stale_count + 1) few) ∙ ran,
          rw (← word) stale,
        )

    expired :
        (s : Segment F) (h : IoHandler F)
        → (s.heartbeat == h.last_heartbeat) ≡ true
        → 50 ≤ h.stale_count + 1
        → LetsGo n output (check_heartbeat bytes_count output (some s) h)
    unfolding check_heartbeat stale_threshold get_heartbeat LetsGo give_up
    expired s h beat many = (
      disconnect h,
      if-true _ _ _ beat
          ∙ if-true _ _ _ (le→leb 50 (h.stale_count + 1) many)
          ∙ ap (λ o. o >>= λ silent. some (silent, disconnect h))
              (silence_lem bytes_count n output bytes even room small),
      refl,
      refl,
      refl,
    )

    ensured :
        (h : IoHandler F) (s : Segment F)
        → h.shared_buffer ≡ some (some s)
        → ensure_connected none h ≡ (true, h)
    unfolding ensure_connected is_connected is_valid
    ensured h s at = if-true _ _ _ (ap is_connected at)

    -- With a mapped segment, a callback serves it.
    served :
        (h : IoHandler F) (s : Segment F)
        → h.shared_buffer ≡ some (some s)
        → on_read_client_input bytes_count output none h ≡ serve bytes_count output (some s) h
    unfolding on_read_client_input
    served h s at = rw (ensured h s at) (ap (λ p. p >>= λ b. serve bytes_count output b h) at)

    serve_active :
        (s : Segment F) (h : IoHandler F) (P : Option (List F × IoHandler F) → Type 0)
        → is_active (some s) ≡ true
        → P (check_heartbeat bytes_count output (some s) h)
        → P (
            check_heartbeat bytes_count output
              (some s)
              (record h { was_connected = true; was_underrun = false }))
        → P (serve bytes_count output (some s) h)
    unfolding serve
    serve_active s h P active p q =
        let on : not (is_active (some s)) ≡ false = rw active in
        subst P (sym (if-false _ _ _ on))
          (if-both (λ g. P (check_heartbeat bytes_count output (some s) g)) h.was_connected p q)

    callback-Counts :
        (k : ℕ) {h : IoHandler F}
        → k + 1 < 50
        → IsStale k h
        → Counts k (on_read_client_input bytes_count output none h)
    callback-Counts k {h} few v =
        rw (served h v.segment v.mapped, ← v.count)
          (serve_active v.segment h (Counts h.stale_count) v.active
            (counted v.segment v.total v.queue h v.held v.active v.heartbeat
              (omega (arith, v.count)))
            (counted v.segment v.total v.queue
              (record h { was_connected = true; was_underrun = false }) v.held v.active v.heartbeat
              (omega (arith, v.count))))

    callback-LetsGo :
        {h : IoHandler F}
        → IsStale 49 h
        → LetsGo n output (on_read_client_input bytes_count output none h)
    callback-LetsGo {h} v = rw (served h v.segment v.mapped) (
        serve_active v.segment h (LetsGo n output) v.active
          (expired v.segment h v.heartbeat (omega (arith, v.count)))
          (expired v.segment (record h { was_connected = true; was_underrun = false }) v.heartbeat
            (omega (arith, v.count))))

    -- On a connected, active segment whose heartbeat stands still, with callbacks for a whole
    -- number of stereo frames within the caller's array, of which `k` were stale so far: the
    -- callbacks up to the 49th stale one keep the connection, and the next lets go of the segment
    -- and plays silence.
    pub IsStale-LetsGo :
        (left : ℕ) (k : ℕ) {h : IoHandler F}
        → k + left ≡ 49
        → IsStale k h
        → (last : IoHandler F) × (callbacks bytes_count output left h ≡ some last)
          × IsStale 49 last
          × LetsGo n output (on_read_client_input bytes_count output none last)
    unfolding callbacks Counts
    IsStale-LetsGo zero k {h} e v =
        let v' = subst (λ j. IsStale j h) {y = 49} (omega arith) v in
        (h, refl, v', callback-LetsGo v')
    IsStale-LetsGo (suc left) k {h} e v =
        let (out, next, ran, v') = callback-Counts k (omega arith) v in
        let (last, ran', v'', gone) = IsStale-LetsGo left (suc k) (omega arith) v' in
        (
          last,
          ap (λ r. r >>= λ (out, h'). callbacks bytes_count output left h') ran ∙ ran',
          v'',
          gone,
        )
