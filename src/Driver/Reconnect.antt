-- ===== src/Driver/Reconnect.antt =====
-- The throttle of `ensureConnected` (driver/src/io_handler.cpp): when a driver without a segment
-- tries again.
use noise_ai.Base.{
  ℕ, zero, suc, ◌+◌, ◌-◌, ◌≡◌, refl, ap, ◌∙◌, Bool, true, false, if◌then◌else◌, if-true, if-false,
  lt→ltb, le→ltb, none, some, List, [], ◌∷◌, ◌++◌, replicate, arith,
}
use noise_ai.Shared.{Segment, Buffer, flush, is_valid}
use noise_ai.Driver.{IoHandler, is_connected, try_open, ensure_connected}

module _ {F : Type 0} where
  -- What `n` calls return, where opening the shared memory returns the same each time.
  abbrev pub tries : ℕ → Buffer F → IoHandler F → List Bool × IoHandler F
  tries zero opened h = ([], h)
  tries (suc n) opened h =
      let (ok, h') = ensure_connected opened h in
      let (oks, h'') = tries n opened h' in (ok ∷ oks, h'')

  -- Connected to the segment, flushed, with nothing left to wait for.
  abbrev pub connected : Segment F → IoHandler F → IoHandler F
  connected s h = record h {
    shared_buffer = some (flush (some s));
    reconnect_countdown = 0;
    was_ever_connected = true;
  }

  attempt :
      (opened : Buffer F) (h : IoHandler F)
      → is_connected h.shared_buffer ≡ false
      → h.reconnect_countdown ≡ 0
      → ensure_connected opened h ≡ try_open opened h
  unfolding ensure_connected
  attempt opened h off ready =
      if-false _ _ _ off ∙ if-false _ _ _ (le→ltb 0 h.reconnect_countdown (omega (arith, ready)))

  counts :
      (opened : Buffer F) (n : ℕ) (h : IoHandler F)
      → is_connected h.shared_buffer ≡ false
      → h.reconnect_countdown ≡ suc n
      → ensure_connected opened h
        ≡ (false, record h { reconnect_countdown = h.reconnect_countdown - 1 })
  unfolding ensure_connected
  counts opened n h off at =
      if-false _ _ _ off ∙ if-true _ _ _ (lt→ltb 0 h.reconnect_countdown (omega (arith, at)))

  abbrev pub throttle : IoHandler F → ℕ
  throttle h = if h.was_ever_connected then 47 else 5

  waits :
      (n : ℕ) (s : Segment F) (h : IoHandler F)
      → is_connected h.shared_buffer ≡ false
      → h.reconnect_countdown ≡ n
      → tries (n + 1) (some s) h ≡ (replicate n false ++ true ∷ [], connected s h)
  unfolding ensure_connected try_open is_valid
  waits zero s h off at =
      ap (λ (r : Bool × IoHandler F). (r.0 ∷ [], r.1)) (attempt (some s) h off at)
  waits (suc n) s h off at =
      let next : IoHandler F = record h { reconnect_countdown = h.reconnect_countdown - 1 } in
      let more : suc n + 1 ≡ suc (n + 1) = omega arith in
      ap (λ k. tries k (some s) h) more
      ∙ ap
          (λ (r : Bool × IoHandler F).
            (r.0 ∷ (tries (n + 1) (some s) r.1).0, (tries (n + 1) (some s) r.1).1))
          (counts (some s) n h off at)
      ∙ ap (λ (r : List Bool × IoHandler F). (false ∷ r.0, r.1))
          (waits n s next off (omega (arith, at)))

  -- From a driver without a segment that has nothing left to wait for: an attempt to open shared
  -- memory that is not there fails; where it is there from then on, the next 5 calls, or the next
  -- 47 if the driver was connected since IO started, return false without an attempt, and the
  -- call after them connects.
  pub tries_again :
      (s : Segment F) (h : IoHandler F)
      → is_connected h.shared_buffer ≡ false
      → h.reconnect_countdown ≡ 0
      → (failed : IoHandler F) × (ensure_connected none h ≡ (false, failed))
        × (tries (throttle h + 1) (some s) failed
            ≡ (replicate (throttle h) false ++ true ∷ [], connected s h))
  unfolding ensure_connected try_open is_valid is_connected
  tries_again s h off ready =
      let failed : IoHandler F = record h {
        shared_buffer = none;
        reconnect_countdown = throttle h;
      } in
      (failed, attempt none h off ready, waits (throttle h) s failed refl refl)
