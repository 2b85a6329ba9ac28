-- ===== src/Engine/Counters.antt =====
-- What `update_overload` (engine/src/engine.cpp) makes of the overload counters.
use noise_ai.Base.{ℕ, ◌≤◌, ◌≡◌, refl, Bool, true, Bool-cases, inl, inr, arith, leb, add32}
use noise_ai.Float.{Float}
use noise_ai.Engine.{Engine}
use noise_ai.Engine.Chunk.{update_overload, overload_cooldown_frames, overload_threshold_ms}
use noise_ai.Engine.Heard.{voice, counted}

module _ {F R S N : Type 0} ⦃f : Float F⦄ where
  -- `update_overload` sets the three counters and nothing else.
  pub update_overload_shape :
      (elapsed_ms : F) (e : Engine F R S N)
      → (count : ℕ) × (passing : Bool) × (cooldown : ℕ) × (update_overload elapsed_ms e ≡ record e {
        overload_count = count;
        in_overload = passing;
        overload_cooldown = cooldown;
      })
        × (e.overload_cooldown ≤ overload_cooldown_frames → cooldown ≤ overload_cooldown_frames)
  unfolding update_overload overload_cooldown_frames
  update_overload_shape elapsed_ms e = elim (Bool-cases (f.lt overload_threshold_ms elapsed_ms)) [
    | inl slow ↦ elim (Bool-cases (leb 5 (add32 e.overload_count 1))) [
      | inl many ↦ rw (slow, many) (add32 e.overload_count 1, true, 100, refl, λ h. omega arith)
      | inr few ↦
          rw (slow, few)
            (add32 e.overload_count 1, e.in_overload, e.overload_cooldown, refl, λ h. h)
    ]
    | inr fast ↦ rw fast (0, e.in_overload, e.overload_cooldown, refl, λ h. h)
  ]

  pub update_overload-counted :
      (elapsed_ms : F) (e : Engine F R S N)
      → voice (update_overload elapsed_ms e)
        ≡ counted (f.lt overload_threshold_ms elapsed_ms) (voice e)
  unfolding update_overload
  update_overload-counted elapsed_ms e = elim (Bool-cases (f.lt overload_threshold_ms elapsed_ms)) [
    | inl slow ↦ elim (Bool-cases (leb 5 (add32 e.overload_count 1))) [
      | inl many ↦ rw (slow, many)
      | inr few ↦ rw (slow, few)
    ]
    | inr fast ↦ rw fast
  ]
