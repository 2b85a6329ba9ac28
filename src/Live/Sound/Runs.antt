-- ===== src/Live/Sound/Runs.antt =====
-- Whole runs of the app and the driver, from before any call.
use noise_ai.Base.{
  ℕ, ◌*◌, ◌%◌, ◌≤◌, ◌<◌, ◌≡◌, refl, sym, ap, ◌∙◌, none, some, List, [], ◌∷◌, ◌>>=◌, arith, length,
  u32,
}
use noise_ai.Float.{Float}
use noise_ai.DeepFilter.{Ort}
use noise_ai.DeepFilter.Laws.{HasShapes}
use noise_ai.Engine.{RnNoise}
use noise_ai.Engine.Preserve.{make-IsValid}
use noise_ai.Engine.Valid.{KeepsFrames}
use noise_ai.Shared.Lifetime.{not_both}
use noise_ai.Shared.Posix.{Posix, IsPosix}
use noise_ai.Bridge.Segment.{audio_name}
use noise_ai.Driver.{is_connected}
use noise_ai.Live.System.{Both, Event, performs, start, AreEvents}
use noise_ai.Live.Sound.{IsSound}
use noise_ai.Live.Sound.Steps.{Performs, perform-Performs}
use noise_ai.Live.Sound.Hears.{Listens, IsSound-Listens}

module _ {F World Fd Map O : Type 0} ⦃f : Float F⦄ {p : Posix F World Fd Map} (L : IsPosix O p)
    {R S N : Type 0} where
  open L use {named}

  pub start-IsSound :
      (w : World) → named audio_name w ≡ none → IsSound L {R = R} {S = S} {N = N} (start w)
  unfolding is_connected
  start-IsSound w nothing = record {
    engine = make-IsValid;
    public = λ o known. absurd (not_both (sym known ∙ nothing));
    owner = tt;
    guest = tt;
    handler = record {
      mapped = tt;
      connected = λ e. refl;
      stale = omega arith;
      countdown = omega arith;
    };
    heard = λ b map at mapped. absurd (not_both (sym at));
  }

  module _ (decide : Discrete O) (rn : RnNoise F R) (ort : Ort F S N) (frames : KeepsFrames rn)
      (shapes : HasShapes ort) where
    -- Any calls, one after another, on such a system.
    pub performs-Performs :
        (events : List (Event F R)) (s : Both F R S N World Fd Map)
        → IsSound L s
        → AreEvents p rn ort events s
        → Performs L decide rn ort frames shapes (performs p rn ort events s)
    performs-Performs [] s sound ok = record { next = s; ran = refl; sound = sound }
    performs-Performs (e ∷ events) s sound (ok, more) =
        let one = perform-Performs L decide rn ort frames shapes e s sound ok in
        let all = performs-Performs events one.next one.sound (more one.next one.ran) in
        record {
          next = all.next;
          ran = ap (λ r. do s' ← r; performs p rn ort events s') one.ran ∙ all.ran;
          sound = all.sound;
        }

    -- With libraries that return whole frames, objects that are told apart, and nothing under the
    -- segment's name at first: any calls of the app and of the driver, in any order, with
    -- arguments as the calls ask for them and whichever calls of POSIX fail, have no undefined
    -- behaviour; and a callback after them, for whole stereo frames within its array and below
    -- 2^32 bytes, has none, and plays silence or samples that the app has handed on, next to each
    -- other and in order.
    pub performs-Listens :
        (events : List (Event F R)) (w : World)
        → named audio_name w ≡ none
        → AreEvents p rn ort events (start w)
        → (bytes_count n : ℕ) (output : List F) → bytes_count ≡ n * 4
        → n % 2 ≡ 0
        → n ≤ length output
        → bytes_count < u32
        → (last : Both F R S N World Fd Map) × (performs p rn ort events (start w) ≡ some last)
          × Listens L last n bytes_count output
    performs-Listens events w nothing ok bytes_count n output bytes even room small =
        let r = performs-Performs events (start w) (start-IsSound w nothing) ok in
        (
          r.next,
          r.ran,
          IsSound-Listens L decide r.next r.sound bytes_count n output bytes even room small,
        )
