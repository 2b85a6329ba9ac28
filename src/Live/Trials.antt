-- ===== src/Live/Trials.antt =====
-- A run of an app and a driver from before any call, and calls on a system in which both have a
-- segment.
use native.Mathlib.Decide.{ℕ_discrete}
use mathlib.Core.Option.{some-injective}
use noise_ai.Base.{
  ℕ, ◌≡◌, refl, sym, ap, ◌∙◌, Option, none, some, List, [], ◌∷◌, ◌>>=◌, arith, length, true,
}
use noise_ai.Float.Fixed.{ℤ, pos, fixed}
use noise_ai.Shared.Lifetime.{not_both}
use noise_ai.Shared.Machine.{Machine, blank, machine, machine-IsPosix, machine-IsWilling}
use noise_ai.Shared.Handle.{construct, map_segment}
use noise_ai.Bridge.Segment.{shm_create_in}
use noise_ai.Engine.Tests.{halving, halving-KeepsFrames, silent, silent-HasShapes, begun}
use noise_ai.Live.Driver.{LiveHandler, on_start_io_in}
use noise_ai.Live.System.{Event, creates, starts, writes, perform, performs, start}
use noise_ai.Live.Sound.Hears.{Listens}
use noise_ai.Live.Sound.Runs.{performs-Listens}
use noise_ai.Live.Delivers.{Delivers}
use noise_ai.Live.Restart.Rejoins.{Restarts, restart-Restarts}
use noise_ai.Live.Tests.{System, block, handle, both, both-IsSound}

-- A segment of four samples, a driver that opens it, and a block of four samples.
abbrev session : List (Event ℤ ℕ)
session = creates 20 2 ∷ starts ∷ writes block 4 ∷ []

creates_handed :
    (t : System)
    → perform (machine (pos 0)) halving silent (creates 20 2) (start blank) ≡ some t
    → t.handed ≡ []
unfolding perform shm_create_in construct map_segment
creates_handed t ran = ap (λ (s : System). s.handed) (some-injective _ _ (sym ran))

starts_handed :
    (s t : System)
    → perform (machine (pos 0)) halving silent starts s ≡ some t
    → t.handed ≡ s.handed
unfolding perform
starts_handed s t = from (on_start_io_in (machine (pos 0)) s.driver s.world)
  where
    from :
        (r : Option (ℕ × LiveHandler ℕ ℕ × Machine ℤ))
        → (do (status, h, w) ← r; some (record s { driver = h; world = w })) ≡ some t
        → t.handed ≡ s.handed
    from none ran = absurd (not_both (sym ran))
    from (some (status, h, w)) ran = ap (λ (x : System). x.handed) (some-injective _ _ (sym ran))

performs-Listens_example :
    (last : System) × (performs (machine (pos 0)) halving silent session (start blank) ≡ some last)
    × Listens (machine-IsPosix (pos 0)) last 4 16 block
unfolding machine-IsPosix
performs-Listens_example =
    performs-Listens (machine-IsPosix (pos 0)) ℕ_discrete halving silent halving-KeepsFrames
      silent-HasShapes session blank refl
      (
        omega arith,
        λ s ran. (
          tt,
          λ t ran'. (
            (omega arith, omega (arith, ap length (starts_handed s t ran' ∙ creates_handed s ran))),
            λ u ran''. tt,
          ),
        ),
      )
      16 4 block (omega arith) (omega arith) (omega arith) (omega arith)

restart-Restarts_example :
    Restarts
      (machine-IsPosix (pos 0))
      ℕ_discrete
      halving
      silent
      halving-KeepsFrames
      silent-HasShapes
      20
      2
      8
      2
      block
      both
unfolding machine-IsPosix
restart-Restarts_example =
    restart-Restarts (machine-IsPosix (pos 0)) ℕ_discrete halving silent halving-KeepsFrames
      silent-HasShapes (machine-IsWilling (pos 0)) 20 2 (omega arith) 8 2 block (omega arith)
      (omega arith) (omega arith) (omega arith) both (record handle { is_creator = true }) handle 0
      0 both-IsSound refl refl refl refl refl refl

-- With an engine that runs.
abbrev running : System
running = record both { engine = begun }
