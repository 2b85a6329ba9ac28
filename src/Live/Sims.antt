-- ===== src/Live/Sims.antt =====
-- What it is for the driver's process (driver/src/io_handler.cpp) to do as a handler does that is
-- told what its buffer holds.
use mathlib.Core.Option.{some-injective}
use mathlib.Core.Path.{subst}
use noise_ai.Base.{◌≡◌, ◌⊎◌, sym, ap, ◌∙◌, Bool, true, false, if◌then◌else◌, Option, none, some}
use noise_ai.Float.{Float, nought}
use noise_ai.Shared.Posix.{Posix, IsPosix, Name}
use noise_ai.Shared.Handle.{Handle}
use noise_ai.Bridge.Segment.{audio_name}
use noise_ai.Driver.{IoHandler}
use noise_ai.Driver.Connect.{IsHandler}
use noise_ai.Live.Driver.{LiveHandler, view}
use noise_ai.Live.Keeps.{Keeps}
use noise_ai.Live.Guests.{IsGuest}

module _ {F World Fd Map O : Type 0} {p : Posix F World Fd Map} (L : IsPosix O p) where
  open L use {named, contents, of_map}

  -- The buffer is null, or the old one, or one on what the segment's name refers to.
  abbrev pub Comes : World → Option (Handle Fd Map) → Option (Handle Fd Map) → Type 0
  Comes w old new =
      (new ≡ none)
      ⊎ (b : Handle Fd Map) × (new ≡ some b)
        × ((old ≡ some b)
            ⊎ (map : Map) × (b.shm_ptr ≡ some map) × (named audio_name w ≡ some (of_map map)))

  -- The process does what the handler does on what the process sees. Names stay.
  pub record Sim ⦃f : Float F⦄ (before : World) (old : Option (Handle Fd Map)) {A : Type 0}
      (live : Option (A × LiveHandler Fd Map × World)) (seen : Option (A × IoHandler F))
      : Type 0 where
    pub value : A
    pub next : LiveHandler Fd Map
    pub world : World
    pub ran : live ≡ some (value, next, world)
    pub same : seen ≡ some (value, view p world next)
    pub guest : IsGuest next.shared_buffer
    pub origin : Comes before old next.shared_buffer
    pub names : (n : Name) → named n world ≡ named n before
    pub keeps : Keeps nought L before world

  pub Sim-IsHandler :
      ⦃f : Float F⦄ {w : World} {old : Option (Handle Fd Map)} {A : Type 0}
      {live : Option (A × LiveHandler Fd Map × World)} {other : Option (A × IoHandler F)} {a : A}
      {h : IoHandler F} (s : Sim w old live other)
      → other ≡ some (a, h)
      → IsHandler h
      → IsHandler (view p s.world s.next)
  Sim-IsHandler {A = A} s ran valid =
      subst IsHandler (ap (λ (r : A × IoHandler F). r.1) (some-injective _ _ (sym ran ∙ s.same)))
        valid

  pub if-Sim :
      ⦃f : Float F⦄ {w : World} {old : Option (Handle Fd Map)} {A : Type 0} (b : Bool)
      {x y : Option (A × LiveHandler Fd Map × World)} {x' y' : Option (A × IoHandler F)}
      → Sim w old x x'
      → Sim w old y y'
      → Sim w old (if b then x else y) (if b then x' else y')
  if-Sim true s t = s
  if-Sim false s t = t
